-- ===== src/Users/Upsert.antt =====
-- internal/core/user/service.go: UpsertFromOIDC, run once and run again.
use mdrive.Prelude.{ℕ, suc, ◌≡◌, refl, true, false, none, some, Text, =s=_refl, arith}
use mdrive.Result.{ok}
use mdrive.World.Tables.{User}
use mdrive.World.Rows.{find, update_where}
use mdrive.World.Action.{World, Env, step, draw_now}
use mdrive.Users.{
  CreateCommand, has_id, find_user, updated_user, update_user, differs, upsert_found, upsert,
}
use mdrive.Users.Settled.{wanted, find-update, IsKeyed, IsComplete, upsert-IsSettled}

-- An UpsertFromOIDC with an email that succeeded, in a table in which the rows that are found by the
-- provider are found by their ids: the same command again, whose query does not fail, returns the same
-- user and changes no table.
pub upsert-upsert :
    (cmd : CreateCommand) (m : Text) (u : User) (e : Env) (w w' : World)
    → IsKeyed cmd w.committed.users
    → cmd.email ≡ some m
    → upsert cmd e w ≡ (ok u, w')
    → e.fault w'.tick ≡ false
    → upsert cmd e w' ≡ (ok u, step w')
unfolding upsert find_user upsert_found
upsert-upsert cmd m u e w w' keyed given h quiet =
    let ((a, b, c), (there, settled)) = upsert-IsSettled cmd u e w w' keyed h in
    rw (a, b, c, quiet, there, settled m given) refl

-- The columns that an update without an email sets.
abbrev renamed : CreateCommand → ℕ → User → User
renamed cmd now row = record row { name = cmd.name; updated_at = now }

abbrev rewritten : CreateCommand → ℕ → Text → World → World
rewritten cmd now id w = record (step (step (step (step w)))) {
  committed = record w.committed {
    users = update_where (has_id id) (renamed cmd now) w.committed.users;
  };
}

-- A run for a user that has an email, of a command that has none.
upsert-rewritten :
    (cmd : CreateCommand) (old : User) (m : Text) (e : Env) (w : World)
    → IsComplete cmd
    → ((t : ℕ) → e.fault t ≡ false)
    → cmd.email ≡ none
    → find (wanted cmd) w.committed.users ≡ some old
    → find (has_id old.id) w.committed.users ≡ some old
    → old.email ≡ some m
    → upsert cmd e w ≡ (
      ok (renamed cmd (e.now (suc (suc w.tick))) old),
      rewritten cmd (e.now (suc (suc w.tick))) old.id w,
    )
unfolding upsert find_user upsert_found update_user updated_user differs draw_now
upsert-rewritten cmd old m e w (a, b, c) quiet no_email there keyed has =
    let unsettled : differs old cmd ≡ true = ground (arith, no_email, has) in
    rw (a, b, c, quiet w.tick, there, unsettled, quiet (suc (suc (suc w.tick))), keyed, no_email)
      refl

-- An UpsertFromOIDC without an email, with a provider, a provider's id and a name, of a user that has an
-- email, in a table in which the row that is found by the provider is found by its id, with no failing
-- call: the row keeps its email and is found again, and still differs from the command, so that the same
-- command again writes the row again, with the time of this later call and nothing else changed.
pub upsert-no_email :
    (cmd : CreateCommand) (old : User) (m : Text) (e : Env) (w : World)
    → IsKeyed cmd w.committed.users
    → IsComplete cmd
    → ((t : ℕ) → e.fault t ≡ false)
    → cmd.email ≡ none
    → find (wanted cmd) w.committed.users ≡ some old
    → old.email ≡ some m
    → (u : User) × (w' : World) × (upsert cmd e w ≡ (ok u, w'))
      × (u.email ≡ some m)
      × (find (wanted cmd) w'.committed.users ≡ some u)
      × (differs u cmd ≡ true)
      × ((w'' : World) × (upsert cmd e w'
            ≡ (ok (record u { updated_at = e.now (suc (suc w'.tick)) }), w''))
          × (w''.committed.users
              ≡ update_where
                  (has_id u.id)
                  (λ row. record row { name = cmd.name; updated_at = e.now (suc (suc w'.tick)) })
                  w'.committed.users))
unfolding differs
upsert-no_email cmd old m e w keyed complete quiet no_email there has =
    let now = e.now (suc (suc w.tick)) in
    let u = renamed cmd now old in
    let w' = rewritten cmd now old.id w in
    let found : find (wanted cmd) w'.committed.users ≡ some u =
      find-update (wanted cmd) (has_id old.id) (renamed cmd now) old w.committed.users (λ y. refl)
        there (=s=_refl old.id) in
    let by_id : find (has_id u.id) w'.committed.users ≡ some u =
      find-update (has_id old.id) (has_id old.id) (renamed cmd now) old w.committed.users
        (λ y. refl) (keyed old there) (=s=_refl old.id) in
    (
      u,
      w',
      upsert-rewritten cmd old m e w complete quiet no_email there (keyed old there) has,
      has,
      found,
      ground (arith, has, no_email),
      (
        rewritten cmd (e.now (suc (suc w'.tick))) u.id w',
        upsert-rewritten cmd u m e w' complete quiet no_email found by_id has,
        refl,
      ),
    )
