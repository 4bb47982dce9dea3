-- ===== src/Handlers/Guard.antt =====
-- internal/app/apiserver/handler: what the permission checks keep a request from.
use mdrive.Prelude.{
  ℕ, ◌≡◌, ◌≢◌, refl, sym, ap, ◌∙◌, subst, Bool, true, false, not, Option, Text, codes, ◌++◌, ◌=s=◌,
  =s=_refl, if◌then◌else◌, arith,
}
use mdrive.Errorx.{Kind}
use mdrive.Result.{Result, ok, err}
use mdrive.Node.Inode.{is_mount}
use mdrive.Node.Typed.{read_mount}
use mdrive.World.Action.{World, Env, step}
use mdrive.Vfs.Resolve.{Cache, WalkResult, no_cache, resolve_path}
use mdrive.Vfs.Service.{PartialResolution, get_root_node_id, resolve_for_permission}
use mdrive.Vfs.Service.Permitted.{resolve_for_permission-ok}
use mdrive.Permission.{Permission, ObjectType, FgaClient, check}
use mdrive.Auth.{Session, user_id_from_context}
use mdrive.Outside.{Site, Call, at, raise_if, wrap_as, db, lift, ◌>>=◌}
use mdrive.Outside.Silent.{>>=-elim}
use mdrive.Handlers.Requests.{Change}
use mdrive.Handlers.{require_perm, resolve_read, final_path}
use mdrive.Handlers.Changes.{
  mkdir_handler, touch_handler, rm_handler, mv_handler, write_handler, write_large_handler,
  symlink_handler, hardlink_handler, mount_handler, unmount_handler, serve,
}

-- The error of a check that did not answer yes.
abbrev refusal : Result Bool → Kind
refusal (ok b) = Kind.permission_denied
refusal (err k) = Kind.unavailable

-- What requirePerm makes of the answer.
abbrev checked : Result Bool → Result (Unit {0})
checked (ok true) = ok tt
checked (ok false) = err Kind.permission_denied
checked (err k) = err Kind.unavailable

checked-ok : (r : Result Bool) → checked r ≡ ok tt → r ≡ ok true
checked-ok (ok true) h = refl
checked-ok (ok false) h = absurd (ground arith)
checked-ok (err k) h = absurd (ground arith)

module _ {S : Type 0} (F : FgaClient) (session : Option Session) where
  abbrev answer : Permission → Text → Env → Site S → Result Bool
  answer perm drive_id e s =
      check F (user_id_from_context session) perm ObjectType.drive drive_id (at e s.world)

  abbrev later : Site S → Site S
  later s = record s { world = step s.world }

  require_perm_lem :
      (perm : Permission) (drive_id : Text) (e : Env) (s : Site S)
      → require_perm F session perm drive_id e s ≡ (checked (answer perm drive_id e s), later s)
  unfolding require_perm
  require_perm_lem perm drive_id e s = go (answer perm drive_id e s)
    where
      go :
          (r : Result Bool)
          → (wrap_as Kind.unavailable (lift {S = S} r) >>= λ allowed.
                raise_if (not allowed) Kind.permission_denied)
              e
              (later s)
            ≡ (checked r, later s)
      go (ok true) = refl
      go (ok false) = refl
      go (err k) = refl

  refused :
      {A : Type 0} (perm : Permission) (drive_id : Text) (f : Unit {0} → Call S A) (r : Result Bool)
      (e : Env) (s : Site S)
      → answer perm drive_id e s ≡ r
      → r ≢ ok true
      → (require_perm F session perm drive_id >>= f) e s ≡ (err (refusal r), later s)
  refused perm drive_id f (ok true) e s h not_yes = absurd (not_yes refl)
  refused perm drive_id f (ok false) e s h not_yes = rw (require_perm_lem perm drive_id e s, h) refl
  refused perm drive_id f (err k) e s h not_yes = rw (require_perm_lem perm drive_id e s, h) refl

  -- Mkdir, Touch, Rm, Mv, Write, WriteLarge, Symlink, Hardlink, Mount and Unmount, with whatever the
  -- request says, where the check of the permission to edit the drive answers no or fails: the handler
  -- returns the kind permission_denied or unavailable, and of all the state only the count of calls is
  -- another.
  pub change-refused :
      (fuel : ℕ) (drive_id : Text) (c : Change) (r : Result Bool) (e : Env) (s : Site S)
      → answer Permission.edit drive_id e s ≡ r
      → r ≢ ok true
      → serve F session fuel drive_id c e s ≡ (err (refusal r), later s)
  unfolding serve mkdir_handler touch_handler rm_handler mv_handler write_handler
      write_large_handler symlink_handler hardlink_handler mount_handler unmount_handler
  change-refused fuel drive_id (Change.mkdir path) r e s h not_yes =
      refused Permission.edit drive_id _ r e s h not_yes
  change-refused fuel drive_id (Change.touch path) r e s h not_yes =
      refused Permission.edit drive_id _ r e s h not_yes
  change-refused fuel drive_id (Change.rm paths recursive) r e s h not_yes =
      refused Permission.edit drive_id _ r e s h not_yes
  change-refused fuel drive_id (Change.mv sources destination) r e s h not_yes =
      refused Permission.edit drive_id _ r e s h not_yes
  change-refused fuel drive_id (Change.write path content) r e s h not_yes =
      refused Permission.edit drive_id _ r e s h not_yes
  change-refused fuel drive_id (Change.write_large path bucket key m x size) r e s h not_yes =
      refused Permission.edit drive_id _ r e s h not_yes
  change-refused fuel drive_id (Change.symlink target link_path) r e s h not_yes =
      refused Permission.edit drive_id _ r e s h not_yes
  change-refused fuel drive_id (Change.hardlink src_path link_path) r e s h not_yes =
      refused Permission.edit drive_id _ r e s h not_yes
  change-refused fuel drive_id (Change.mount mount_path source) r e s h not_yes =
      refused Permission.edit drive_id _ r e s h not_yes
  change-refused fuel drive_id (Change.unmount mount_path) r e s h not_yes =
      refused Permission.edit drive_id _ r e s h not_yes

  -- A mount, where the check of the permission to view the drive that is mounted answers no or fails: the
  -- request fails, and all the state but the count of calls is as it was.
  pub mount-refused :
      (drive_id mount_path source : Text) (r : Result Bool) (e : Env) (s : Site S)
      → answer Permission.edit drive_id e s ≡ ok true
      → answer Permission.view source e (later s) ≡ r
      → r ≢ ok true
      → mount_handler F session drive_id mount_path source e s ≡ (err (refusal r), later (later s))
  unfolding mount_handler
  mount-refused drive_id mount_path source r e s edit h not_yes =
      rw (require_perm_lem Permission.edit drive_id e s, edit)
        (refused Permission.view source _ r e (later s) h not_yes)

  require_perm-ok :
      (perm : Permission) (drive_id : Text) (e : Env) (s s' : Site S) (a : Unit {0})
      → require_perm F session perm drive_id e s ≡ (ok a, s')
      → (answer perm drive_id e s ≡ ok true) × (later s ≡ s')
  require_perm-ok perm drive_id e s s' a h =
      let same = sym (require_perm_lem perm drive_id e s) ∙ h in
      (
        checked-ok (answer perm drive_id e s) (ap (λ (r : Result (Unit {0}) × Site S). r.0) same),
        ap (λ (r : Result (Unit {0}) × Site S). r.1) same,
      )

  -- What the handlers that read hand to the file system: the root of the requested drive was found and
  -- the path walked from there; if the walk stopped at a mount, the drive is the one that is mounted
  -- there, and the path is what is left of the walk, after a slash if the drive is another than the
  -- requested one; if it stopped elsewhere, drive and path are the requested ones; and after the walk
  -- the check of the permission to view this drive answered yes.
  pub resolve_read-ok :
      (drive_id path d p : Text) (e : Env) (s s' : Site S)
      → resolve_read F session drive_id path e s ≡ (ok (d, p), s')
      → (root_id : ℕ) × (u v : World) × (out : WalkResult) × (c : Cache) × (get_root_node_id
            drive_id e s.world
          ≡ (ok root_id, u))
        × (resolve_path root_id path true no_cache e u ≡ (ok (out, c), v))
        × (is_mount out.node ≡ true
            → (read_mount out.node ≡ ok d)
              × (p ≡ (if d =s= drive_id then out.remaining else codes "/" ++ out.remaining)))
        × (is_mount out.node ≡ false → (d ≡ drive_id) × (p ≡ path))
        × (answer Permission.view d e (record s { world = v }) ≡ ok true)
  unfolding resolve_read ◌=s=◌
  resolve_read-ok drive_id path d p e s s' h =
      >>=-elim (db (resolve_for_permission drive_id path)) _ e s s' (d, p) h
        λ res v h₁ k₁.
          >>=-elim (require_perm F session Permission.view res.drive_id) _ e v s' (d, p) k₁
            λ a u h₂ k₂.
              let is : ◌≡◌ {A = Text × Text} (res.drive_id, final_path drive_id res) (d, p) =
                same_pair _ _ u s' k₂ in
              let drive : res.drive_id ≡ d = ap (λ (x : Text × Text). x.0) is in
              let rest : final_path drive_id res ≡ p = ap (λ (x : Text × Text). x.1) is in
              let (allowed, _) = require_perm-ok Permission.view res.drive_id e v u a h₂ in
              let walked : resolve_for_permission drive_id path e s.world ≡ (ok res, v.world) =
                ap (λ (r : Result PartialResolution × Site S). (r.0, r.1.world)) h₁ in
              let there : record s { world = v.world } ≡ v =
                ap (λ (r : Result PartialResolution × Site S). record s { world = r.1.world })
                  (sym h₁)
                ∙ ap (λ (r : Result PartialResolution × Site S). r.1) h₁ in
              let (root_id, w, out, c, rooted, went, (elsewhere, mounted)) =
                resolve_for_permission-ok drive_id path res e s.world v.world walked in
              (
                root_id,
                w,
                v.world,
                out,
                c,
                rooted,
                went,
                λ here.
                    let (read, left) = mounted here in
                    (
                      read ∙ ap (λ (x : Text). ok x) drive,
                      sym rest
                          ∙ (ap
                                (λ (t : Text).
                                  if res.drive_id =s= drive_id then t else codes "/" ++ t)
                                left
                              ∙ ap
                                  (λ (x : Text).
                                    if x =s= drive_id
                                    then out.remaining
                                    else codes "/" ++ out.remaining)
                                  drive),
                    ),
                λ other.
                    let (same, whole) = elsewhere other in
                    (
                      sym drive ∙ same,
                      sym rest
                          ∙ (ap
                                (λ (x : Text).
                                  if x =s= drive_id then res.path else codes "/" ++ res.path)
                                same
                              ∙ rw (=s=_refl drive_id) whole),
                    ),
                subst
                    (λ (x : Text).
                      answer Permission.view x e (record s { world = v.world }) ≡ ok true)
                    drive
                    (ap (λ (x : Site S). answer Permission.view res.drive_id e x) there ∙ allowed),
              )
    where
      same_pair :
          (a b : Text × Text) (u v : Site S)
          → ◌≡◌ {A = Result (Text × Text) × Site S} (ok a, u) (ok b, v)
          → a ≡ b
      same_pair a b u v q = cc
