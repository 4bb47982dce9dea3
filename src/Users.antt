-- ===== src/Users.antt =====
-- internal/core/user: the repository of ent.go and the service of service.go. The repository always uses
-- its client, never the transaction of the context.
pub mod Settled
pub mod Upsert
use mdrive.Prelude.{
  ℕ, Bool, true, false, not, ◌&&◌, ◌||◌, Option, none, some, List, [], ◌∷◌, ◌++◌, Text, no_text,
  ◌=s=◌, if◌then◌else◌,
}
use mdrive.Errorx.{Kind}
use mdrive.Result.{ok}
use mdrive.World.Tables.{User, Db}
use mdrive.World.Rows.{find, exists_where, update_where, delete_where}
use mdrive.World.Action.{
  Action, pure, raise, raise_if, ◌>>=◌, ◌>>◌, draw_now, db_call, wrap_as, query_committed,
  change_committed, World, step,
}

-- CreateCommand
pub record CreateCommand : Type 0 where
  pub name : Text
  pub email : Option Text
  pub provider : Text
  pub provider_id : Text

abbrev pub has_id : Text → User → Bool
has_id id u = u.id =s= id

abbrev pub has_public_id : Text → User → Bool
has_public_id id u = u.public_id =s= id

abbrev pub has_provider_id : Text → Text → User → Bool
has_provider_id provider provider_id u =
    (u.provider =s= provider) && (u.provider_id =s= provider_id)

-- GetByID, GetByPublicID and GetByProviderID of the repository.
unfoldable pub find_user : (User → Bool) → Action (Option User)
unfolding db_call find
find_user p = wrap_as Kind.unavailable (do db_call; query_committed (λ db. find p db.users))

-- `ulid.Make()`
unfoldable pub draw_ulid : Action Text
draw_ulid e w = (ok (e.ulid w.tick), step w)

abbrev write_users : (List User → List User) → Action (Unit {0})
write_users f = change_committed (λ db. record db { users = f db.users })

-- The rows that a new one would repeat: the unique columns are id, public_id, and provider with
-- provider_id.
unfoldable pub clashes : User → User → Bool
unfolding ◌=s=◌
clashes new u =
    (u.id =s= new.id)
    || (u.public_id =s= new.public_id)
    || has_provider_id new.provider new.provider_id u

-- Create of the repository.
unfoldable pub create_user : CreateCommand → Action User
unfolding draw_ulid draw_now db_call clashes exists_where
create_user cmd = do
  id ← draw_ulid
  now ← draw_now
  let u : User = record {
    id = id;
    public_id = id;
    name = cmd.name;
    email = cmd.email;
    provider = cmd.provider;
    provider_id = cmd.provider_id;
    created_at = now;
    updated_at = now;
  }
  wrap_as Kind.unavailable (do
    db_call
    clash ← query_committed (λ db. exists_where (clashes u) db.users)
    raise_if clash Kind.unknown)
  write_users (λ us. us ++ u ∷ [])
  pure u

abbrev pub email_or : Option Text → Option Text → Option Text
email_or none old = old
email_or (some a) old = some a

-- The row that Update leaves: an email that is nil is not among the columns that it sets.
unfoldable pub updated_user : User → ℕ → User → User
updated_user u now row = record row {
  name = u.name;
  email = email_or u.email row.email;
  updated_at = now;
}

abbrev user_or_unavailable : Option User → Action User
user_or_unavailable none = raise Kind.unavailable
user_or_unavailable (some u) = pure u

-- Update of the repository, which the service's Update passes on.
unfoldable pub update_user : User → Action User
unfolding draw_now db_call find update_where updated_user
update_user u = do
  now ← draw_now
  wrap_as Kind.unavailable db_call
  row ← query_committed (λ db. find (has_id u.id) db.users)
  old ← user_or_unavailable row
  write_users (update_where (has_id u.id) (updated_user u now))
  pure (updated_user u now old)

-- Delete of the repository.
unfoldable pub remove_user : Text → Action (Unit {0})
unfolding db_call exists_where delete_where
remove_user id = do
  wrap_as Kind.unavailable db_call
  there ← query_committed (λ db. exists_where (has_id id) db.users)
  raise_if (not there) Kind.unavailable
  write_users (delete_where (has_id id))

-- Exist
unfoldable pub user_exists : Text → Action Bool
unfolding find_user
user_exists id = do u ← find_user (has_id id); pure (elim u [ none ↦ false | some _ ↦ true ])

-- emailDiffers
abbrev pub email_differs : Option Text → Option Text → Bool
email_differs none none = false
email_differs none (some b) = true
email_differs (some a) none = true
email_differs (some a) (some b) = not (a =s= b)

unfoldable pub differs : User → CreateCommand → Bool
unfolding ◌=s=◌
differs u cmd = not (u.name =s= cmd.name) || email_differs u.email cmd.email

-- UpsertFromOIDC, where the user was looked up.
unfoldable pub upsert_found : CreateCommand → Option User → Action User
unfolding create_user differs update_user draw_now
upsert_found cmd none = create_user cmd
upsert_found cmd (some u) =
    if differs u cmd
    then (do
      now ← draw_now
      update_user (record u { name = cmd.name; email = cmd.email; updated_at = now }))
    else pure u

unfoldable pub upsert : CreateCommand → Action User
unfolding find_user upsert_found
upsert cmd = do
  raise_if (no_text cmd.provider) Kind.invalid_argument
  raise_if (no_text cmd.provider_id) Kind.invalid_argument
  raise_if (no_text cmd.name) Kind.invalid_argument
  found ← find_user (has_provider_id cmd.provider cmd.provider_id)
  upsert_found cmd found

-- GetByID and GetByPublicID of the service.
abbrev user_or_gone : Option User → Action User
user_or_gone none = raise Kind.not_found
user_or_gone (some u) = pure u

unfoldable pub get_user : Text → Action User
unfolding find_user
get_user id = do u ← find_user (has_id id); user_or_gone u

unfoldable pub get_user_by_public_id : Text → Action User
unfolding find_user
get_user_by_public_id id = do u ← find_user (has_public_id id); user_or_gone u

-- GetByProviderID of the service: a user that is not there is no error.
unfoldable pub get_user_by_provider_id : Text → Text → Action (Option User)
unfolding find_user
get_user_by_provider_id provider provider_id = find_user (has_provider_id provider provider_id)
