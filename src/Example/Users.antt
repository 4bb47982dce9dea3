-- ===== src/Example/Users.antt =====
-- Users who are upserted, and requests that are checked.
use mdrive.Prelude.{
  ℕ, suc, ◌≡◌, refl, ap, subst, true, false, Option, none, some, [], ◌∷◌, ◌++◌, if◌then◌else◌, Text,
  codes, ◌=s=◌, arith,
}
use mdrive.Errorx.{Kind}
use mdrive.Result.{Result, ok, err}
use mdrive.World.Tables.{User}
use mdrive.World.Rows.{find, update_where}
use mdrive.World.Action.{World, step}
use mdrive.Users.{CreateCommand, has_id, upsert, differs}
use mdrive.Users.Settled.{wanted}
use mdrive.Users.Upsert.{upsert-upsert, upsert-no_email}
use mdrive.NodeOp.Create.{get_by_id}
use mdrive.Repo.{get, from_ent}
use mdrive.Auth.{Session}
use mdrive.Outside.{Site, at}
use mdrive.Permission.{Permission, ObjectType, FgaClient, check}
use mdrive.Node.Inode.{is_mount}
use mdrive.Node.Typed.{read_mount}
use mdrive.Vfs.Resolve.{Cache, WalkResult, no_cache, resolve_path}
use mdrive.Vfs.Service.{get_root_node_id}
use mdrive.Handlers.Requests.{Change}
use mdrive.Handlers.{resolve_read}
use mdrive.Handlers.Changes.{serve}
use mdrive.Handlers.Guard.{change-refused, resolve_read-ok}
use mdrive.Example.Fixture.{quiet, value}
use mdrive.Example.Paths.{world, rows}

abbrev command : CreateCommand
command = record {
  name = codes "n";
  email = some (codes "m");
  provider = codes "kc";
  provider_id = codes "1";
}

abbrev pub nobody : User
nobody = record {
  id = [];
  public_id = [];
  name = [];
  email = none;
  provider = [];
  provider_id = [];
  created_at = 0;
  updated_at = 0;
}

unfoldable upserted : Result User × World
unfolding upsert
upserted = upsert command quiet world

upsert-upsert_example :
    upsert command quiet upserted.1 ≡ (ok (value nobody upserted.0), step upserted.1)
unfolding upserted upsert find
upsert-upsert_example =
    upsert-upsert command (codes "m") (value nobody upserted.0) quiet world upserted.1
      (λ u h. absurd (ground arith)) refl refl refl

-- A user with an email, and a command without one.
abbrev pub known : User
known = record nobody {
  id = codes "i";
  public_id = codes "i";
  name = codes "n";
  email = some (codes "m");
  provider = codes "zitadel";
  provider_id = codes "1";
}

abbrev pub peopled : World
peopled = record world { committed = record world.committed { users = known ∷ [] } }

abbrev no_email : CreateCommand
no_email = record {
  name = codes "n";
  email = none;
  provider = codes "zitadel";
  provider_id = codes "1";
}

known-IsKeyed : (u : User) → some known ≡ some u → find (has_id u.id) (known ∷ []) ≡ some u
unfolding find ◌=s=◌
known-IsKeyed u h =
    subst (λ (x : User). find (has_id x.id) (known ∷ []) ≡ some x)
      (ap (λ (o : Option User). elim o [ none ↦ known | some x ↦ x ]) h) refl

upsert-no_email_example :
    (u : User) × (w' : World) × (upsert no_email quiet peopled ≡ (ok u, w'))
    × (u.email ≡ some (codes "m"))
    × (find (wanted no_email) w'.committed.users ≡ some u)
    × (differs u no_email ≡ true)
    × ((w'' : World) × (upsert no_email quiet w'
          ≡ (ok (record u { updated_at = quiet.now (suc (suc w'.tick)) }), w''))
        × (w''.committed.users
            ≡ update_where
                (has_id u.id)
                (λ row. record row { name = codes "n"; updated_at = quiet.now (suc (suc w'.tick)) })
                w'.committed.users))
unfolding find ◌=s=◌
upsert-no_email_example =
    upsert-no_email no_email known (codes "m") quiet peopled known-IsKeyed (refl, refl, refl)
      (λ t. refl) refl refl refl

-- Checks that answer no, and checks that answer yes.
abbrev never : FgaClient
never = record { check = λ t user relation object. ok false }

abbrev always : FgaClient
always = record { check = λ t user relation object. ok true }

abbrev session : Session
session = record {
  id = codes "1";
  user_id = codes "i";
  provider = codes "kc";
  is_admin = false;
  created_at = 100;
  expires_at = 150;
}

abbrev site : Site (Unit {0})
site = record { world = world; servers = tt }

change-refused_example :
    serve never (some session) 3 (codes "d") (Change.rm (codes "/o" ∷ []) none) quiet site
    ≡ (err Kind.permission_denied, record site { world = step world })
unfolding check
change-refused_example =
    change-refused never (some session) 3 (codes "d") (Change.rm (codes "/o" ∷ []) none) (ok false)
      quiet site refl (λ h. absurd (ground arith))

unfoldable resolved : Result (Text × Text) × Site (Unit {0})
unfolding resolve_read
resolved = resolve_read always (some session) (codes "d") (codes "/o") quiet site

resolve_read-ok_example :
    (root_id : ℕ) × (u v : World) × (out : WalkResult) × (c : Cache) × (get_root_node_id
        (codes "d")
        quiet
        world
      ≡ (ok root_id, u))
    × (resolve_path root_id (codes "/o") true no_cache quiet u ≡ (ok (out, c), v))
    × (is_mount out.node ≡ true
        → (read_mount out.node ≡ ok (codes "d"))
          × (codes "/o"
              ≡ (if codes "d" =s= codes "d" then out.remaining else codes "/" ++ out.remaining)))
    × (is_mount out.node ≡ false → (codes "d" ≡ codes "d") × (codes "/o" ≡ codes "/o"))
    × (check always (codes "i") Permission.view ObjectType.drive (codes "d") (at quiet v) ≡ ok true)
unfolding resolved resolve_read check get_by_id get rows from_ent
resolve_read-ok_example =
    resolve_read-ok always (some session) (codes "d") (codes "/o") (codes "d") (codes "/o") quiet
      site resolved.1 refl
