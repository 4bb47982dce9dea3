-- ===== src/Handlers/Me.antt =====
-- internal/app/apiserver/handler/auth.go: AuthMe beside GetUser.
use mdrive.Prelude.{◌≡◌, refl, false, none, some, Text, no_text}
use mdrive.Errorx.{Kind}
use mdrive.Result.{err}
use mdrive.World.Rows.{find}
use mdrive.World.Action.{Env}
use mdrive.Users.{has_id, find_user, get_user}
use mdrive.Auth.{Session}
use mdrive.Permission.{FgaClient}
use mdrive.Outside.{Site}
use mdrive.Handlers.DriveOps.{auth_me, show_user}

-- The user of the session has no row, and the query does not fail: AuthMe returns the kind unavailable,
-- not the kind not_found that the service gives.
pub auth_me-gone :
    {S : Type 0} (F : FgaClient) (id : Text) (session : Session) (e : Env) (s : Site S)
    → session.user_id ≡ id
    → no_text id ≡ false
    → find (has_id id) s.world.committed.users ≡ none
    → e.fault s.world.tick ≡ false
    → ((auth_me {S = S} F (some session) e s).0 ≡ err Kind.unavailable)
      × ((show_user {S = S} F (some session) e s).0 ≡ err Kind.not_found)
unfolding auth_me show_user get_user find_user
auth_me-gone F id session e s is full gone quiet = rw (is, full, quiet, gone) (refl, refl)
