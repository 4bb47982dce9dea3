-- ===== src/Handlers.antt =====
-- internal/app/apiserver/handler: the permission checks of handler.go, and the handlers of fs.go that
-- read. A session is that of the request's context.
pub mod Requests
pub mod Answers
pub mod DriveOps
pub mod Uploads
pub mod Changes
pub mod Guard
pub mod Me
use mdrive.Prelude.{
  ℕ, Bool, true, false, not, Option, none, some, List, [], ◌∷◌, ◌++◌, map, Text, codes, no_text, ℤ,
  ◌=s=◌, if◌then◌else◌,
}
use mdrive.Errorx.{Kind}
use mdrive.Result.{Result, ok, err}
use mdrive.Node.Kinds.{kind_string}
use mdrive.Node.Content.{DirEntry, ObjectContent}
use mdrive.Node.Inode.{Node}
use mdrive.Node.Typed.{readlink}
use mdrive.Vfs.Make.{mount, mkdir, touch, symlink, write_large, hardlink, unmount, write}
use mdrive.Vfs.Remove.{rm_all}
use mdrive.Vfs.Transfer.{mv}
use mdrive.Vfs.Show.{stat, ls, cat}
use mdrive.Vfs.Service.{PartialResolution, resolve_for_permission, lstat}
use mdrive.Handlers.Requests.{Change}
use mdrive.Handlers.Answers.{NodeStat, stat_to_api}
use mdrive.Permission.{Permission, ObjectType, FgaClient, check}
use mdrive.Auth.{Session, user_id_from_context}
use mdrive.Outside.{Call, pure, raise_if, lift, wrap_as, db, ask, ◌>>=◌, ◌>>◌}

-- The last step of resolveRead.
abbrev pub final_path : Text → PartialResolution → Text
unfolding ◌=s=◌
final_path drive_id res = if res.drive_id =s= drive_id then res.path else codes "/" ++ res.path

-- api.DirEntry, with the id of the inode as the number that it is the text of.
abbrev entry_to_api : DirEntry → ℕ × Text × Text
entry_to_api x = (x.inode_id, x.name, kind_string x.kind)

module _ {S : Type 0} (F : FgaClient) (session : Option Session) where
  -- requirePerm
  unfoldable pub require_perm : Permission → Text → Call S (Unit {0})
  unfolding check
  require_perm perm drive_id = do
    allowed ←
        wrap_as Kind.unavailable
          (ask λ t s. (check F (user_id_from_context session) perm ObjectType.drive drive_id t, s))
    raise_if (not allowed) Kind.permission_denied

  -- resolveRead
  unfoldable pub resolve_read : Text → Text → Call S (Text × Text)
  unfolding resolve_for_permission require_perm final_path ◌=s=◌
  resolve_read drive_id path = do
    res ← db (resolve_for_permission drive_id path)
    require_perm Permission.view res.drive_id
    pure (res.drive_id, final_path drive_id res)

  -- Ls
  unfoldable pub list_dir : Text → Text → Call S (List (ℕ × Text × Text))
  unfolding resolve_read ls kind_string
  list_dir drive_id path = do
    (d, p) ← resolve_read drive_id (if no_text path then codes "/" else path)
    es ← db (ls d p)
    pure (map entry_to_api es)

  -- Cat
  unfoldable pub read_text : Text → Text → Call S Text
  unfolding resolve_read cat
  read_text drive_id path = do (d, p) ← resolve_read drive_id path; db (cat d p)

  -- Realpath
  unfoldable pub realpath : Text → Text → Call S PartialResolution
  unfolding require_perm resolve_for_permission
  realpath drive_id path = do
    require_perm Permission.view drive_id
    db (resolve_for_permission drive_id path)

  -- Stat and Lstat
  unfoldable pub stat_node : Text → Text → Call S NodeStat
  unfolding resolve_read stat stat_to_api
  stat_node drive_id path = do
    (d, p) ← resolve_read drive_id path
    n ← db (stat d p)
    pure (stat_to_api n)

  unfoldable pub lstat_node : Text → Text → Call S NodeStat
  unfolding resolve_read lstat stat_to_api
  lstat_node drive_id path = do
    (d, p) ← resolve_read drive_id path
    res ← db (lstat d p)
    pure (stat_to_api res.node)

  -- Readlink
  unfoldable pub read_link : Text → Text → Call S Text
  unfolding resolve_read lstat readlink
  read_link drive_id path = do
    (d, p) ← resolve_read drive_id path
    res ← db (lstat d p)
    lift (readlink res.node)
