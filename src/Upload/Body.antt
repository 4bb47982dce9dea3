-- ===== src/Upload/Body.antt =====
-- internal/upload/service.go: the transaction of CompleteUpload.
pub mod Effect
use mdrive.Prelude.{ℕ, Option, none, some, [], Text, ℤ}
use mdrive.Result.{Result, ok, err}
use mdrive.Node.Content.{ObjectContent}
use mdrive.Node.Inode.{Node}
use mdrive.World.Action.{Action, pure, ◌>>=◌}
use mdrive.NodeOp.Create.{create_object, delete_node, get_by_id}
use mdrive.NodeOp.Link.{link}
use mdrive.Vfs.Service.{resolve_parent_node_id}
use mdrive.Upload.Tokens.{PresignMeta}

abbrev pub text_or_empty : Option Text → Text
text_or_empty none = []
text_or_empty (some s) = s

-- The object that a token stands for.
abbrev pub object_of : PresignMeta → Option Text → ObjectContent
object_of m checksum = record {
  bucket = m.bucket;
  key = m.key;
  mime = text_or_empty m.content_type;
  checksum = text_or_empty checksum;
}

-- The transaction of CompleteUpload: a new object under the name of the token's path. If the Link fails
-- the object is deleted, and the error of the Link is returned whatever becomes of that.
abbrev pub linked_or_deleted : ℕ → Result (Node × Node) → Action Node
linked_or_deleted id (ok (_, child)) e w = (ok child, w)
linked_or_deleted id (err k) e w = let (_, w') = delete_node id e w in (err k, w')

unfoldable pub complete_body : Text → PresignMeta → ℤ → Option Text → Action Node
unfolding resolve_parent_node_id get_by_id create_object link delete_node
complete_body drive_id m length checksum = do
  (parent_id, name) ← resolve_parent_node_id drive_id m.path
  parent ← get_by_id parent_id
  created ← create_object (object_of m checksum) length
  λ e w.
      let (r, w') = link (some parent) name (some created) e w in
      linked_or_deleted created.id r e w'
