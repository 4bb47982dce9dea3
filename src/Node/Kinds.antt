-- ===== src/Node/Kinds.antt =====
-- internal/core/node/node.go and ent.go: the kinds of a node and their names in the database.
use mdrive.Prelude.{◌≡◌, refl, Bool, true, false, Text, codes, ◌=s=◌, if◌then◌else◌}

-- NodeKind. Only the five constants are ever stored in the Go type.
pub data NodeKind : Type 0 where
  file directory symlink object mount : NodeKind

-- NodeKind.String, which has the spelling of entnode.Kind as well.
unfoldable pub kind_string : NodeKind → Text
kind_string NodeKind.file = codes "file"
kind_string NodeKind.directory = codes "directory"
kind_string NodeKind.symlink = codes "symlink"
kind_string NodeKind.object = codes "object"
kind_string NodeKind.mount = codes "mount"

-- entKind: the value of the enum column.
unfoldable pub ent_kind : NodeKind → Text
ent_kind NodeKind.file = codes "file"
ent_kind NodeKind.directory = codes "directory"
ent_kind NodeKind.symlink = codes "symlink"
ent_kind NodeKind.object = codes "object"
ent_kind NodeKind.mount = codes "mount"

-- parseNodeKind
unfoldable pub parse_node_kind : Text → NodeKind
unfolding ◌=s=◌
parse_node_kind s =
    if s =s= codes "file"
    then NodeKind.file
    else if s =s= codes "directory"
    then NodeKind.directory
    else if s =s= codes "symlink"
    then NodeKind.symlink
    else if s =s= codes "object"
    then NodeKind.object
    else if s =s= codes "mount"
    then NodeKind.mount
    else NodeKind.file

-- The tests `a == b` on kinds.
abbrev pub same_kind : NodeKind → NodeKind → Bool
same_kind NodeKind.file NodeKind.file = true
same_kind NodeKind.directory NodeKind.directory = true
same_kind NodeKind.symlink NodeKind.symlink = true
same_kind NodeKind.object NodeKind.object = true
same_kind NodeKind.mount NodeKind.mount = true
same_kind _ _ = false

-- What the database column gives back is the kind that was stored.
pub parse_node_kind-ent_kind : (k : NodeKind) → parse_node_kind (ent_kind k) ≡ k
unfolding parse_node_kind ent_kind
parse_node_kind-ent_kind NodeKind.file = refl
parse_node_kind-ent_kind _ = refl
