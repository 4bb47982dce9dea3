-- ===== src/Node/Inode.antt =====
-- internal/core/node/node.go: the inode, and the writes that every kind of node shares. The clock
-- and the generators of identifiers are the caller's: a `Stamp` is what `time.Now()` and
-- `newRevision()` returned for one write.
use mdrive.Prelude.{
  ℕ, ◌+◌, ◌%◌, ◌^◌, Bool, Option, none, some, [], Text, ltb, ◌=s=◌, if◌then◌else◌, ℤ, pos,
}
use mdrive.Errorx.{Kind}
use mdrive.Result.{Result, ok, err}
use mdrive.Node.Kinds.{NodeKind, same_kind}
use mdrive.Node.Content.{Content, content_len}

-- Revision is a string; the empty one stands for "never saved".
abbrev pub Revision : Type 0
Revision = Text

-- Revision.IsEmpty
pub is_empty : Revision → Bool
unfolding ◌=s=◌
is_empty r = r =s= []

pub record Stamp : Type 0 where
  pub now : ℕ
  pub rev : Revision

-- Node
pub record Node : Type 0 where
  pub id : ℕ
  pub kind : NodeKind
  pub size : ℤ
  pub nlink : ℕ
  pub content : Option Content
  pub atime : ℕ
  pub mtime : ℕ
  pub ctime : ℕ
  pub crtime : ℕ
  pub flags : ℕ
  pub rev : Revision
  pub stale_rev : Revision

abbrev pub max_content_size : ℕ
max_content_size = 4096

-- newNode, with the id that `uuid.New()` returned.
unfoldable pub new_node : ℕ → Stamp → NodeKind → Node
new_node id st k = record {
  id = id;
  kind = k;
  size = pos 0;
  nlink = 0;
  content = none;
  atime = st.now;
  mtime = st.now;
  ctime = st.now;
  crtime = st.now;
  flags = 0;
  rev = st.rev;
  stale_rev = [];
}

-- NewRootNode
pub new_root_node : ℕ → Stamp → Node
unfolding new_node
new_root_node id st = new_node id st NodeKind.directory

-- IncNLink, and every `nlink++`: a uint32.
unfoldable pub inc_nlink : Node → Node
inc_nlink n = record n { nlink = (n.nlink + 1) % 2 ^ 32 }

-- IsDir, IsFile, IsSymlink, IsObject, IsMount
unfoldable pub is_dir : Node → Bool
is_dir n = same_kind n.kind NodeKind.directory

unfoldable pub is_file : Node → Bool
is_file n = same_kind n.kind NodeKind.file

unfoldable pub is_symlink : Node → Bool
is_symlink n = same_kind n.kind NodeKind.symlink

unfoldable pub is_object : Node → Bool
is_object n = same_kind n.kind NodeKind.object

unfoldable pub is_mount : Node → Bool
is_mount n = same_kind n.kind NodeKind.mount

-- (n *Node) write
unfoldable pub write : Stamp → Content → ℤ → Node → Result Node
write st c size n =
    if ltb max_content_size (content_len c)
    then err Kind.invalid_argument
    else ok
        (record n { content = some c; size = size; mtime = st.now; ctime = st.now; rev = st.rev })

-- (n *Node) read
unfoldable pub read : Node → Result Content
read n = elim n.content [ none ↦ err Kind.not_found | some c ↦ ok c ]
