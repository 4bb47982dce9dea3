-- ===== src/Node/Typed.antt =====
-- internal/core/node/inline_node.go, file.go, symlink.go, object.go, mount.go: the constructors,
-- readers and writers of the kinds other than directories.
use mdrive.Prelude.{ℕ, Bool, true, false, [], ◌∷◌, ◌||◌, Text, ltb, ℤ, pos, negsuc, not}
use mdrive.Errorx.{Kind}
use mdrive.Result.{Result, err_if, ◌>>=◌, ◌>>◌}
use mdrive.Node.Kinds.{NodeKind, same_kind}
use mdrive.Node.Content.{
  Content, file_json, symlink_json, object_json, mount_json, ObjectContent, content_len, byte_len,
  unmarshal_file, unmarshal_symlink, unmarshal_object, unmarshal_mount,
}
use mdrive.Node.Inode.{Node, Stamp, max_content_size, new_node, write, read}

-- What `uuid.New()` and the two stamps of a constructor returned: `newNode`, then `write`.
pub record Seed : Type 0 where
  pub id : ℕ
  pub born : Stamp
  pub written : Stamp

abbrev too_large : Content → Bool
too_large c = ltb max_content_size (content_len c)

abbrev is_nil : Text → Bool
is_nil [] = true
is_nil (c ∷ s) = false

abbrev is_negative : ℤ → Bool
is_negative (pos n) = false
is_negative (negsuc n) = true

-- newInlineNode
unfoldable pub new_inline_node : Seed → NodeKind → Content → ℤ → Result Node
unfolding new_node write
new_inline_node sd k c size = do
  err_if (too_large c) Kind.invalid_argument
  write sd.written c size (new_node sd.id sd.born k)

-- NewFile
unfoldable pub new_file : Seed → Text → Result Node
unfolding new_inline_node
new_file sd raw = new_inline_node sd NodeKind.file (file_json raw) (pos (byte_len raw))

-- WriteFile
unfoldable pub write_file : Stamp → Text → Node → Result Node
unfolding write
write_file st raw n = do
  err_if (too_large (file_json raw)) Kind.out_of_range
  write st (file_json raw) (pos (byte_len raw)) n

-- ReadFile
unfoldable pub read_file : Node → Result Text
unfolding read
read_file n = do c ← read n; unmarshal_file c

-- NewSymlink
unfoldable pub new_symlink : Seed → Text → Result Node
unfolding new_inline_node
new_symlink sd target = do
  err_if (is_nil target) Kind.invalid_argument
  new_inline_node sd NodeKind.symlink (symlink_json target) (pos (byte_len target))

-- Readlink
unfoldable pub readlink : Node → Result Text
unfolding read
readlink n = do
  err_if (not (same_kind n.kind NodeKind.symlink)) Kind.invalid_argument
  c ← read n
  unmarshal_symlink c

-- WriteSymlink
unfoldable pub write_symlink : Stamp → Text → Node → Result Node
unfolding write
write_symlink st target n = do
  err_if (is_nil target) Kind.invalid_argument
  err_if (not (same_kind n.kind NodeKind.symlink)) Kind.invalid_argument
  err_if (too_large (symlink_json target)) Kind.invalid_argument
  write st (symlink_json target) (pos (byte_len target)) n

-- NewObject
unfoldable pub new_object : Seed → ObjectContent → ℤ → Result Node
unfolding new_inline_node
new_object sd o size = do
  err_if (is_nil o.bucket || is_nil o.key) Kind.invalid_argument
  err_if (is_negative size) Kind.invalid_argument
  new_inline_node sd NodeKind.object (object_json o) size

-- ReadObject
unfoldable pub read_object : Node → Result ObjectContent
unfolding read
read_object n = do c ← read n; unmarshal_object c

-- WriteObject
unfoldable pub write_object : Stamp → ObjectContent → ℤ → Node → Result Node
unfolding write
write_object st o size n = do
  err_if (not (same_kind n.kind NodeKind.object)) Kind.invalid_argument
  err_if (is_nil o.bucket || is_nil o.key) Kind.invalid_argument
  err_if (is_negative size) Kind.invalid_argument
  err_if (too_large (object_json o)) Kind.invalid_argument
  write st (object_json o) size n

-- NewMount
unfoldable pub new_mount : Seed → Text → Result Node
unfolding new_inline_node
new_mount sd src = do
  err_if (is_nil src) Kind.invalid_argument
  new_inline_node sd NodeKind.mount (mount_json src) (pos 0)

-- ReadMount
unfoldable pub read_mount : Node → Result Text
unfolding read
read_mount n = do c ← read n; unmarshal_mount c
