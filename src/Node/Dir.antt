-- ===== src/Node/Dir.antt =====
-- internal/core/node/dir.go: the operations of a directory. Each returns the changed inode, or an
-- error that leaves the inode as it was.
pub mod Entries
pub mod Listing
use mdrive.Prelude.{
  Bool, true, false, Option, none, some, List, [], ◌∷◌, ◌++◌, Text, ltb, ◌=s=◌, if◌then◌else◌, pos,
  not, length, ◌==◌,
}
use mdrive.Errorx.{Kind}
use mdrive.Result.{Result, ok, err, err_if, ◌>>=◌, ◌>>◌}
use mdrive.Node.Kinds.{NodeKind, same_kind}
use mdrive.Node.Content.{DirEntry, dir_json, content_len, unmarshal_dir}
use mdrive.Node.Inode.{Node, Stamp, max_content_size, new_node, write, read}
use mdrive.Node.Typed.{Seed}

-- findEntry
unfoldable pub find_entry : Text → List DirEntry → Option DirEntry
find_entry name [] = none
find_entry name (e ∷ es) = if e.name =s= name then some e else find_entry name es

-- The `continue` loops that drop the entries of a name.
unfoldable pub without : Text → List DirEntry → List DirEntry
without name [] = []
without name (e ∷ es) = let rest = without name es in if e.name =s= name then rest else e ∷ rest

-- NewDirectory: the document of a nil list has 14 bytes, and `write` records the size 0.
unfoldable pub new_directory : Seed → Result Node
unfolding new_node write
new_directory sd =
    write sd.written (dir_json []) (pos 0) (new_node sd.id sd.born NodeKind.directory)

-- ReadDir
unfoldable pub read_dir : Node → Result (List DirEntry)
unfolding read
read_dir n = do c ← read n; unmarshal_dir c

abbrev err_if_not_dir : Node → Result (Unit {0})
err_if_not_dir n = err_if (not (same_kind n.kind NodeKind.directory)) Kind.invalid_argument

-- WriteDir
unfoldable pub write_dir : Stamp → List DirEntry → Node → Result Node
unfolding write
write_dir st es n = do
  err_if_not_dir n
  err_if (ltb max_content_size (content_len (dir_json es))) Kind.invalid_argument
  write st (dir_json es) (pos (content_len (dir_json es))) n

-- The entry that names `child`.
abbrev pub entry_of : Text → Node → DirEntry
entry_of name child = record { inode_id = child.id; name = name; kind = child.kind }

abbrev pub is_nil : Text → Bool
is_nil [] = true
is_nil (c ∷ s) = false

abbrev pub is_some {ℓ} : {A : Type ℓ} → Option A → Bool
is_some none = false
is_some (some a) = true

-- AddEntry
unfoldable pub add_entry : Stamp → Text → Node → Node → Result Node
unfolding read_dir write_dir find_entry
add_entry st name child n = do
  err_if_not_dir n
  err_if (is_nil name) Kind.invalid_argument
  es ← read_dir n
  err_if (is_some (find_entry name es)) Kind.already_exists
  write_dir st (es ++ entry_of name child ∷ []) n

-- The loop of AddEntries over a map, in the order in which Go visits it; `old` are the entries
-- that were there before, `es` those read and appended so far.
unfoldable pub append_entries :
    List DirEntry → List (Text × Option Node) → List DirEntry → Result (List DirEntry)
unfolding find_entry
append_entries old [] es = ok es
append_entries old ((name, child) ∷ more) es = do
  err_if (is_nil name) Kind.invalid_argument
  c ← elim child [ none ↦ err Kind.invalid_argument | some c ↦ ok c ]
  err_if (is_some (find_entry name old)) Kind.already_exists
  append_entries old more (es ++ entry_of name c ∷ [])

-- AddEntries
unfoldable pub add_entries : Stamp → List (Text × Option Node) → Node → Result Node
unfolding read_dir write_dir append_entries
add_entries st [] n = do err_if_not_dir n; ok n
add_entries st (x ∷ entries) n = do
  err_if_not_dir n
  old ← read_dir n
  es ← append_entries old (x ∷ entries) old
  write_dir st es n

-- `append(es[:i], es[i+1:]...)` at the first entry of the name; none if there is no such entry.
unfoldable pub remove_first : Text → List DirEntry → Option (List DirEntry)
remove_first name [] = none
remove_first name (e ∷ es) =
    let rest = remove_first name es in
    if e.name =s= name then some es else elim rest [ none ↦ none | some r ↦ some (e ∷ r) ]

-- RemoveEntry
unfoldable pub remove_entry : Stamp → Text → Node → Result Node
unfolding read_dir write_dir remove_first
remove_entry st name n = do
  err_if_not_dir n
  es ← read_dir n
  rest ← elim (remove_first name es) [ none ↦ err Kind.not_found | some r ↦ ok r ]
  write_dir st rest n

-- `_, drop := toRemove[name]`
unfoldable pub listed : Text → List Text → Bool
listed name [] = false
listed name (m ∷ ms) = if m =s= name then true else listed name ms

-- The entries that the loop of RemoveEntries keeps.
unfoldable pub keep_unlisted : List Text → List DirEntry → List DirEntry
unfolding listed
keep_unlisted names [] = []
keep_unlisted names (e ∷ es) =
    let rest = keep_unlisted names es in if listed e.name names then rest else e ∷ rest

-- RemoveEntries
unfoldable pub remove_entries : Stamp → List Text → Node → Result Node
unfolding read_dir write_dir keep_unlisted
remove_entries st [] n = do err_if_not_dir n; ok n
remove_entries st (m ∷ names) n = do
  err_if_not_dir n
  es ← read_dir n
  if length (keep_unlisted (m ∷ names) es) == length es
      then ok n
      else write_dir st (keep_unlisted (m ∷ names) es) n

-- Lookup
unfoldable pub lookup : Text → Node → Result (Option DirEntry)
unfolding read_dir find_entry
lookup name n = do err_if_not_dir n; es ← read_dir n; ok (find_entry name es)
