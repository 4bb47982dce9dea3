-- ===== src/Example/Fixture.antt =====
-- Two directories, 1 with the files 3 and 4 under the names a and b, and 2 with the file 5 under the
-- name c, in a database whose calls all succeed.
use mdrive.Prelude.{
  ℕ, ◌+◌, refl, false, none, some, Option, List, [], ◌∷◌, Text, codes, ◌=s=◌, ◌==◌, if◌then◌else◌,
  pos, arith,
}
use mdrive.Result.{Result, ok, err}
use mdrive.Node.Kinds.{NodeKind}
use mdrive.Node.Content.{
  DirEntry, Content, file_json, dir_json, dir_len, content_len, rest_len, entry_len,
  json_string_len,
}
use mdrive.Node.Inode.{Node}
use mdrive.Node.Dir.{find_entry}
use mdrive.Node.Dir.Listing.{IsDirectory}
use mdrive.World.Tables.{Row}
use mdrive.World.Action.{World, Env}
use mdrive.Repo.{to_row}

abbrev pub quiet : Env
quiet = record { now = λ t. 100 + t; ulid = λ t. t ∷ []; uuid = λ t. 1000 + t; fault = λ t. false }

abbrev pub first : Text
first = codes "first"

abbrev pub inode : ℕ → NodeKind → ℕ → Content → Node
inode id k links c = record {
  id = id;
  kind = k;
  size = pos 0;
  nlink = links;
  content = some c;
  atime = 7;
  mtime = 7;
  ctime = 7;
  crtime = 7;
  flags = 0;
  rev = first;
  stale_rev = first;
}

abbrev pub entry : ℕ → Text → DirEntry
entry id name = record { inode_id = id; name = name; kind = NodeKind.file }

abbrev pub here : List DirEntry
here = entry 3 (codes "a") ∷ entry 4 (codes "b") ∷ []

abbrev pub there : List DirEntry
there = entry 5 (codes "c") ∷ []

abbrev pub left : Node
left = inode 1 NodeKind.directory 1 (dir_json here)

abbrev pub right : Node
right = inode 2 NodeKind.directory 1 (dir_json there)

abbrev pub leaf : ℕ → ℕ → Node
leaf id links = inode id NodeKind.file links (file_json (codes "x"))

unfoldable pub table : ℕ → Option Row
unfolding to_row
table i =
    if i == 1
    then some (to_row left)
    else if i == 2
    then some (to_row right)
    else if i == 3
    then some (to_row (leaf 3 1))
    else if i == 4
    then some (to_row (leaf 4 2))
    else none

abbrev pub world : World
world = record {
  committed = record {
    nodes = table;
    drives = [];
    storages = [];
    users = [];
    tombstones = [];
    next_tombstone = 1;
  };
  tx = none;
  tick = 0;
}

pub left-IsDirectory : IsDirectory left here
unfolding find_entry dir_len content_len rest_len entry_len json_string_len ◌=s=◌
left-IsDirectory = record {
  is_directory = refl;
  holds = refl;
  distinct = (refl, (refl, tt));
  fits = omega arith;
}

pub right-IsDirectory : IsDirectory right there
unfolding find_entry dir_len content_len rest_len entry_len json_string_len
right-IsDirectory = record {
  is_directory = refl;
  holds = refl;
  distinct = (refl, tt);
  fits = omega arith;
}

-- The value of a run that succeeded.
abbrev pub value {ℓ} : {A : Type ℓ} → A → Result A → A
value d (ok a) = a
value d (err k) = d
