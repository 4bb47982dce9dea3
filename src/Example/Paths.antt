-- ===== src/Example/Paths.antt =====
-- Paths, resolution and Rm on a drive with one object, whose inode 6 has two links.
use mdrive.Prelude.{
  sym, ap, Bool-cases, inl, inr, ◌≢◌, ◌++◌, ℕ, ◌≡◌, refl, true, false, none, some, Option, List, [],
  ◌∷◌, Text, codes, ◌=s=◌, ◌==◌, if◌then◌else◌, arith,
}
use mdrive.Result.{Result, ok}
use mdrive.Node.Kinds.{NodeKind}
use mdrive.Node.Content.{DirEntry, ObjectContent, dir_json, object_json, content_len}
use mdrive.Node.Inode.{Node, is_dir}
use mdrive.Node.Dir.{remove_entry}
use mdrive.World.Tables.{Row, Drive, Provider, GarbageRef}
use mdrive.World.Action.{World, view, draw_stamp}
use mdrive.World.Tx.{with_tx}
use mdrive.World.Keeps.{Atomic}
use mdrive.Repo.{to_row, save, get, from_ent}
use mdrive.NodeOp.Create.{get_by_id}
use mdrive.Vfs.Path.{is_space, trim, clean_path, split_path}
use mdrive.Vfs.Path.Clean.{AllPlain, kept}
use mdrive.Vfs.Path.Split.{split_path-clean_path, clean_path-clean_path}
use mdrive.Vfs.Resolve.{Cache, no_cache, resolve_inner}
use mdrive.Vfs.Resolve.Fuel.{resolve_inner_fuel}
use mdrive.Vfs.Service.{resolve_parent}
use mdrive.World.Keeps.{begun}
use mdrive.Vfs.Remove.{rm, rm_recursive, rm_all}
use mdrive.Node.Dir.Listing.{IsDirectory}
use mdrive.Node.Dir.{find_entry, entry_of, add_entry, read_dir}
use mdrive.Repo.Locking.{HasRow}
use mdrive.Vfs.Service.{resolve_editable_parent}
use mdrive.Vfs.Make.{mkdir}
use mdrive.Vfs.Make.Outcome.{mkdir_lem}
use mdrive.Vfs.Remove.Depth.{Below, rm_recursive_fuel}
use mdrive.Vfs.Remove.Garbage.{rm-garbage}
use mdrive.Vfs.Remove.Atomic.{rm_all-Atomic}
use mdrive.Example.Fixture.{value, quiet, inode}

abbrev bytes : ObjectContent
bytes = record { bucket = codes "b"; key = codes "k"; mime = []; checksum = [] }

abbrev pub object : Node
object = inode 6 NodeKind.object 2 (object_json bytes)

abbrev pub named_o : DirEntry
named_o = record { inode_id = 6; name = codes "o"; kind = NodeKind.object }

abbrev pub root : Node
root = inode 1 NodeKind.directory 1 (dir_json (named_o ∷ []))

abbrev pub drive : Drive
drive = record {
  id = codes "d";
  public_id = codes "p";
  name = codes "n";
  description = none;
  provider = Provider.s3;
  owner_id = codes "u";
  root_node_id = some 1;
  deleted_at = none;
  created_at = 7;
  updated_at = 7;
}

unfoldable pub rows : ℕ → Option Row
unfolding to_row
rows i = if i == 1 then some (to_row root) else if i == 6 then some (to_row object) else none

abbrev pub world : World
world = record {
  committed = record {
    nodes = rows;
    drives = drive ∷ [];
    storages = [];
    users = [];
    tombstones = [];
    next_tombstone = 1;
  };
  tx = none;
  tick = 0;
}

pub root-IsDirectory : IsDirectory root (named_o ∷ [])
unfolding find_entry content_len
root-IsDirectory = record {
  is_directory = refl;
  holds = refl;
  distinct = (refl, tt);
  fits = omega arith;
}

split_path-clean_path_example :
    let p = codes " /a//./b/../c" in
    (split_path (clean_path p) ≡ kept (trim is_space p)) × AllPlain (split_path (clean_path p))
split_path-clean_path_example = split_path-clean_path (codes " /a//./b/../c")

clean_path-clean_path_example : clean_path (clean_path (codes "a/b/")) ≡ clean_path (codes "a/b/")
unfolding clean_path ◌=s=◌
clean_path-clean_path_example = clean_path-clean_path (codes "a/b/") refl

resolve_inner_fuel_example :
    resolve_inner 41 1 (codes "/o") true [] no_cache quiet world
    ≡ resolve_inner 90 1 (codes "/o") true [] no_cache quiet world
resolve_inner_fuel_example =
    resolve_inner_fuel 41 90 1 (codes "/o") true [] no_cache quiet world (omega arith) (omega arith)
      (omega arith)

rm_all-Atomic_example :
    Atomic world.committed (rm_all 3 (codes "d") (codes "/o" ∷ []) false quiet world)
rm_all-Atomic_example = rm_all-Atomic 3 (codes "d") (codes "/o" ∷ []) false quiet world refl

-- The name of the object is removed; its inode keeps a link, and still its bytes are garbage.
unfoldable removed : Result (List GarbageRef) × World
unfolding rm rows from_ent to_row
removed = rm 1 (from_ent 6 (to_row object)) (codes "/o") quiet (begun world)

unfoldable its_parent : Result (Node × Text × Cache) × World
unfolding resolve_parent rows
its_parent = resolve_parent 1 (codes "/o") no_cache quiet (begun world)

rm-garbage_example :
    (r' : Row) × ((view removed.1).nodes 6 ≡ some r')
    × (r'.nlink ≡ 1)
    × (r'.content ≡ some (object_json bytes))
    × (value [] removed.0 ≡ record { bucket = codes "b"; key = codes "k" } ∷ [])
unfolding removed its_parent rows to_row find_entry get_by_id get with_tx from_ent draw_stamp
    remove_entry add_entry content_len save
rm-garbage_example =
    rm-garbage 1 (codes "/o") (codes "o") root (value (root, [], no_cache) its_parent.0).2
      (named_o ∷ []) named_o (to_row object) bytes (value [] removed.0) quiet (begun world)
      its_parent.1 removed.1 refl refl root-IsDirectory refl (λ e. omega arith) refl (omega arith)
      refl refl refl refl

-- The directory `e` is made in the root; its id is drawn at the fourth call.
unfoldable parent_run : Result (Node × Text) × World
unfolding resolve_editable_parent rows
parent_run = resolve_editable_parent (codes "d") (codes "/e") quiet world

unfoldable made : Result Node × World
unfolding mkdir rows
made = mkdir (codes "d") (codes "/e") quiet world

mkdir_lem_example :
    let c = value root made.0 in
    let es = named_o ∷ [] in
    (find_entry (codes "e") es ≡ none)
    × (c.id ≡ quiet.uuid parent_run.1.tick)
    × IsDirectory c []
    × (c.nlink ≡ 1)
    × ((p' : Node) × IsDirectory p' (es ++ entry_of (codes "e") c ∷ [])
        × (p'.id ≡ 1)
        × HasRow made.1.committed.nodes p')
    × HasRow made.1.committed.nodes c
    × ((i : ℕ) → i ≢ 1 → i ≢ c.id → made.1.committed.nodes i ≡ rows i)
unfolding made parent_run get_by_id get with_tx from_ent draw_stamp remove_entry add_entry
    content_len save
mkdir_lem_example =
    mkdir_lem (codes "d") (codes "/e") (codes "e") root (value root made.0) (named_o ∷ []) quiet
      world parent_run.1 made.1 refl refl root-IsDirectory (λ e. omega arith) refl

-- The root is the only directory.
abbrev height : ℕ → ℕ
height i = if i == 1 then 1 else 0

listing-Below : (es : List DirEntry) → es ≡ named_o ∷ [] → Below rows height 1 es
unfolding rows is_dir from_ent
listing-Below es is = coe 1 0 (i. Below rows height 1 (is i)) (tt, tt)

nothing-Below : (h : ℕ) (es : List DirEntry) → es ≡ [] → Below rows height h es
nothing-Below h es is = coe 1 0 (i. Below rows height h (is i)) tt

rows-tree :
    (i : ℕ) (r : Row) (es : List DirEntry)
    → rows i ≡ some r
    → read_dir (from_ent i r) ≡ ok es
    → Below rows height (height i) es
unfolding rows read_dir from_ent
rows-tree i r es found read = elim (Bool-cases (i == 1)) [
  | inl at_root ↦
      let r_is : to_row root ≡ r = ground (arith, found, at_root) in
      rw at_root
        (listing-Below es (sym (ground (arith, ap (λ q. read_dir (from_ent i q)) r_is, read))))
  | inr away ↦ elim (Bool-cases (i == 6)) [
    | inl at_object ↦
        let r_is : to_row object ≡ r = ground (arith, found, away, at_object) in
        nothing-Below (height i) es
          (sym (ground (arith, ap (λ q. read_dir (from_ent i q)) r_is, read)))
    | inr nowhere ↦ absurd (ground (arith, found, away, nowhere))
  ]
]

rm_recursive_fuel_example :
    let inside : World = record world { tx = some world.committed } in
    rm_recursive 2 1 root (codes "/") quiet inside ≡ rm_recursive 9 1 root (codes "/") quiet inside
unfolding rows from_ent
rm_recursive_fuel_example =
    rm_recursive_fuel height rows 2 9 1 root (codes "/") quiet
      (record world { tx = some world.committed }) rows-tree refl refl (to_row root, refl, refl)
      (omega arith) (omega arith)
