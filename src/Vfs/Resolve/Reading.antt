-- ===== src/Vfs/Resolve/Reading.antt =====
-- internal/vfs/path.go: resolving a path only reads.
use mdrive.Prelude.{arith, ◌=s=◌, ℕ, zero, suc, Bool, Option, none, some, List, [], ◌∷◌, ◌++◌, Text}
use mdrive.Node.Content.{DirEntry}
use mdrive.Node.Inode.{Node}
use mdrive.World.Tables.{Drive}
use mdrive.World.Action.{Action}
use mdrive.World.Reads.{Reads, Reads-bind, Reads-if, Reads-pure, reads_rules}
use mdrive.Repo.{get}
use mdrive.NodeOp.Create.{get_by_id}
use mdrive.Drives.Rows.{drive_or_gone, get_drive}
use mdrive.Vfs.Path.{clean_path, slash}
use mdrive.Vfs.Resolve.{
  Cache, load_if_missing, load_by_id, or_gone, entry_or_gone, End, Turn, WalkResult, follow_link,
  pop, descend, take_part, go_on, walk, end_with, load_root, walk_from_root, resolve_inner,
  resolve_path,
}
use mdrive.Vfs.Service.{
  last_or_invalid, resolve_parent, resolve_editable_parent, root_or_gone, get_root_node_id,
}

Reads-get : (id : ℕ) → Reads (get id)
unfolding get
Reads-get id = record { at = λ e w. ground arith }

ruleset get_rules = (reads_rules, Reads-get)

pub Reads-get_by_id : (id : ℕ) → Reads (get_by_id id)
unfolding get_by_id
Reads-get_by_id id = search get_rules

Reads-load_if_missing :
    (id : ℕ) (cache : Cache) (o : Option Node) → Reads (load_if_missing id cache o)
Reads-load_if_missing id cache none = search (get_rules, Reads-get_by_id) depth 14
Reads-load_if_missing id cache (some n) = search get_rules

pub Reads-load_by_id : (id : ℕ) (cache : Cache) → Reads (load_by_id id cache)
unfolding load_by_id
Reads-load_by_id id cache = Reads-load_if_missing id cache (cache id)

Reads-or_gone : {A : Type 0} (m : Action A) → Reads m → Reads (or_gone m)
unfolding or_gone
Reads-or_gone m p = record { at = λ e w. p.at e w }

Reads-entry_or_gone : (o : Option DirEntry) → Reads (entry_or_gone o)
Reads-entry_or_gone none = search get_rules
Reads-entry_or_gone (some e) = search get_rules

ruleset load_rules = (get_rules, Reads-load_by_id, Reads-or_gone, Reads-entry_or_gone)

Reads-follow_link :
    (visited : List ℕ) (before rest : List Text) (link : Node) (cache : Cache)
    → Reads (follow_link visited before rest link cache)
unfolding follow_link
Reads-follow_link visited before rest link cache = search get_rules depth 14

Reads-pop : (above : List Node) (cache : Cache) → Reads (pop above cache)
Reads-pop [] cache = search get_rules
Reads-pop (n ∷ above) cache = search get_rules

Reads-descend :
    (follow : Bool) (visited : List ℕ) (before : List Text) (part : Text) (rest : List Text)
    (above : List Node) (cur : Node) (cache : Cache)
    → Reads (descend follow visited before part rest above cur cache)
unfolding descend
Reads-descend follow visited before part rest above cur cache =
    search (load_rules, Reads-follow_link) depth 18

Reads-take_part :
    (follow : Bool) (visited : List ℕ) (before : List Text) (part : Text) (rest : List Text)
    (above : List Node) (cur : Node) (cache : Cache)
    → Reads (take_part follow visited before part rest above cur cache)
unfolding take_part
Reads-take_part follow visited before part rest above cur cache =
    search (get_rules, Reads-descend, Reads-pop) depth 14

Reads-go_on :
    (more : List Node → Node → Cache → Action (End × Cache)) (t : Turn)
    → ((above : List Node) (cur : Node) (c : Cache) → Reads (more above cur c))
    → Reads (go_on more t)
Reads-go_on more (Turn.finish end c) p = Reads-pure (end, c)
Reads-go_on more (Turn.proceed above cur c) p = p above cur c

Reads-walk :
    (follow : Bool) (visited : List ℕ) (before parts : List Text) (above : List Node) (cur : Node)
    (cache : Cache)
    → Reads (walk follow visited before parts above cur cache)
unfolding walk
Reads-walk follow visited before [] above cur cache = search get_rules
Reads-walk follow visited before (part ∷ rest) above cur cache =
    Reads-bind (take_part follow visited before part rest above cur cache) _
      (Reads-take_part follow visited before part rest above cur cache)
      λ turn.
        Reads-go_on (λ a n c. walk follow visited (before ++ part ∷ []) rest a n c) turn
          λ a n c. Reads-walk follow visited (before ++ part ∷ []) rest a n c

Reads-end_with :
    (again : Text → List ℕ → Cache → Action (WalkResult × Cache)) (end : End) (c : Cache)
    → ((p : Text) (visited : List ℕ) → Reads (again p visited c))
    → Reads (end_with again (end, c))
Reads-end_with again (End.arrive r) c p = Reads-pure (r, c)
Reads-end_with again (End.restart q visited) c p = p q visited

Reads-resolve_inner :
    (fuel root_id : ℕ) (p : Text) (follow : Bool) (visited : List ℕ) (cache : Cache)
    → Reads (resolve_inner fuel root_id p follow visited cache)
unfolding resolve_inner
Reads-resolve_inner zero root_id p follow visited cache = search get_rules
Reads-resolve_inner (suc fuel) root_id p follow visited cache =
    Reads-if (clean_path p =s= slash) (load_root root_id cache) _ (search load_rules depth 14) (
      Reads-bind (walk_from_root root_id follow visited (clean_path p) cache) _
        (search (load_rules, Reads-walk) depth 14)
        λ x.
          Reads-end_with (λ q v c. resolve_inner fuel root_id q follow v c) x.0 x.1
            λ q v. Reads-resolve_inner fuel root_id q follow v x.1)

pub Reads-resolve_path :
    (root_id : ℕ) (p : Text) (follow : Bool) (cache : Cache)
    → Reads (resolve_path root_id p follow cache)
unfolding resolve_path
Reads-resolve_path root_id p follow cache = Reads-resolve_inner 41 root_id p follow [] cache

Reads-last_or_invalid : (o : Option (Text × Text)) → Reads (last_or_invalid o)
Reads-last_or_invalid none = search get_rules
Reads-last_or_invalid (some p) = search get_rules

pub Reads-resolve_parent :
    (root_id : ℕ) (p : Text) (cache : Cache) → Reads (resolve_parent root_id p cache)
unfolding resolve_parent
Reads-resolve_parent root_id p cache =
    search (get_rules, Reads-resolve_path, Reads-last_or_invalid) depth 18

Reads-drive_or_gone : (o : Option Drive) → Reads (drive_or_gone o)
Reads-drive_or_gone none = search get_rules
Reads-drive_or_gone (some d) = search get_rules

Reads-root_or_gone : (o : Option ℕ) → Reads (root_or_gone o)
Reads-root_or_gone none = search get_rules
Reads-root_or_gone (some id) = search get_rules

Reads-get_drive : (id : Text) → Reads (get_drive id)
unfolding get_drive
Reads-get_drive id = search (get_rules, Reads-drive_or_gone) depth 12

pub Reads-get_root_node_id : (id : Text) → Reads (get_root_node_id id)
unfolding get_root_node_id
Reads-get_root_node_id id = search (get_rules, Reads-get_drive, Reads-root_or_gone) depth 14

pub Reads-resolve_editable_parent :
    (drive_id path : Text) → Reads (resolve_editable_parent drive_id path)
unfolding resolve_editable_parent
Reads-resolve_editable_parent drive_id path =
    search (get_rules, Reads-get_root_node_id, Reads-resolve_parent) depth 18
