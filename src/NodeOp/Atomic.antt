-- ===== src/NodeOp/Atomic.antt =====
-- internal/core/node/operation.go: the writes of an operation are committed together or not at all.
use mdrive.Prelude.{ℕ, ◌≡◌, refl, subst, Option, none, some, List, [], ◌∷◌, Text, arith}
use mdrive.Errorx.{Kind}
use mdrive.Node.Content.{DirEntry}
use mdrive.Node.Inode.{Node, is_dir}
use mdrive.Node.Dir.{lookup}
use mdrive.World.Tables.{Db}
use mdrive.World.Action.{World, Env, raise, raise_if, lift}
use mdrive.World.Reads.{Reads, Reads-lift, Reads-raise_if, Atomic-after}
use mdrive.World.Keeps.{
  Isolated, Isolated-bind, Isolated-pure, isolated_rules, is_open, Atomic, with_tx-Atomic,
}
use mdrive.Repo.{get}
use mdrive.Repo.Locking.{Isolated-get, Isolated-save, Isolated-delete}
use mdrive.NodeOp.Link.{Memory, link_body, link, bulk_link_children, bulk_link_body, bulk_link}
use mdrive.NodeOp.Unlink.{
  or_not_found as or_not_found_child, drop_child, save_then_drop, unlink_body, unlink, get_if_found,
  drop_found, drop_planned, bulk_unlink_body, bulk_unlink, replace_found, unlink_or_replace,
}
use mdrive.NodeOp.Move.{
  or_not_found, drop_overwritten, lose_link, write_one, write_both, move_over, write_parents,
  move_found, move_body, move_entry,
}

pub ruleset repo_rules = (isolated_rules, Isolated-get, Isolated-save, Isolated-delete)

pub Isolated-link_body :
    (parent child : Node) (name : Text) → Isolated (link_body parent name child)
unfolding link_body
Isolated-link_body parent child name = search repo_rules depth 14

Isolated-bulk_link_children :
    (now : ℕ) (entries : List (Text × Option ℕ)) (mem : Memory)
    → Isolated (bulk_link_children now entries mem)
unfolding bulk_link_children
Isolated-bulk_link_children now [] mem = search repo_rules
Isolated-bulk_link_children now ((name, none) ∷ more) mem = Isolated-bulk_link_children now more mem
Isolated-bulk_link_children now ((name, some p) ∷ more) mem =
    search (repo_rules, Isolated-bulk_link_children now more) depth 14

Isolated-bulk_link_body :
    (parent : Node) (entries again : List (Text × Option ℕ)) (mem : Memory)
    → Isolated (bulk_link_body parent entries again mem)
unfolding bulk_link_body
Isolated-bulk_link_body parent entries again mem =
    search (repo_rules, Isolated-bulk_link_children) depth 14

Isolated-drop_child : (id : ℕ) → Isolated (drop_child id)
unfolding drop_child
Isolated-drop_child id = search repo_rules depth 14

Isolated-or_not_found_child : (o : Option DirEntry) → Isolated (or_not_found_child o)
Isolated-or_not_found_child none = search repo_rules
Isolated-or_not_found_child (some e) = search repo_rules

pub Isolated-unlink_body : (parent : Node) (name : Text) → Isolated (unlink_body parent name)
unfolding unlink_body save_then_drop
Isolated-unlink_body parent name =
    search (repo_rules, Isolated-drop_child, Isolated-or_not_found_child) depth 16

Isolated-get_if_found : (id : ℕ) → Isolated (get_if_found id)
unfolding get_if_found get
Isolated-get_if_found id = record { at = λ e w o. ground arith }

Isolated-drop_found : (now id : ℕ) (o : Option Node) → Isolated (drop_found now id o)
Isolated-drop_found now id none = search repo_rules
Isolated-drop_found now id (some c) = search repo_rules depth 14

Isolated-drop_planned : (now : ℕ) (ids : List ℕ) → Isolated (drop_planned now ids)
unfolding drop_planned
Isolated-drop_planned now [] = search repo_rules
Isolated-drop_planned now (id ∷ ids) =
    Isolated-bind (get_if_found id) _ (Isolated-get_if_found id) (λ child.
      Isolated-bind (drop_found now id child) _ (Isolated-drop_found now id child) (λ deleted.
        Isolated-bind (drop_planned now ids) _ (Isolated-drop_planned now ids)
          (λ more. Isolated-pure _)))

Isolated-bulk_unlink_body :
    (parent : Node) (names : List Text) → Isolated (bulk_unlink_body parent names)
unfolding bulk_unlink_body
Isolated-bulk_unlink_body parent names = search (repo_rules, Isolated-drop_planned) depth 14

Isolated-drop_overwritten : (o : Option DirEntry) → Isolated (drop_overwritten o)
unfolding drop_overwritten lose_link
Isolated-drop_overwritten none = search repo_rules
Isolated-drop_overwritten (some e) = search repo_rules depth 14

Isolated-write_parents :
    (src dst : Text) (moved : DirEntry) (es fs : List DirEntry) (p q : Node)
    → Isolated (write_parents src dst moved es fs p q)
unfolding write_parents write_one write_both
Isolated-write_parents src dst moved es fs p q = search repo_rules depth 16

Isolated-move_over :
    (src dst : Text) (e : DirEntry) (es fs : List DirEntry) (o : Option DirEntry) (p q : Node)
    → Isolated (move_over src dst e es fs o p q)
unfolding move_over
Isolated-move_over src dst e es fs o p q =
    search (repo_rules, Isolated-write_parents, Isolated-drop_overwritten) depth 16

Isolated-move_found :
    (src dst : Text) (e : DirEntry) (es : List DirEntry) (p q : Node)
    → Isolated (move_found src dst e es p q)
unfolding move_found
Isolated-move_found src dst e es p q = search (repo_rules, Isolated-move_over) depth 16

Isolated-or_not_found : (o : Option DirEntry) → Isolated (or_not_found o)
Isolated-or_not_found none = search repo_rules
Isolated-or_not_found (some e) = search repo_rules

pub Isolated-move_body : (p q : Node) (src dst : Text) → Isolated (move_body p src q dst)
unfolding move_body
Isolated-move_body p q src dst =
    search (repo_rules, Isolated-move_found, Isolated-or_not_found) depth 14

raise-Atomic :
    {A : Type 0} (k : Kind) (e : Env) (w : World)
    → w.tx ≡ none
    → Atomic w.committed (raise {A = A} k e w)
raise-Atomic k e w closed = (closed, λ _ _. refl)

pub link-Atomic :
    (parent child : Option Node) (name : Text) (e : Env) (w : World)
    → w.tx ≡ none
    → Atomic w.committed (link parent name child e w)
unfolding link
link-Atomic none child name e w closed = raise-Atomic Kind.invalid_argument e w closed
link-Atomic (some p) none name e w closed = raise-Atomic Kind.invalid_argument e w closed
link-Atomic (some p) (some c) name e w closed =
    with_tx-Atomic (link_body p name c) e w (Isolated-link_body p c name) closed

pub bulk_link-Atomic :
    (parent : Option Node) (entries again : List (Text × Option ℕ)) (mem : Memory) (e : Env)
    (w : World)
    → w.tx ≡ none
    → Atomic w.committed (bulk_link parent entries again mem e w)
unfolding bulk_link
bulk_link-Atomic none entries again mem e w closed = raise-Atomic Kind.invalid_argument e w closed
bulk_link-Atomic (some p) [] again mem e w closed = (closed, λ _ _. refl)
bulk_link-Atomic (some p) (x ∷ entries) again mem e w closed =
    with_tx-Atomic (bulk_link_body p (x ∷ entries) again mem) e w
      (Isolated-bulk_link_body p (x ∷ entries) again mem) closed

pub unlink-Atomic :
    (parent : Option Node) (name : Text) (e : Env) (w : World)
    → w.tx ≡ none
    → Atomic w.committed (unlink parent name e w)
unfolding unlink
unlink-Atomic none name e w closed = raise-Atomic Kind.invalid_argument e w closed
unlink-Atomic (some p) name e w closed =
    with_tx-Atomic (unlink_body p name) e w (Isolated-unlink_body p name) closed

pub bulk_unlink-Atomic :
    (parent : Option Node) (names : List Text) (e : Env) (w : World)
    → w.tx ≡ none
    → Atomic w.committed (bulk_unlink parent names e w)
unfolding bulk_unlink
bulk_unlink-Atomic none names e w closed = raise-Atomic Kind.invalid_argument e w closed
bulk_unlink-Atomic (some p) [] e w closed = (closed, λ _ _. refl)
bulk_unlink-Atomic (some p) (n ∷ names) e w closed =
    with_tx-Atomic (bulk_unlink_body p (n ∷ names)) e w (Isolated-bulk_unlink_body p (n ∷ names))
      closed

pub move_entry-Atomic :
    (p q : Option Node) (src dst : Text) (e : Env) (w : World)
    → w.tx ≡ none
    → Atomic w.committed (move_entry p src q dst e w)
unfolding move_entry
move_entry-Atomic none q src dst e w closed = raise-Atomic Kind.invalid_argument e w closed
move_entry-Atomic (some p) none src dst e w closed = raise-Atomic Kind.invalid_argument e w closed
move_entry-Atomic (some p) (some q) src dst e w closed =
    with_tx-Atomic (move_body p src q dst) e w (Isolated-move_body p q src dst) closed

Reads-get : (id : ℕ) → Reads (get id)
unfolding get
Reads-get id = record { at = λ e w. ground arith }

replace_found-Atomic :
    (p : Node) (name : Text) (found : Option DirEntry) (c : Db) (e : Env) (w : World)
    → w.committed ≡ c
    → w.tx ≡ none
    → Atomic c (replace_found p name found e w)
replace_found-Atomic p name none c e w same closed = (closed, λ _ _. same)
replace_found-Atomic p name (some x) c e w same closed =
    Atomic-after (get x.inode_id) _ c e w (Reads-get x.inode_id) same closed λ child v kept shut.
      Atomic-after (raise_if (is_dir child) Kind.failed_precondition) (λ _. unlink (some p) name) c
        e v (Reads-raise_if (is_dir child) Kind.failed_precondition) kept shut
        λ _ u kept' shut'.
          subst (λ (d : Db). Atomic d (unlink (some p) name e u)) kept'
            (unlink-Atomic (some p) name e u shut')

unlink_or_replace-Atomic :
    (p : Option Node) (name : Text) (e : Env) (w : World)
    → w.tx ≡ none
    → Atomic w.committed (unlink_or_replace p name e w)
unfolding unlink_or_replace
unlink_or_replace-Atomic none name e w closed = raise-Atomic Kind.invalid_argument e w closed
unlink_or_replace-Atomic (some p) name e w closed =
    Atomic-after (lift (lookup name p)) (replace_found p name) w.committed e w
      (Reads-lift (lookup name p)) refl closed
      λ found v same shut. replace_found-Atomic p name found w.committed e v same shut

-- Each operation that writes several rows is atomic: called outside of a transaction it leaves none
-- open, and if it returns an error, whichever call of the database failed, the committed tables are
-- those of before.
pub operations-Atomic :
    (e : Env) (w : World)
    → w.tx ≡ none
    → ((p c : Option Node) (name : Text) → Atomic w.committed (link p name c e w))
      × ((p : Option Node) (entries again : List (Text × Option ℕ)) (mem : Memory)
          → Atomic w.committed (bulk_link p entries again mem e w))
      × ((p : Option Node) (name : Text) → Atomic w.committed (unlink p name e w))
      × ((p : Option Node) (name : Text) → Atomic w.committed (unlink_or_replace p name e w))
      × ((p : Option Node) (names : List Text) → Atomic w.committed (bulk_unlink p names e w))
      × ((p q : Option Node) (src dst : Text) → Atomic w.committed (move_entry p src q dst e w))
operations-Atomic e w closed = (
  λ p c name. link-Atomic p c name e w closed,
  λ p entries again mem. bulk_link-Atomic p entries again mem e w closed,
  λ p name. unlink-Atomic p name e w closed,
  λ p name. unlink_or_replace-Atomic p name e w closed,
  λ p names. bulk_unlink-Atomic p names e w closed,
  λ p q src dst. move_entry-Atomic p q src dst e w closed,
)
