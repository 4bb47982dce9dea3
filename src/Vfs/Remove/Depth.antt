-- ===== src/Vfs/Remove/Depth.antt =====
-- internal/vfs/rm.go: rmRecursive ends on a tree of directories.
use mdrive.Prelude.{
  ℕ, zero, suc, ◌≡◌, ◌<◌, refl, sym, ap, ◌∙◌, Bool, true, false, Option, none, some, List, [], ◌∷◌,
  Text, arith, if◌then◌else◌,
}
use mdrive.Result.{ok}
use mdrive.Node.Content.{DirEntry}
use mdrive.Node.Inode.{Node, is_dir}
use mdrive.Node.Dir.{read_dir}
use mdrive.World.Tables.{Db, Row, GarbageRef}
use mdrive.World.Action.{World, Env, Action, lift}
use mdrive.World.Keeps.{is_open, Isolated, Isolated-if}
use mdrive.World.Inversion.{bind-same, bind-cong, lift-ok}
use mdrive.Repo.{from_ent}
use mdrive.Repo.Calls.{get-ok}
use mdrive.NodeOp.Create.{get_by_id}
use mdrive.NodeOp.Unlink.Effect.{committed_kept}
use mdrive.Vfs.Remove.{rm, child_path, rm_entries, rm_recursive}
use mdrive.Vfs.Remove.Atomic.{Isolated-get_by_id, Isolated-rm, Isolated-rm_recursive}

abbrev pub ShorterIf : Bool → ℕ → ℕ → Type 0
ShorterIf true a b = a < b
ShorterIf false a b = Unit

abbrev pub row_is_dir : ℕ → Option Row → Bool
row_is_dir id none = false
row_is_dir id (some r) = is_dir (from_ent id r)

-- Every entry that leads to a directory leads to one of a height below `h`.
abbrev pub Below : (ℕ → Option Row) → (ℕ → ℕ) → ℕ → List DirEntry → Type 0
Below t height h [] = Unit
Below t height h (x ∷ es) =
    ShorterIf (row_is_dir x.inode_id (t x.inode_id)) (height x.inode_id) h × Below t height h es

-- The node is the row that others see.
abbrev pub Loaded : (ℕ → Option Row) → Node → Type 0
Loaded t n = (r : Row) × (t n.id ≡ some r) × (n ≡ from_ent n.id r)

abbrev Remover : Type 0
Remover = Node → Text → Action (List GarbageRef)

branch-same :
    (b : Bool) (f g k : Action (List GarbageRef)) (e : Env) (w : World)
    → (b ≡ true → f e w ≡ g e w)
    → (if b then f else k) e w ≡ (if b then g else k) e w
branch-same true f g k e w same = same refl
branch-same false f g k e w same = refl

get_by_id-Loaded :
    (id : ℕ) (n : Node) (e : Env) (w w' : World)
    → get_by_id id e w ≡ (ok n, w')
    → (n.id ≡ id) × Loaded w.committed.nodes n
unfolding get_by_id from_ent
get_by_id-Loaded id n e w w' h =
    let (_, (r, found, is)) = get-ok id n e w w' h in
    let n_id : n.id ≡ id = ap (λ (m : Node). m.id) is in
    (n_id, (r, ap w.committed.nodes n_id ∙ found, is ∙ ap (λ i. from_ent i r) (sym n_id)))

-- A loaded directory stands in its row.
lower :
    (t : ℕ → Option Row) (height : ℕ → ℕ) (h id : ℕ) (n : Node)
    → n.id ≡ id
    → Loaded t n
    → is_dir n ≡ true
    → ShorterIf (row_is_dir id (t id)) (height id) h
    → height n.id < h
lower t height h id n n_id (r, found, is) dir below =
    let row : row_is_dir n.id (t n.id) ≡ true =
      ap (row_is_dir n.id) found ∙ (ap is_dir (sym is) ∙ dir) in
    let there : ShorterIf (row_is_dir n.id (t n.id)) (height n.id) h =
      coe 1 0 (i. ShorterIf (row_is_dir (n_id i) (t (n_id i))) (height (n_id i)) h) below in
    coe 0 1 (i. ShorterIf (row i) (height n.id) h) there

-- Two ways to go deeper that agree on the directories below `h` give the same loop.
rm_entries-same :
    (f g : Remover) (height : ℕ → ℕ) (h root_id : ℕ) (path : Text) (es : List DirEntry)
    (t : ℕ → Option Row) (e : Env) (w : World)
    → ((n : Node) (p : Text) → Isolated (f n p))
    → ((n : Node) (p : Text) (v : World)
        → is_open v ≡ true
        → v.committed.nodes ≡ t
        → Loaded t n
        → is_dir n ≡ true
        → height n.id < h
        → f n p e v ≡ g n p e v)
    → is_open w ≡ true
    → w.committed.nodes ≡ t
    → Below t height h es
    → rm_entries f root_id path es e w ≡ rm_entries g root_id path es e w
unfolding rm_entries
rm_entries-same f g height h root_id path [] t e w iso same begun tables below = refl
rm_entries-same f g height h root_id path (x ∷ es) t e w iso same begun tables below =
    let p = child_path path x.name in
    bind-same (get_by_id x.inode_id) _ _ e w λ child v h₁.
      let (n_id, loaded) = get_by_id-Loaded x.inode_id child e w v h₁ in
      let (k₁, o₁) =
        committed_kept (get_by_id x.inode_id) e w v (ok child) (Isolated-get_by_id x.inode_id) begun
          h₁ in
      let tables₁ : v.committed.nodes ≡ t = ap (λ (d : Db). d.nodes) k₁ ∙ tables in
      let loaded_t : Loaded t child = coe 0 1 (i. Loaded (tables i) child) loaded in
      bind-cong (if is_dir child then f child p else rm root_id child p)
        (if is_dir child then g child p else rm root_id child p) _ _ e v
        (branch-same (is_dir child) (f child p) (g child p) (rm root_id child p) e v λ dir.
          same child p v o₁ tables₁ loaded_t dir
            (lower t height h x.inode_id child n_id loaded_t dir below.0))
        λ refs u h₂.
          let (k₂, o₂) =
            committed_kept (if is_dir child then f child p else rm root_id child p) e v u (ok refs)
              (Isolated-if (is_dir child) (f child p) (rm root_id child p) (iso child p)
                (Isolated-rm root_id child p))
              o₁ h₂ in
          bind-cong (rm_entries f root_id path es) (rm_entries g root_id path es) _ _ e u
            (rm_entries-same f g height h root_id path es t e u iso same o₂
              (ap (λ (d : Db). d.nodes) k₂ ∙ tables₁) below.1)
            λ more z h₃. refl

-- Inside a transaction, where the rows that others see have heights such that every entry of a directory
-- leads only to directories of lesser height, the result of rmRecursive on a directory that was loaded
-- from them is the same on any two amounts of fuel above its height.
pub rm_recursive_fuel :
    (height : ℕ → ℕ) (t : ℕ → Option Row) (fuel fuel' root_id : ℕ) (n : Node) (path : Text)
    (e : Env) (w : World)
    → ((i : ℕ) (r : Row) (es : List DirEntry)
        → t i ≡ some r
        → read_dir (from_ent i r) ≡ ok es
        → Below t height (height i) es)
    → is_open w ≡ true
    → w.committed.nodes ≡ t
    → Loaded t n
    → height n.id < fuel
    → height n.id < fuel'
    → rm_recursive fuel root_id n path e w ≡ rm_recursive fuel' root_id n path e w
unfolding rm_recursive
rm_recursive_fuel height t zero fuel' root_id n path e w tree begun tables loaded a b =
    absurd (omega arith)
rm_recursive_fuel height t (suc fuel) zero root_id n path e w tree begun tables loaded a b =
    absurd (omega arith)
rm_recursive_fuel height t (suc fuel) (suc fuel') root_id n path e w tree begun tables loaded a b =
    bind-same (lift (read_dir n)) _ _ e w λ es v h.
      let (read, same) = lift-ok (read_dir n) e w v es h in
      let (r, found, is) = loaded in
      let below : Below t height (height n.id) es =
        tree n.id r es found (ap read_dir (sym is) ∙ read) in
      bind-cong (rm_entries (λ c p. rm_recursive fuel root_id c p) root_id path es)
        (rm_entries (λ c p. rm_recursive fuel' root_id c p) root_id path es) _ _ e v
        (rm_entries-same (λ c p. rm_recursive fuel root_id c p)
          (λ c p. rm_recursive fuel' root_id c p) height (height n.id) root_id path es t e v
          (λ c p. Isolated-rm_recursive fuel root_id c p)
          (λ c p u o same_t there dir low.
            rm_recursive_fuel height t fuel fuel' root_id c p e u tree o same_t there
              (omega (arith, low, a)) (omega (arith, low, b)))
          (ap is_open same ∙ begun) (ap (λ (x : World). x.committed.nodes) same ∙ tables) below)
        λ refs u h₂. refl
