-- ===== src/NodeOp/Unlink/Plan.antt =====
-- internal/core/node/operation.go: which inodes BulkUnlink looks at.
use mdrive.Prelude.{
  ℕ, ◌≡◌, inl, inr, refl, Bool, false, ◌||◌, Option, none, some, List, [], ◌∷◌, ◌++◌, Text, arith,
  ◌==◌, ==_iff, Bool-cases,
}
use mdrive.Node.Content.{DirEntry}
use mdrive.NodeOp.Unlink.{find_last, seen, plan_one, plan}

-- No inode stands twice.
abbrev pub Once : List ℕ → Type 0
Once [] = Unit
Once (i ∷ is) = (seen i is ≡ false) × Once is

abbrev pub leads_to : ℕ → Option DirEntry → Bool
leads_to id none = false
leads_to id (some e) = e.inode_id == id

-- One of the names leads to the inode.
abbrev pub some_name : ℕ → List DirEntry → List Text → Bool
some_name id es [] = false
some_name id es (name ∷ names) = leads_to id (find_last name es) || some_name id es names

seen-append : (id i : ℕ) (is : List ℕ) → seen id (is ++ i ∷ []) ≡ (seen id is || (i == id))
unfolding seen
seen-append id i [] = ground arith
seen-append id i (j ∷ is) = ground (arith, seen-append id i is)

Once-append : (i : ℕ) (is : List ℕ) → seen i is ≡ false → Once is → Once (is ++ i ∷ [])
unfolding seen
Once-append i [] h o = (refl, tt)
Once-append i (j ∷ is) h o = (
  ground (arith, h, o.0, seen-append j i is, ==_iff i j, ==_iff j i),
  Once-append i is (ground (arith, h)) o.1,
)

plan_one-Once : (planned : List ℕ) (o : Option DirEntry) → Once planned → Once (plan_one planned o)
plan_one-Once planned none h = h
plan_one-Once planned (some e) h = elim (Bool-cases (seen e.inode_id planned)) [
  | inl old ↦ rw old h
  | inr new ↦ rw new (Once-append e.inode_id planned new h)
]

seen-plan_one :
    (id : ℕ) (planned : List ℕ) (o : Option DirEntry)
    → seen id (plan_one planned o) ≡ (seen id planned || leads_to id o)
seen-plan_one id planned none = ground arith
seen-plan_one id planned (some e) =
    ground (arith, seen-append id e.inode_id planned, ==_iff e.inode_id id)

plan_onto :
    (es : List DirEntry) (names : List Text) (planned : List ℕ)
    → Once planned
    → Once (plan es names planned)
      × ((id : ℕ) → seen id (plan es names planned) ≡ (seen id planned || some_name id es names))
unfolding plan
plan_onto es [] planned h = (h, λ id. ground arith)
plan_onto es (name ∷ names) planned h =
    let o = find_last name es in
    let (once, same) = plan_onto es names (plan_one planned o) (plan_one-Once planned o h) in
    (once, λ id. ground (arith, same id, seen-plan_one id planned o))

-- The plan of BulkUnlink holds exactly the inodes to which one of the names leads, and each once,
-- also where several of the names lead to it.
pub plan_lem :
    (es : List DirEntry) (names : List Text)
    → Once (plan es names []) × ((id : ℕ) → seen id (plan es names []) ≡ some_name id es names)
unfolding seen
plan_lem es names = plan_onto es names [] tt
