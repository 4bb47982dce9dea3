-- ===== src/NodeOp/Move/Listing.antt =====
-- internal/core/node/operation.go: the listings that MoveEntry computes.
use mdrive.Prelude.{
  ◌≡◌, refl, Bool, true, false, ◌&&◌, Option, none, some, List, [], ◌∷◌, ◌++◌, Text, arith, ◌=s=◌,
  =s=_iff, if◌then◌else◌, inl, inr, Option-cases,
}
use mdrive.Node.Content.{DirEntry}
use mdrive.Node.Dir.{find_entry, without}
use mdrive.Node.Dir.Entries.{
  Distinct, find_entry-without, Distinct-without, find_entry-append_new, Distinct-append,
}
use mdrive.NodeOp.Move.{src_loop, new_src_entries, dst_loop, new_dst_entries}

-- Between two directories the source only loses the entry.
src_loop_away :
    (src dst : Text) (moved : DirEntry) (es : List DirEntry)
    → src_loop false src dst moved es ≡ (without src es, false)
unfolding src_loop without
src_loop_away src dst moved [] = refl
src_loop_away src dst moved (x ∷ es) = ground (arith, src_loop_away src dst moved es)

pub new_src_entries_away :
    (src dst : Text) (moved : DirEntry) (es : List DirEntry)
    → new_src_entries false src dst moved es ≡ without src es
unfolding new_src_entries
new_src_entries_away src dst moved es = ground (arith, src_loop_away src dst moved es)

-- The listing with the entry of a name replaced in its place.
replaced : Text → DirEntry → List DirEntry → List DirEntry
replaced dst moved [] = []
replaced dst moved (e ∷ es) =
    let rest = replaced dst moved es in if e.name =s= dst then moved ∷ rest else e ∷ rest

-- Within one directory: the loop replaces in the listing without the source.
src_loop_within :
    (src dst : Text) (moved : DirEntry) (es : List DirEntry)
    → (src_loop true src dst moved es).0 ≡ replaced dst moved (without src es)
unfolding src_loop without replaced
src_loop_within src dst moved [] = refl
src_loop_within src dst moved (x ∷ es) = ground (arith, src_loop_within src dst moved es)

abbrev is_found : Option DirEntry → Bool
is_found none = false
is_found (some e) = true

-- The flag tells whether the target name is in the listing without the source.
src_loop_flag :
    (src dst : Text) (moved : DirEntry) (es : List DirEntry)
    → (src_loop true src dst moved es).1 ≡ is_found (find_entry dst (without src es))
unfolding src_loop without find_entry
src_loop_flag src dst moved [] = refl
src_loop_flag src dst moved (x ∷ es) = ground (arith, src_loop_flag src dst moved es)

find_entry-replaced :
    (m : Text) (moved : DirEntry) (es : List DirEntry)
    → find_entry m (replaced moved.name moved es) ≡ (
        if is_found (find_entry moved.name es) && (moved.name =s= m)
        then some moved
        else find_entry m es)
unfolding find_entry replaced
find_entry-replaced m moved [] = refl
find_entry-replaced m moved (x ∷ es) = ground (
  arith,
  find_entry-replaced m moved es,
  =s=_iff x.name moved.name,
  =s=_iff x.name m,
  =s=_iff moved.name m,
)

Distinct-replaced :
    (moved : DirEntry) (es : List DirEntry) → Distinct es → Distinct (replaced moved.name moved es)
unfolding replaced
Distinct-replaced moved [] d = tt
Distinct-replaced moved (x ∷ es) d = ground (
  arith,
  Distinct-replaced moved es d.1,
  find_entry-replaced x.name moved es,
  find_entry-replaced moved.name moved es,
  =s=_iff x.name moved.name,
  =s=_iff moved.name x.name,
)

replaced_absent :
    (dst : Text) (moved : DirEntry) (es : List DirEntry)
    → find_entry dst es ≡ none
    → replaced dst moved es ≡ es
unfolding replaced find_entry
replaced_absent dst moved [] h = refl
replaced_absent dst moved (x ∷ es) h = ground (arith, replaced_absent dst moved es)

-- The listing with an entry put in the place of its name, or last.
abbrev placed : DirEntry → List DirEntry → List DirEntry
placed moved es =
    if is_found (find_entry moved.name es) then replaced moved.name moved es else es ++ moved ∷ []

new_src_entries_within :
    (src : Text) (moved : DirEntry) (es : List DirEntry)
    → new_src_entries true src moved.name moved es ≡ placed moved (without src es)
unfolding new_src_entries
new_src_entries_within src moved es =
    let dst = moved.name in
    elim (Option-cases (find_entry dst (without src es))) [
      | inl absent ↦ ground (
        arith,
        src_loop_within src dst moved es,
        src_loop_flag src dst moved es,
        replaced_absent dst moved (without src es),
        absent,
      )
      | inr (x, found) ↦
          ground (arith, src_loop_within src dst moved es, src_loop_flag src dst moved es, found)
    ]

find_entry-placed :
    (m : Text) (moved : DirEntry) (es : List DirEntry)
    → find_entry m (placed moved es) ≡ (if moved.name =s= m then some moved else find_entry m es)
find_entry-placed m moved es = elim (Option-cases (find_entry moved.name es)) [
  | inl absent ↦ rw absent (find_entry-append_new m es moved absent)
  | inr (x, found) ↦ ground (arith, found, find_entry-replaced m moved es)
]

Distinct-placed : (moved : DirEntry) (es : List DirEntry) → Distinct es → Distinct (placed moved es)
Distinct-placed moved es d = elim (Option-cases (find_entry moved.name es)) [
  | inl absent ↦ rw absent (Distinct-append es moved d absent)
  | inr (x, found) ↦ rw found (Distinct-replaced moved es d)
]

-- A rename within one directory, from a name to another: the target name leads to the moved entry,
-- the source name leads nowhere, every other name leads where it led, and no name stands twice.
pub find_entry-new_src_entries :
    (src : Text) (moved : DirEntry) (es : List DirEntry)
    → Distinct es
    → Distinct (new_src_entries true src moved.name moved es)
      × ((m : Text)
          → find_entry m (new_src_entries true src moved.name moved es) ≡ (
              if moved.name =s= m then some moved else if src =s= m then none else find_entry m es))
find_entry-new_src_entries src moved es d = (
  rw new_src_entries_within (Distinct-placed moved (without src es) (Distinct-without src es d)),
  λ m.
      rw (new_src_entries_within, find_entry-placed m moved (without src es), find_entry-without)
        refl,
)

dst_loop_lem : (dst : Text) (es out : List DirEntry) → dst_loop dst es out ≡ out
unfolding dst_loop
dst_loop_lem dst [] out = refl
dst_loop_lem dst (x ∷ es) out = ground (arith, dst_loop_lem dst es out)

-- A move into another directory leaves there the moved entry and nothing else.
pub new_dst_entries_lem :
    (dst : Text) (moved : DirEntry) (es : List DirEntry) → new_dst_entries dst moved es ≡ moved ∷ []
unfolding new_dst_entries
new_dst_entries_lem dst moved es = rw (dst_loop_lem dst es [])
