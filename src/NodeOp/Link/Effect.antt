-- ===== src/NodeOp/Link/Effect.antt =====
-- internal/core/node/operation.go: what a successful Link leaves in the database.
use mdrive.Prelude.{
  ℕ, ◌+◌, ◌%◌, ◌^◌, ◌≡◌, ◌≢◌, sym, ap, ◌∙◌, Option, none, some, List, [], ◌∷◌, ◌++◌, Text,
}
use mdrive.Result.{ok}
use mdrive.Node.Content.{DirEntry}
use mdrive.Node.Inode.{Node, Stamp}
use mdrive.Node.Dir.{find_entry, entry_of, add_entry}
use mdrive.Node.Dir.Listing.{IsDirectory, lookup-add_entry, add_entry_ok}
use mdrive.World.Tables.{Db, Row, write_row}
use mdrive.World.Action.{World, Env, lift, draw_stamp, view}
use mdrive.World.Keeps.{begun}
use mdrive.World.Inversion.{>>=-elim, lift-ok, draw_stamp-ok, with_tx-ok}
use mdrive.Repo.{save, saved}
use mdrive.Repo.Locking.{save-view, stored, HasRow, HasRow-written, HasRow-elsewhere, row_kept}
use mdrive.NodeOp.Link.{linked, link_body, link}

-- The tables after a Link of the node `n`, the parent with its new entry, and of the child `c`.
abbrev pub rows_after : (ℕ → Option Row) → Node → Node → ℕ → Option Row
rows_after t n c =
    let t' = write_row t n.id (stored n (t n.id)) in write_row t' c.id (stored c (t' c.id))

-- A Link that succeeded, seen through the tables that it works on.
pub link_body-ok :
    (p c p' c' : Node) (name : Text) (e : Env) (w w' : World)
    → link_body p name c e w ≡ (ok (p', c'), w')
    → (st : Stamp) × (st' : Stamp) × (n : Node) × (add_entry st name c p ≡ ok n)
      × (p' ≡ saved n)
      × (c' ≡ saved (linked st' c))
      × ((view w').nodes ≡ rows_after (view w).nodes n (linked st' c))
unfolding link_body
link_body-ok p c p' c' name e w w' h =
    >>=-elim draw_stamp _ e w w' (p', c') h
      λ st w₁ h₁ k₁.
        >>=-elim (lift (add_entry st name c p)) _ e w₁ w' (p', c') k₁
          λ n w₂ h₂ k₂.
            >>=-elim (save n) _ e w₂ w' (p', c') k₂
              λ q w₃ h₃ k₃.
                >>=-elim draw_stamp _ e w₃ w' (p', c') k₃
                  λ st' w₄ h₄ k₄.
                    >>=-elim (save (linked st' c)) _ e w₄ w' (p', c') k₄
                      λ d w₅ h₅ k₅.
                        let (added, same) = lift-ok (add_entry st name c p) e w₁ w₂ n h₂ in
                        let (_, saved_parent, rows₃) = save-view n q e w₂ w₃ h₃ in
                        let (_, saved_child, rows₅) = save-view (linked st' c) d e w₄ w₅ h₅ in
                        (
                          st,
                          st',
                          n,
                          added,
                          cc,
                          cc,
                          cc (draw_stamp-ok e w w₁ st h₁, draw_stamp-ok e w₃ w₄ st' h₄),
                        )

pub saved-IsDirectory :
    (n : Node) (es : List DirEntry) → IsDirectory n es → IsDirectory (saved n) es
saved-IsDirectory n es d = record {
  is_directory = d.is_directory;
  holds = d.holds;
  distinct = d.distinct;
  fits = d.fits;
}

pub rows_after_lem :
    (t : ℕ → Option Row) (n c : Node)
    → n.id ≢ c.id
    → HasRow (rows_after t n c) (saved n)
      × HasRow (rows_after t n c) (saved c)
      × ((i : ℕ) → i ≢ n.id → i ≢ c.id → rows_after t n c i ≡ t i)
rows_after_lem t n c ne =
    let t' = write_row t n.id (stored n (t n.id)) in
    (
      HasRow-elsewhere t' c.id (stored c (t' c.id)) (saved n) (λ x. ne (sym x))
          (HasRow-written t n (t n.id)),
      HasRow-written t' c (t' c.id),
      λ i x y.
          row_kept t' c.id i (stored c (t' c.id)) (λ z. y (sym z))
          ∙ row_kept t n.id i (stored n (t n.id)) (λ z. x (sym z)),
    )

-- The body of the transaction of a Link of two different inodes, seen through the tables that it works
-- on.
pub link_body_lem :
    (p c p' c' : Node) (name : Text) (es : List DirEntry) (e : Env) (w w' : World)
    → p.id ≢ c.id
    → IsDirectory p es
    → link_body p name c e w ≡ (ok (p', c'), w')
    → (find_entry name es ≡ none)
      × IsDirectory p' (es ++ entry_of name c ∷ [])
      × (p'.id ≡ p.id)
      × (c'.nlink ≡ (c.nlink + 1) % 2 ^ 32)
      × (c'.id ≡ c.id)
      × (c'.kind ≡ c.kind)
      × (c'.content ≡ c.content)
      × HasRow (view w').nodes p'
      × HasRow (view w').nodes c'
      × ((i : ℕ) → i ≢ p.id → i ≢ c.id → (view w').nodes i ≡ (view w).nodes i)
unfolding linked
link_body_lem p c p' c' name es e w w' ne d ran =
    let (st, st', n, added, ps, cs, rows) = link_body-ok p c p' c' name e w w' ran in
    let (new, _, n_is) = add_entry_ok st name c p n es d added in
    let n_id : n.id ≡ p.id = ap (λ (x : Node). x.id) n_is in
    let (row_p, row_c, others) =
      rows_after_lem (view w).nodes n (linked st' c) (λ x. ne (sym n_id ∙ x)) in
    (
      new,
      rw ps (saved-IsDirectory n _ (lookup-add_entry st name c p n es d added).0),
      rw ps n_id,
      rw cs,
      rw cs,
      rw cs,
      rw cs,
      rw (rows, ps) row_p,
      rw (rows, cs) row_c,
      λ i x y. rw rows (others i (λ z. x (z ∙ n_id)) y),
    )

-- A Link of two different inodes, the parent a well-formed directory, that succeeded outside of a
-- transaction: the parent keeps its id and lists the child last under the new name, which it did not
-- list before, the child has one link more and its id, kind and content as before, both are in the
-- committed table, and no other row has changed.
pub link_lem :
    (p c p' c' : Node) (name : Text) (es : List DirEntry) (e : Env) (w w' : World)
    → w.tx ≡ none
    → p.id ≢ c.id
    → IsDirectory p es
    → link (some p) name (some c) e w ≡ (ok (p', c'), w')
    → (find_entry name es ≡ none)
      × IsDirectory p' (es ++ entry_of name c ∷ [])
      × (p'.id ≡ p.id)
      × (c'.nlink ≡ (c.nlink + 1) % 2 ^ 32)
      × (c'.id ≡ c.id)
      × (c'.kind ≡ c.kind)
      × (c'.content ≡ c.content)
      × HasRow w'.committed.nodes p'
      × HasRow w'.committed.nodes c'
      × ((i : ℕ) → i ≢ p.id → i ≢ c.id → w'.committed.nodes i ≡ w.committed.nodes i)
unfolding link
link_lem p c p' c' name es e w w' closed ne d h =
    let (v, ran, tables, _) = with_tx-ok (link_body p name c) e w w' (p', c') closed h in
    let (new, listed, place, links, id, kind, content, row_p, row_c, others) =
      link_body_lem p c p' c' name es e (begun w) v ne d ran in
    let after : w'.committed.nodes ≡ (view v).nodes = ap (λ (b : Db). b.nodes) tables in
    (
      new,
      listed,
      place,
      links,
      id,
      kind,
      content,
      rw after row_p,
      rw after row_c,
      λ i x y. rw after (others i x y),
    )
