-- ===== src/NodeOp/Move/Outcome.antt =====
-- internal/core/node/operation.go: the two directories after a MoveEntry that succeeded.
use mdrive.Prelude.{
  ℕ, ◌≡◌, ◌≢◌, refl, sym, ap, ◌∙◌, true, false, Option, none, some, List, [], ◌∷◌, Text, arith,
  ◌==◌, ◌=s=◌, if◌then◌else◌, ==_iff,
}
use mdrive.Errorx.{Kind}
use mdrive.Result.{ok}
use mdrive.Node.Content.{DirEntry}
use mdrive.Node.Inode.{Node}
use mdrive.Node.Dir.{find_entry, without}
use mdrive.Node.Dir.Entries.{Distinct-without}
use mdrive.Node.Dir.Listing.{IsDirectory, write_dir-ok, written-IsDirectory}
use mdrive.World.Tables.{Db, Row}
use mdrive.World.Action.{World, Env, raise_if, view}
use mdrive.World.Keeps.{begun}
use mdrive.World.Inversion.{raise_if-ok, >>=-elim, with_tx-ok}
use mdrive.Repo.Locking.{HasRow, HasRow-written, stored, row_kept}
use mdrive.NodeOp.Link.Effect.{rows_after_lem, saved-IsDirectory}
use mdrive.NodeOp.Move.{
  new_src_entries, drop_overwritten, write_one, write_both, write_parents, same_inode, other_kind,
  move_over, move_body, move_entry,
}
use mdrive.NodeOp.Move.Listing.{find_entry-new_src_entries}
use mdrive.NodeOp.Move.Effect.{drop_overwritten-ok, move_body_lem, write_both-ok, write_one-ok}

-- The entry of the target name, if there is one, leads to an inode other than `i`.
abbrev pub Elsewhere : Option DirEntry → ℕ → Type 0
Elsewhere o i = (x : DirEntry) → o ≡ some x → x.inode_id ≢ i

-- What the writes of the directories left, the drop of the overwritten inode keeps.
move_over-ok :
    (src dst : Text) (x : DirEntry) (es fs : List DirEntry) (o : Option DirEntry) (p q p' q' : Node)
    (e : Env) (w w' : World)
    → move_over src dst x es fs o p q e w ≡ (ok (p', q'), w')
    → (other_kind x o ≡ false)
      × ((u : World) × (write_parents src dst (record x { name = dst }) es fs p q e w
            ≡ (ok (p', q'), u))
          × ((i : ℕ) → Elsewhere o i → (view w').nodes i ≡ (view u).nodes i))
unfolding move_over
move_over-ok src dst x es fs o p q p' q' e w w' h =
    let moved : DirEntry = record x { name = dst } in
    >>=-elim (raise_if (other_kind x o) Kind.failed_precondition) _ e w w' (p', q') h
      λ z w₁ h₁ k₁.
        >>=-elim (write_parents src dst moved es fs p q) _ e w₁ w' (p', q') k₁
          λ ps u h₂ k₂.
            >>=-elim (drop_overwritten o) _ e u w' (p', q') k₂
              λ z' w₃ h₃ k₃.
                let (same_kind, still) =
                  raise_if-ok (other_kind x o) Kind.failed_precondition e w w₁ z h₁ in
                let last : w₃ ≡ w' = cc in
                (
                  same_kind,
                  (
                    u,
                    cc,
                    λ i ne.
                        ap (λ v. (view v).nodes i) (sym last)
                        ∙ drop_overwritten-ok o i e u w₃ z' ne h₃,
                  ),
                )

HasRow-same : (t t' : ℕ → Option Row) (n : Node) → t' n.id ≡ t n.id → HasRow t n → HasRow t' n
HasRow-same t t' n same (r, found, reads) = (r, same ∙ found, reads)

both_written :
    (src dst : Text) (moved : DirEntry) (es fs : List DirEntry) (p q p' q' : Node) (e : Env)
    (w w' : World)
    → p.id ≢ q.id
    → IsDirectory p es
    → IsDirectory q fs
    → write_both src dst moved es fs p q e w ≡ (ok (p', q'), w')
    → IsDirectory p' (without src es)
      × IsDirectory q' (moved ∷ [])
      × (p'.id ≡ p.id)
      × (q'.id ≡ q.id)
      × HasRow (view w').nodes p'
      × HasRow (view w').nodes q'
      × ((i : ℕ) → i ≢ p.id → i ≢ q.id → (view w').nodes i ≡ (view w).nodes i)
unfolding find_entry
both_written src dst moved es fs p q p' q' e w w' ne d f h =
    let (st, st', n, m, wrote, wrote', ps, qs, rows) =
      write_both-ok src dst moved es fs p q p' q' e w w' h in
    let (n_is, n_fits) = write_dir-ok st (without src es) p n d.is_directory wrote in
    let (m_is, m_fits) = write_dir-ok st' (moved ∷ []) q m f.is_directory wrote' in
    let n_id : n.id ≡ p.id = ap (λ (y : Node). y.id) n_is in
    let m_id : m.id ≡ q.id = ap (λ (y : Node). y.id) m_is in
    let (row_p, row_q, others) =
      rows_after_lem (view w).nodes n m (λ x. ne (sym n_id ∙ (x ∙ m_id))) in
    (
      rw (ps, n_is)
          (saved-IsDirectory _ _ (
            written-IsDirectory st (without src es) p d.is_directory
              (Distinct-without src es d.distinct) n_fits)),
      rw (qs, m_is)
          (saved-IsDirectory _ _
            (written-IsDirectory st' (moved ∷ []) q f.is_directory (refl, tt) m_fits)),
      rw ps n_id,
      rw qs m_id,
      rw (rows, ps) row_p,
      rw (rows, qs) row_q,
      λ i x y. rw rows (others i (λ z. x (z ∙ n_id)) (λ z. y (z ∙ m_id))),
    )

-- A move between two directories that succeeded outside of a transaction, of a name that is there
-- onto no name of the same inode, where an overwritten inode is neither of the directories: the
-- source directory keeps its id, is well formed and lists what it listed but the source name; the
-- target directory keeps its id, is well formed and lists the moved entry and nothing else, whatever it
-- listed before; both are in the committed table, and no other row has changed but that of an
-- overwritten inode.
pub move_entry_across :
    (src dst : Text) (x : DirEntry) (es fs : List DirEntry) (p q p' q' : Node) (e : Env)
    (w w' : World)
    → w.tx ≡ none
    → p.id ≢ q.id
    → IsDirectory p es
    → IsDirectory q fs
    → find_entry src es ≡ some x
    → same_inode x (find_entry dst fs) ≡ false
    → ((y : DirEntry) → find_entry dst fs ≡ some y → (y.inode_id ≢ p.id) × (y.inode_id ≢ q.id))
    → move_entry (some p) src (some q) dst e w ≡ (ok (p', q'), w')
    → IsDirectory p' (without src es)
      × IsDirectory q' (record x { name = dst } ∷ [])
      × (p'.id ≡ p.id)
      × (q'.id ≡ q.id)
      × HasRow w'.committed.nodes p'
      × HasRow w'.committed.nodes q'
      × ((i : ℕ)
          → i ≢ p.id
          → i ≢ q.id
          → Elsewhere (find_entry dst fs) i
          → w'.committed.nodes i ≡ w.committed.nodes i)
unfolding move_entry write_parents
move_entry_across src dst x es fs p q p' q' e w w' closed ne d f found apart elsewhere h =
    let moved : DirEntry = record x { name = dst } in
    let o = find_entry dst fs in
    let differ : (p.id == q.id) ≡ false = ground (arith, ==_iff p.id q.id) in
    let (v, ran, tables, _) = with_tx-ok (move_body p src q dst) e w w' (p', q') closed h in
    let (_, (u, wrote, kept)) = move_over-ok src dst x es fs o p q p' q' e (begun w) v (
      sym (move_body_lem src dst x p q es fs e (begun w) d f found apart (rw differ refl)) ∙ ran) in
    let (dir_p, dir_q, p_id, q_id, row_p, row_q, others) =
      both_written src dst moved es fs p q p' q' e (begun w) u ne d f
        (sym (rw differ refl) ∙ wrote) in
    let t = (view u).nodes in
    let t' = (view v).nodes in
    (
      dir_p,
      dir_q,
      p_id,
      q_id,
      rw tables (HasRow-same t t' p' (kept p'.id (λ y z k. (elsewhere y z).0 (k ∙ p_id))) row_p),
      rw tables (HasRow-same t t' q' (kept q'.id (λ y z k. (elsewhere y z).1 (k ∙ q_id))) row_q),
      λ i x y apart'. ap (λ (d : Db). d.nodes i) tables ∙ (kept i apart' ∙ others i x y),
    )

one_written :
    (src : Text) (moved : DirEntry) (es : List DirEntry) (p p' q' : Node) (e : Env) (w w' : World)
    → IsDirectory p es
    → write_one src moved.name moved es p e w ≡ (ok (p', q'), w')
    → IsDirectory p' (new_src_entries true src moved.name moved es)
      × (p'.id ≡ p.id)
      × HasRow (view w').nodes p'
      × ((i : ℕ) → i ≢ p.id → (view w').nodes i ≡ (view w).nodes i)
one_written src moved es p p' q' e w w' d h =
    let gs = new_src_entries true src moved.name moved es in
    let (st, n, put, ps, _, rows) = write_one-ok src moved.name moved es p p' q' e w w' h in
    let (n_is, n_fits) = write_dir-ok st gs p n d.is_directory put in
    let n_id : n.id ≡ p.id = ap (λ (y : Node). y.id) n_is in
    (
      rw (ps, n_is)
          (saved-IsDirectory _ _ (
            written-IsDirectory st gs p d.is_directory
              (find_entry-new_src_entries src moved es d.distinct).0 n_fits)),
      rw ps n_id,
      rw (rows, ps) (HasRow-written (view w).nodes n ((view w).nodes n.id)),
      λ i x.
          rw rows (
            row_kept (view w).nodes n.id i (stored n ((view w).nodes n.id))
              (λ z. x (sym z ∙ n_id))),
    )

-- A rename within one directory that succeeded outside of a transaction, of a name that is there to
-- another name, not of the same inode, where an overwritten inode is not the directory: the directory
-- keeps its id and is well formed, the target name leads to the inode of the source name, the source
-- name leads nowhere, and every other name leads where it led. The directory is in the committed table,
-- and no other row has changed but that of an overwritten inode.
pub move_entry_within :
    (src dst : Text) (x : DirEntry) (es : List DirEntry) (p p' q' : Node) (e : Env) (w w' : World)
    → w.tx ≡ none
    → (src =s= dst) ≡ false
    → IsDirectory p es
    → find_entry src es ≡ some x
    → same_inode x (find_entry dst es) ≡ false
    → ((y : DirEntry) → find_entry dst es ≡ some y → y.inode_id ≢ p.id)
    → move_entry (some p) src (some p) dst e w ≡ (ok (p', q'), w')
    → (gs : List DirEntry) × IsDirectory p' gs
      × ((m : Text)
          → find_entry m gs ≡ (
              if dst =s= m
              then some (record x { name = dst })
              else if src =s= m
              then none
              else find_entry m es))
      × (p'.id ≡ p.id)
      × HasRow w'.committed.nodes p'
      × ((i : ℕ)
          → i ≢ p.id
          → Elsewhere (find_entry dst es) i
          → w'.committed.nodes i ≡ w.committed.nodes i)
unfolding move_entry write_parents
move_entry_within src dst x es p p' q' e w w' closed differ d found apart elsewhere h =
    let moved : DirEntry = record x { name = dst } in
    let o = find_entry dst es in
    let gs = new_src_entries true src dst moved es in
    let same : (p.id == p.id) ≡ true = ground (arith, ==_iff p.id p.id) in
    let (v, ran, tables, _) = with_tx-ok (move_body p src p dst) e w w' (p', q') closed h in
    let (_, (u, wrote, kept)) = move_over-ok src dst x es es o p p p' q' e (begun w) v (
      sym (move_body_lem src dst x p p es es e (begun w) d d found apart (rw (same, differ) refl))
      ∙ ran) in
    let (dir_p, p_id, row, others) =
      one_written src moved es p p' q' e (begun w) u d (sym (rw same refl) ∙ wrote) in
    (
      gs,
      dir_p,
      (find_entry-new_src_entries src moved es d.distinct).1,
      p_id,
      rw tables (
          HasRow-same (view u).nodes (view v).nodes p'
            (kept p'.id (λ y z k. elsewhere y z (k ∙ p_id))) row),
      λ i x apart'. ap (λ (d : Db). d.nodes i) tables ∙ (kept i apart' ∙ others i x),
    )
