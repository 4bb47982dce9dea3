-- ===== src/NodeOp/Move/Effect.antt =====
-- internal/core/node/operation.go: what a successful MoveEntry leaves in the database.
use mdrive.Prelude.{
  ℕ, ◌≡◌, ◌≢◌, refl, sym, ap, ◌∙◌, Bool, true, false, ◌&&◌, Option, none, some, List, [], ◌∷◌, Text,
  arith, leb, ◌==◌, ◌=s=◌, if◌then◌else◌,
}
use mdrive.Result.{ok}
use mdrive.Node.Content.{DirEntry}
use mdrive.Node.Inode.{Node, Stamp}
use mdrive.Node.Dir.{find_entry, without, write_dir}
use mdrive.Node.Dir.Listing.{IsDirectory, read_dir_lem}
use mdrive.World.Tables.{Db, write_row}
use mdrive.World.Action.{World, Env, lift, draw_stamp, view}
use mdrive.World.Inversion.{>>=-elim, lift-ok, draw_stamp-ok}
use mdrive.Repo.{get, save, saved, delete}
use mdrive.Repo.Locking.{save-view, stored, row_kept}
use mdrive.Repo.Calls.{get-ok, from_ent-id, delete-ok, deleted_elsewhere}
use mdrive.NodeOp.Link.Effect.{rows_after}
use mdrive.NodeOp.Move.{
  new_src_entries, new_dst_entries, less, lose_link, drop_overwritten, write_one, write_both,
  same_inode, move_over, move_found, move_body,
}
use mdrive.NodeOp.Move.Listing.{new_src_entries_away, new_dst_entries_lem}

lose_link-ok :
    (n : Node) (i : ℕ) (e : Env) (w w' : World) (a : Unit)
    → n.id ≢ i
    → lose_link n e w ≡ (ok a, w')
    → (view w').nodes i ≡ (view w).nodes i
unfolding lose_link
lose_link-ok n i e w w' a ne h = >>=-elim draw_stamp _ e w w' a h λ st w₁ h₁ k₁.
    >>=-elim (save (less st n)) _ e w₁ w' a k₁ λ m w₂ h₂ k₂.
      let (_, _, rows) = save-view (less st n) m e w₁ w₂ h₂ in
      let there : (view w').nodes ≡ (view w₂).nodes = cc in
      ap (λ t. t i) (there ∙ rows)
      ∙ (row_kept (view w₁).nodes n.id i (stored (less st n) ((view w₁).nodes n.id)) ne
          ∙ ap (λ (d : Db). d.nodes i) (draw_stamp-ok e w w₁ st h₁))

lost_or_gone-ok :
    (last : Bool) (n : Node) (id i : ℕ) (e : Env) (w w' : World) (a : Unit)
    → n.id ≡ id
    → id ≢ i
    → (if last then delete id else lose_link n) e w ≡ (ok a, w')
    → (view w').nodes i ≡ (view w).nodes i
lost_or_gone-ok true n id i e w w' a same ne h =
    ap (λ t. t i) (delete-ok id e w w' a h) ∙ deleted_elsewhere (view w).nodes id i ne
lost_or_gone-ok false n id i e w w' a same ne h =
    lose_link-ok n i e w w' a (λ x. ne (sym same ∙ x)) h

-- Dropping the overwritten inode touches no other row.
pub drop_overwritten-ok :
    (o : Option DirEntry) (i : ℕ) (e : Env) (w w' : World) (a : Unit)
    → ((x : DirEntry) → o ≡ some x → x.inode_id ≢ i)
    → drop_overwritten o e w ≡ (ok a, w')
    → (view w').nodes i ≡ (view w).nodes i
unfolding drop_overwritten
drop_overwritten-ok none i e w w' a ne h = ground arith
drop_overwritten-ok (some x) i e w w' a ne h = >>=-elim (get x.inode_id) _ e w w' a h λ n w₁ h₁ k₁.
    let (same, (r, _, loaded)) = get-ok x.inode_id n e w w₁ h₁ in
    lost_or_gone-ok (leb n.nlink 1) n x.inode_id i e w₁ w' a
      (ap (λ (m : Node). m.id) loaded ∙ from_ent-id x.inode_id r) (ne x refl) k₁
    ∙ ap (λ (d : Db). d.nodes i) same

-- A move of a name that is there, not onto a name of the same inode, comes to the writes.
pub move_body_lem :
    (src dst : Text) (x : DirEntry) (p q : Node) (es fs : List DirEntry) (e : Env) (w : World)
    → IsDirectory p es
    → IsDirectory q fs
    → find_entry src es ≡ some x
    → same_inode x (find_entry dst fs) ≡ false
    → ((p.id == q.id) && (src =s= dst)) ≡ false
    → move_body p src q dst e w ≡ move_over src dst x es fs (find_entry dst fs) p q e w
unfolding move_body move_found
move_body_lem src dst x p q es fs e w d f found apart other =
    rw (read_dir_lem d, found, other, read_dir_lem f, apart) refl

pub write_both-ok :
    (src dst : Text) (moved : DirEntry) (es fs : List DirEntry) (p q p' q' : Node) (e : Env)
    (w w' : World)
    → write_both src dst moved es fs p q e w ≡ (ok (p', q'), w')
    → (st : Stamp) × (st' : Stamp) × (n : Node) × (m : Node) × (write_dir st (without src es) p
        ≡ ok n)
      × (write_dir st' (moved ∷ []) q ≡ ok m)
      × (p' ≡ saved n)
      × (q' ≡ saved m)
      × ((view w').nodes ≡ rows_after (view w).nodes n m)
unfolding write_both
write_both-ok src dst moved es fs p q p' q' e w w' h =
    let keep = new_src_entries false src dst moved es in
    let put = new_dst_entries dst moved fs in
    >>=-elim draw_stamp _ e w w' (p', q') h
      λ st w₁ h₁ k₁.
        >>=-elim (lift (write_dir st keep p)) _ e w₁ w' (p', q') k₁
          λ n w₂ h₂ k₂.
            >>=-elim (save n) _ e w₂ w' (p', q') k₂
              λ a w₃ h₃ k₃.
                >>=-elim draw_stamp _ e w₃ w' (p', q') k₃
                  λ st' w₄ h₄ k₄.
                    >>=-elim (lift (write_dir st' put q)) _ e w₄ w' (p', q') k₄
                      λ m w₅ h₅ k₅.
                        >>=-elim (save m) _ e w₅ w' (p', q') k₅
                          λ b w₆ h₆ k₆.
                            let (wrote, same) = lift-ok (write_dir st keep p) e w₁ w₂ n h₂ in
                            let (wrote', same') = lift-ok (write_dir st' put q) e w₄ w₅ m h₅ in
                            let (_, saved_src, rows₃) = save-view n a e w₂ w₃ h₃ in
                            let (_, saved_dst, rows₆) = save-view m b e w₅ w₆ h₆ in
                            (
                              st,
                              st',
                              n,
                              m,
                              ap (λ l. write_dir st l p)
                                    (sym (new_src_entries_away src dst moved es))
                                  ∙ wrote,
                              ap (λ l. write_dir st' l q) (sym (new_dst_entries_lem dst moved fs))
                                  ∙ wrote',
                              cc,
                              cc,
                              cc (draw_stamp-ok e w w₁ st h₁, draw_stamp-ok e w₃ w₄ st' h₄),
                            )

pub write_one-ok :
    (src dst : Text) (moved : DirEntry) (es : List DirEntry) (p p' q' : Node) (e : Env)
    (w w' : World)
    → write_one src dst moved es p e w ≡ (ok (p', q'), w')
    → (st : Stamp) × (n : Node) × (write_dir st (new_src_entries true src dst moved es) p ≡ ok n)
      × (p' ≡ saved n)
      × (q' ≡ saved n)
      × ((view w').nodes ≡ write_row (view w).nodes n.id (stored n ((view w).nodes n.id)))
unfolding write_one
write_one-ok src dst moved es p p' q' e w w' h =
    let put = new_src_entries true src dst moved es in
    >>=-elim draw_stamp _ e w w' (p', q') h
      λ st w₁ h₁ k₁.
        >>=-elim (lift (write_dir st put p)) _ e w₁ w' (p', q') k₁
          λ n w₂ h₂ k₂.
            >>=-elim (save n) _ e w₂ w' (p', q') k₂
              λ a w₃ h₃ k₃.
                let (wrote, same) = lift-ok (write_dir st put p) e w₁ w₂ n h₂ in
                let (_, saved_src, rows₃) = save-view n a e w₂ w₃ h₃ in
                (st, n, wrote, cc, cc, cc (draw_stamp-ok e w w₁ st h₁))
