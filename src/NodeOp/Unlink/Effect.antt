-- ===== src/NodeOp/Unlink/Effect.antt =====
-- internal/core/node/operation.go: what a successful Unlink leaves in the database.
use mdrive.Prelude.{
  ℕ, ◌-◌, ◌≡◌, ◌≤◌, ◌<◌, refl, sym, ap, ◌∙◌, true, false, Option, none, some, List, Text, arith,
  ltb, ◌==◌, Bool-cases, inl, inr, ==_iff, ltb→le,
}
use mdrive.Result.{Result, ok}
use mdrive.Node.Content.{DirEntry}
use mdrive.Node.Inode.{Node, Stamp}
use mdrive.Node.Dir.{find_entry, without, read_dir, write_dir, remove_entry}
use mdrive.Node.Dir.Entries.{Distinct-without}
use mdrive.Node.Dir.Listing.{
  written, IsDirectory, read_dir_lem, remove_entry_lem, write_dir-ok, written-IsDirectory,
}
use mdrive.World.Tables.{Db, Row, write_row, delete_row}
use mdrive.World.Action.{World, Env, Action, lift, pure, ◌>>=◌, ◌>>◌, draw_stamp, view}
use mdrive.World.Keeps.{is_open, Isolated, Isolated-draw_stamp}
use mdrive.World.Inversion.{>>=-elim, lift-ok, draw_stamp-ok}
use mdrive.Repo.{get, save, saved, delete, from_ent, to_row}
use mdrive.Repo.Locking.{Isolated-save, save-view, stored}
use mdrive.Repo.Calls.{get-ok, delete-ok}
use mdrive.NodeOp.Unlink.{
  unlinked, drop_link, drop_child, save_then_drop, or_not_found, unlink_body,
}

-- What becomes of the inode `id` whose name is gone, where `loaded` are the rows that were read, and
-- the rows go from `old` to `new`: the nil UUID stands for no inode, the last name takes the row
-- along, and otherwise the row stays with one link less and its content.
pub data Dropped (loaded old new : ℕ → Option Row) (id : ℕ) (deleted : Option Node) : Type 0 where
  no_inode : id ≡ 0 → deleted ≡ none → new ≡ old → Dropped loaded old new id deleted
  last_name :
      (r : Row)
      → loaded id ≡ some r
      → r.nlink ≤ 1
      → deleted ≡ some (from_ent id r)
      → new ≡ delete_row old id
      → Dropped loaded old new id deleted
  other_names :
      (r r' : Row)
      → loaded id ≡ some r
      → 1 < r.nlink
      → deleted ≡ none
      → r'.nlink ≡ r.nlink - 1
      → r'.content ≡ r.content
      → new ≡ write_row old id r'
      → Dropped loaded old new id deleted

stored-nlink : (n : Node) (o : Option Row) → (stored n o).nlink ≡ n.nlink
unfolding to_row
stored-nlink n none = refl
stored-nlink n (some r) = refl

stored-content : (n : Node) (o : Option Row) → (stored n o).content ≡ n.content
unfolding to_row
stored-content n none = refl
stored-content n (some r) = refl

drop_last :
    (id : ℕ) (c : Node) (r : Row) (deleted : Option Node) (e : Env) (w w' : World)
    (loaded : ℕ → Option Row)
    → loaded id ≡ some r
    → c ≡ from_ent id r
    → ltb 1 c.nlink ≡ false
    → drop_link id c e w ≡ (ok deleted, w')
    → Dropped loaded (view w).nodes (view w').nodes id deleted
unfolding drop_link from_ent
drop_last id c r deleted e w w' loaded found is last h =
    let h' : (do delete id; pure (some c)) e w ≡ (ok deleted, w') = sym (rw last refl) ∙ h in
    >>=-elim (delete id) _ e w w' deleted h' λ z w₁ h₁ k₁.
      let one : r.nlink ≤ 1 = ltb→le _ _ (ap (λ (n : Node). ltb 1 n.nlink) (sym is) ∙ last) in
      let gone : (view w₁).nodes ≡ delete_row (view w).nodes id = delete-ok id e w w₁ z h₁ in
      let there : (view w').nodes ≡ (view w₁).nodes = cc in
      let returned : deleted ≡ some c = cc in
      last_name r found one (returned ∙ ap some is) (there ∙ gone)

drop_one :
    (id : ℕ) (c : Node) (r : Row) (deleted : Option Node) (e : Env) (w w' : World)
    (loaded : ℕ → Option Row)
    → loaded id ≡ some r
    → c ≡ from_ent id r
    → ltb 1 c.nlink ≡ true
    → drop_link id c e w ≡ (ok deleted, w')
    → Dropped loaded (view w).nodes (view w').nodes id deleted
unfolding drop_link from_ent unlinked
drop_one id c r deleted e w w' loaded found is more h =
    let h' : (do st ← draw_stamp; save (unlinked st c); pure none) e w ≡ (ok deleted, w') =
      sym (rw more refl) ∙ h in
    >>=-elim draw_stamp _ e w w' deleted h' λ st w₁ h₁ k₁.
      >>=-elim (save (unlinked st c)) _ e w₁ w' deleted k₁ λ m w₂ h₂ k₂.
        let (_, _, rows) = save-view (unlinked st c) m e w₁ w₂ h₂ in
        let old = (view w).nodes in
        let same : (view w₁).nodes ≡ old = ap (λ (d : Db). d.nodes) (draw_stamp-ok e w w₁ st h₁) in
        let there : (view w').nodes ≡ (view w₂).nodes = cc in
        let links : c.nlink ≡ r.nlink = ap (λ (n : Node). n.nlink) is in
        let c_id : c.id ≡ id = ap (λ (n : Node). n.id) is in
        let r' = stored (unlinked st c) ((view w₁).nodes c.id) in
        let none_returned : deleted ≡ none = cc in
        let many : 1 < r.nlink = ground (arith, links) in
        other_names r r' found many none_returned
          (stored-nlink (unlinked st c) ((view w₁).nodes c.id) ∙ ap (λ k. k - 1) links)
          (stored-content (unlinked st c) ((view w₁).nodes c.id) ∙ ap (λ (n : Node). n.content) is)
          (there
            ∙ (rows ∙ (ap (λ t. write_row t c.id r') same ∙ ap (λ i. write_row old i r') c_id)))

-- The inode whose name is gone.
pub drop_child-ok :
    (id : ℕ) (deleted : Option Node) (e : Env) (w w' : World)
    → drop_child id e w ≡ (ok deleted, w')
    → Dropped w.committed.nodes (view w).nodes (view w').nodes id deleted
unfolding drop_child
drop_child-ok id deleted e w w' h = elim (Bool-cases (id == 0)) [
  | inl nil ↦
      no_inode (ground (arith, ==_iff id 0)) (ground (arith, h, nil)) (ground (arith, h, nil))
  | inr real ↦
      let h' : (do child ← get id; drop_link id child) e w ≡ (ok deleted, w') =
        sym (rw real refl) ∙ h in
      >>=-elim (get id) _ e w w' deleted h' λ c w₁ h₁ k₁.
        let (same, (r, found, is)) = get-ok id c e w w₁ h₁ in
        let rows : (view w₁).nodes ≡ (view w).nodes = ap (λ (d : Db). d.nodes) same in
        coe 0 1 (i. Dropped w.committed.nodes (rows i) (view w').nodes id deleted)
          (elim (Bool-cases (ltb 1 c.nlink)) [
            | inl more ↦ drop_one id c r deleted e w₁ w' w.committed.nodes found is more k₁
            | inr last ↦ drop_last id c r deleted e w₁ w' w.committed.nodes found is last k₁
          ])
]

found-ok :
    (o : Option DirEntry) (x : DirEntry) (e : Env) (w w' : World)
    → or_not_found o e w ≡ (ok x, w')
    → (o ≡ some x) × (w' ≡ w)
found-ok none x e w w' h = absurd (ground arith)
found-ok (some y) x e w w' h = (ground arith, ground arith)

-- An action that keeps the committed tables, seen through its result.
pub committed_kept :
    {A : Type 0} (m : Action A) (e : Env) (w w' : World) (r : Result A)
    → Isolated m
    → is_open w ≡ true
    → m e w ≡ (r, w')
    → (w'.committed ≡ w.committed) × (is_open w' ≡ true)
committed_kept m e w w' r iso o h =
    let (a, b) = iso.at e w o in
    let last : (m e w).1 ≡ w' = ap (λ (p : Result _ × World). p.1) h in
    (ap (λ (v : World). v.committed) (sym last) ∙ a, ap is_open (sym last) ∙ b)

-- The rows of an Unlink before the inode of the entry is looked at.
abbrev pub parent_saved : (ℕ → Option Row) → Node → ℕ → Option Row
parent_saved t n = write_row t n.id (stored n (t n.id))

save_then_drop-ok :
    (id : ℕ) (n p' : Node) (deleted : Option Node) (e : Env) (w w' : World)
    → is_open w ≡ true
    → save_then_drop id n e w ≡ (ok (p', deleted), w')
    → (p' ≡ saved n)
      × Dropped w.committed.nodes (parent_saved (view w).nodes n) (view w').nodes id deleted
unfolding save_then_drop
save_then_drop-ok id n p' deleted e w w' begun h =
    >>=-elim (save n) _ e w w' (p', deleted) h
      λ q w₁ h₁ k₁.
        >>=-elim (drop_child id) _ e w₁ w' (p', deleted) k₁
          λ gone w₂ h₂ k₂.
            let (_, is, rows) = save-view n q e w w₁ h₁ in
            let (kept, _) = committed_kept (save n) e w w₁ (ok q) (Isolated-save n) begun h₁ in
            let returned : p' ≡ q = cc in
            let gone_is : gone ≡ deleted = cc in
            let last : w₂ ≡ w' = cc in
            (
              returned ∙ is,
              coe 0 1 (i. Dropped (kept i).nodes (rows i) (view (last i)).nodes id (gone_is i))
                  (drop_child-ok id gone e w₁ w₂ h₂),
            )

draw_stamp-rev :
    (e : Env) (w w' : World) (st : Stamp) → draw_stamp e w ≡ (ok st, w') → st.rev ≡ e.ulid w.tick
unfolding draw_stamp
draw_stamp-rev e w w' st h = ground arith

pub remove_entry-ok :
    (st : Stamp) (name : Text) (x : DirEntry) (n n' : Node) (es : List DirEntry)
    → IsDirectory n es
    → find_entry name es ≡ some x
    → remove_entry st name n ≡ ok n'
    → (n' ≡ written st (without name es) n) × IsDirectory n' (without name es)
remove_entry-ok st name x n n' es d found h =
    let wrote : write_dir st (without name es) n ≡ ok n' =
      sym (remove_entry_lem st name n es d ∙ rw found refl) ∙ h in
    let (is, fits) = write_dir-ok st (without name es) n n' d.is_directory wrote in
    (
      is,
      rw is (
          written-IsDirectory st (without name es) n d.is_directory
            (Distinct-without name es d.distinct) fits),
    )

-- An Unlink that succeeded inside a transaction.
pub unlink_body-ok :
    (p p' : Node) (name : Text) (deleted : Option Node) (es : List DirEntry) (e : Env)
    (w w' : World)
    → is_open w ≡ true
    → IsDirectory p es
    → unlink_body p name e w ≡ (ok (p', deleted), w')
    → (x : DirEntry) × (st : Stamp) × (n : Node) × (find_entry name es ≡ some x)
      × ((t : ℕ) × (st.rev ≡ e.ulid t))
      × (n ≡ written st (without name es) p)
      × (p' ≡ saved n)
      × IsDirectory n (without name es)
      × Dropped w.committed.nodes (parent_saved (view w).nodes n) (view w').nodes x.inode_id deleted
unfolding unlink_body
unlink_body-ok p p' name deleted es e w w' begun d h =
    >>=-elim (lift (read_dir p)) _ e w w' (p', deleted) h
      λ fs wᵣ hᵣ kᵣ.
        >>=-elim (or_not_found (find_entry name fs)) _ e wᵣ w' (p', deleted) kᵣ
          λ x w₀ h₀ k₀.
            >>=-elim draw_stamp _ e w₀ w' (p', deleted) k₀
              λ st w₁ h₁ k₁.
                >>=-elim (lift (remove_entry st name p)) _ e w₁ w' (p', deleted) k₁
                  λ n w₂ h₂ k₂.
                    let (read, sameᵣ) = lift-ok (read_dir p) e w wᵣ fs hᵣ in
                    let listing : fs ≡ es = ground (arith, read, read_dir_lem d) in
                    let (found_here, same_here) = found-ok (find_entry name fs) x e wᵣ w₀ h₀ in
                    let found : find_entry name es ≡ some x =
                      ap (find_entry name) (sym listing) ∙ found_here in
                    let same₀ : w₀ ≡ w = same_here ∙ sameᵣ in
                    let (removed, same₂) = lift-ok (remove_entry st name p) e w₁ w₂ n h₂ in
                    let (n_is, dir) = remove_entry-ok st name x p n es d found removed in
                    let (c₁, o₁) =
                      committed_kept draw_stamp e w₀ w₁ (ok st) Isolated-draw_stamp
                        (ap is_open same₀ ∙ begun) h₁ in
                    let (is, dropped) =
                      save_then_drop-ok x.inode_id n p' deleted e w₂ w' (ap is_open same₂ ∙ o₁)
                        k₂ in
                    let loaded : w₂.committed ≡ w.committed =
                      ap (λ (v : World). v.committed) same₂
                      ∙ (c₁ ∙ ap (λ (v : World). v.committed) same₀) in
                    let seen : view w₂ ≡ view w =
                      ap view same₂ ∙ (draw_stamp-ok e w₀ w₁ st h₁ ∙ ap view same₀) in
                    (
                      x,
                      st,
                      n,
                      found,
                      (w₀.tick, draw_stamp-rev e w₀ w₁ st h₁),
                      n_is,
                      is,
                      dir,
                      coe 0 1
                          (i.
                            Dropped (loaded i).nodes (parent_saved (seen i).nodes n) (view w').nodes
                              x.inode_id deleted)
                          dropped,
                    )
