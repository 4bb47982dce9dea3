-- ===== src/NodeOp/Unlink/Twice.antt =====
-- internal/core/node/operation.go and ent.go: two Unlinks in one directory inside one transaction.
use mdrive.Prelude.{
  ℕ, suc, ◌≡◌, ◌≢◌, refl, sym, ap, ◌∙◌, true, false, Option, some, List, Text, arith, inl, inr,
  Option-cases,
}
use mdrive.Errorx.{Kind}
use mdrive.Result.{Result, ok, err}
use mdrive.Node.Content.{DirEntry}
use mdrive.Node.Inode.{Node, Stamp}
use mdrive.Node.Dir.{find_entry, remove_entry}
use mdrive.Node.Dir.Listing.{IsDirectory, read_dir_lem, lookup-remove_entry}
use mdrive.World.Tables.{Db, Row}
use mdrive.World.Action.{World, Env, draw_stamp, view, step}
use mdrive.World.Keeps.{is_open, with_tx_open}
use mdrive.Repo.{get}
use mdrive.Repo.Locking.{stored, may_write, save_lem, may_not_write, row_written}
use mdrive.NodeOp.Atomic.{Isolated-unlink_body}
use mdrive.NodeOp.Unlink.{save_then_drop, unlink_body, unlink}
use mdrive.NodeOp.Unlink.Effect.{parent_saved, committed_kept, remove_entry-ok, unlink_body-ok}
use mdrive.NodeOp.Unlink.Outcome.{Dropped-elsewhere}

get-same :
    (id : ℕ) (e : Env) (w w' : World)
    → e.fault w.tick ≡ false
    → e.fault w'.tick ≡ false
    → w'.committed ≡ w.committed
    → (get id e w').0 ≡ (get id e w).0
unfolding get
get-same id e w w' f g same = elim (Option-cases (w.committed.nodes id)) [
  | inl absent ↦ ground (arith, ap (λ (d : Db). d.nodes id) same)
  | inr (r, found) ↦ ground (arith, ap (λ (d : Db). d.nodes id) same)
]

-- The writes of an Unlink whose copy of the directory is stale.
stale_save :
    (id : ℕ) (n : Node) (e : Env) (w : World)
    → e.fault w.tick ≡ false
    → e.fault (suc w.tick) ≡ false
    → may_write n ((view w).nodes n.id) ≡ false
    → (save_then_drop id n e w).0 ≡ err Kind.revision_conflict
unfolding save_then_drop
stale_save id n e w f g stale = rw (save_lem n e w f g, stale) refl

abbrev stamp_at : Env → World → Stamp
stamp_at e w = record { now = e.now w.tick; rev = e.ulid w.tick }

-- An Unlink of a name that is there comes to the writes.
unlink_body_lem :
    (p n : Node) (name : Text) (x : DirEntry) (es : List DirEntry) (e : Env) (w : World)
    → IsDirectory p es
    → find_entry name es ≡ some x
    → remove_entry (stamp_at e w) name p ≡ ok n
    → unlink_body p name e w ≡ save_then_drop x.inode_id n e (step w)
unfolding unlink_body draw_stamp
unlink_body_lem p n name x es e w d found removed = rw (read_dir_lem d, found, removed) refl

-- The second Unlink, where the row of the directory is what another copy of it has saved.
unlink_stale :
    (p n : Node) (name : Text) (x : DirEntry) (es : List DirEntry) (o : Option Row) (e : Env)
    (w : World)
    → IsDirectory p es
    → ((t : ℕ) → e.fault t ≡ false)
    → find_entry name es ≡ some x
    → (view w).nodes p.id ≡ some (stored n o)
    → n.stale_rev ≡ p.stale_rev
    → n.rev ≢ n.stale_rev
    → (unlink_body p name e w).0 ≡ err Kind.revision_conflict
unlink_stale p n name x es o e w d quiet found row loaded fresh =
    elim (lookup-remove_entry (stamp_at e w) name p es d) [
      | inl (absent, _) ↦ absurd (ground arith)
      | inr (m, removed, _, _) ↦
          let (m_is, _) = remove_entry-ok (stamp_at e w) name x p m es d found removed in
          let m_id : m.id ≡ p.id = ap (λ (k : Node). k.id) m_is in
          let m_stale : n.stale_rev ≡ m.stale_rev =
            loaded ∙ sym (ap (λ (k : Node). k.stale_rev) m_is) in
          let stale : may_write m ((view w).nodes m.id) ≡ false =
            ap (λ i. may_write m ((view w).nodes i)) m_id
            ∙ (ap (may_write m) row ∙ may_not_write n m o m_stale fresh) in
          ap (λ (r : Result (Node × Option Node) × World). r.0)
            (unlink_body_lem p m name x es e w d found removed)
          ∙ stale_save x.inode_id m e (step w) (quiet (suc w.tick)) (quiet (suc (suc w.tick))) stale
    ]

-- Inside one transaction in which no call of the database fails and every new revision differs from
-- the directory's, once a name of a directory has been unlinked, that is no name of the directory
-- itself: loading the directory again gives what it gave before, and unlinking any name that it listed
-- before, from a copy of before, ends in a revision conflict.
pub unlink-twice :
    (p p' : Node) (name name' : Text) (x y : DirEntry) (deleted : Option Node) (es : List DirEntry)
    (e : Env) (w w' : World)
    → is_open w ≡ true
    → IsDirectory p es
    → ((t : ℕ) → e.fault t ≡ false)
    → ((t : ℕ) → e.ulid t ≢ p.stale_rev)
    → find_entry name es ≡ some x
    → x.inode_id ≢ p.id
    → find_entry name' es ≡ some y
    → unlink (some p) name e w ≡ (ok (p', deleted), w')
    → ((get p.id e w').0 ≡ (get p.id e w).0)
      × ((unlink (some p) name' e w').0 ≡ err Kind.revision_conflict)
unfolding unlink
unlink-twice p p' name name' x y deleted es e w w' begun d quiet new found apart found' h =
    let h' : unlink_body p name e w ≡ (ok (p', deleted), w') =
      sym (with_tx_open (unlink_body p name) e w begun) ∙ h in
    let (kept, still) =
      committed_kept (unlink_body p name) e w w' (ok (p', deleted)) (Isolated-unlink_body p name)
        begun h' in
    let (z, st, n, found_z, (t, rev), n_is, _, _, dropped) =
      unlink_body-ok p p' name deleted es e w w' begun d h' in
    let same : z ≡ x = ground (arith, found_z, found) in
    let n_id : n.id ≡ p.id = ap (λ (k : Node). k.id) n_is in
    let loaded : n.stale_rev ≡ p.stale_rev = ap (λ (k : Node). k.stale_rev) n_is in
    let drawn : n.rev ≡ e.ulid t = ap (λ (k : Node). k.rev) n_is ∙ rev in
    let rows = (view w).nodes in
    let row : (view w').nodes p.id ≡ some (stored n (rows n.id)) =
      Dropped-elsewhere w.committed.nodes (parent_saved rows n) (view w').nodes z.inode_id p.id
        deleted (λ k. apart (ap (λ (q : DirEntry). q.inode_id) (sym same) ∙ k)) dropped
      ∙ (ap (parent_saved rows n) (sym n_id) ∙ row_written rows n.id (stored n (rows n.id))) in
    (
      get-same p.id e w w' (quiet w.tick) (quiet w'.tick) kept,
      ap (λ (r : Result (Node × Option Node) × World). r.0)
            (with_tx_open (unlink_body p name') e w' still)
          ∙ unlink_stale p n name' y es (rows n.id) e w' d quiet found' row loaded
              (λ k. new t (sym drawn ∙ (k ∙ loaded))),
    )
