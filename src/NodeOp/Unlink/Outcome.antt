-- ===== src/NodeOp/Unlink/Outcome.antt =====
-- internal/core/node/operation.go: the database after an Unlink that succeeded outside of a
-- transaction.
use mdrive.Prelude.{
  ℕ, ◌-◌, ◌<◌, arith, ◌≡◌, ◌≢◌, refl, sym, ap, ◌∙◌, Option, none, some, List, Text,
}
use mathlib.Core.Option.{some-injective}
use mdrive.Result.{ok}
use mdrive.Node.Content.{DirEntry}
use mdrive.Node.Inode.{Node}
use mdrive.Node.Dir.{find_entry, without}
use mdrive.Node.Dir.Listing.{IsDirectory}
use mdrive.World.Tables.{Db, Row}
use mdrive.World.Action.{World, Env, view}
use mdrive.World.Keeps.{begun}
use mdrive.World.Inversion.{with_tx-ok}
use mdrive.Repo.Locking.{stored, HasRow, HasRow-written, row_kept, row_written}
use mdrive.Repo.Calls.{deleted_elsewhere}
use mdrive.NodeOp.Link.Effect.{saved-IsDirectory}
use mdrive.NodeOp.Unlink.{unlink_body, unlink}
use mdrive.NodeOp.Unlink.Effect.{
  Dropped, no_inode, last_name, other_names, parent_saved, unlink_body-ok,
}

-- What becomes of one inode is no other row's business.
pub Dropped-elsewhere :
    (loaded old new : ℕ → Option Row) (id j : ℕ) (deleted : Option Node)
    → id ≢ j
    → Dropped loaded old new id deleted
    → new j ≡ old j
Dropped-elsewhere loaded old new id j deleted ne (no_inode _ _ same) = ap (λ t. t j) same
Dropped-elsewhere loaded old new id j deleted ne (last_name r _ _ _ gone) =
    ap (λ t. t j) gone ∙ deleted_elsewhere old id j ne
Dropped-elsewhere loaded old new id j deleted ne (other_names r r' _ _ _ _ _ put) =
    ap (λ t. t j) put ∙ row_kept old id j r' ne

-- Of the inode of a name, where others are left.
pub Dropped-others :
    (loaded old new : ℕ → Option Row) (id : ℕ) (deleted : Option Node) (r : Row)
    → id ≢ 0
    → loaded id ≡ some r
    → 1 < r.nlink
    → Dropped loaded old new id deleted
    → (deleted ≡ none)
      × (r' : Row) × (new id ≡ some r')
      × (r'.nlink ≡ r.nlink - 1)
      × (r'.content ≡ r.content)
Dropped-others loaded old new id deleted r real there many (no_inode nil _ _) = absurd (real nil)
Dropped-others loaded old new id deleted r real there many (last_name x found one _ _) =
    let is : x ≡ r = some-injective _ _ (sym found ∙ there) in
    let links : x.nlink ≡ r.nlink = ap (λ (y : Row). y.nlink) is in
    absurd (omega (arith, links, one, many))
Dropped-others loaded old new id deleted r real there many
      (other_names x r' found _ kept less same put) =
    let is : x ≡ r = some-injective _ _ (sym found ∙ there) in
    (
      kept,
      r',
      ap (λ t. t id) put ∙ row_written old id r',
      less ∙ ap (λ (y : Row). y.nlink - 1) is,
      same ∙ ap (λ (y : Row). y.content) is,
    )

-- An Unlink that succeeded outside of a transaction: the name was there; the directory keeps its id, is
-- well formed and lists what it listed but the name; first the row of the directory was written and no other, and
-- then the inode of the entry lost a link, or its row if that was its last, or nothing if the entry
-- had the nil UUID. The directory is in the committed table, unless it was its own entry, and so is
-- every row but the two as it was.
pub unlink_lem :
    (p p' : Node) (name : Text) (deleted : Option Node) (es : List DirEntry) (e : Env)
    (w w' : World)
    → w.tx ≡ none
    → IsDirectory p es
    → unlink (some p) name e w ≡ (ok (p', deleted), w')
    → (x : DirEntry) × (find_entry name es ≡ some x)
      × IsDirectory p' (without name es)
      × (p'.id ≡ p.id)
      × ((mid : ℕ → Option Row) × HasRow mid p'
          × ((i : ℕ) → i ≢ p.id → mid i ≡ w.committed.nodes i)
          × Dropped w.committed.nodes mid w'.committed.nodes x.inode_id deleted)
      × (x.inode_id ≢ p.id → HasRow w'.committed.nodes p')
      × ((i : ℕ) → i ≢ p.id → x.inode_id ≢ i → w'.committed.nodes i ≡ w.committed.nodes i)
unfolding unlink
unlink_lem p p' name deleted es e w w' closed d h =
    let (v, ran, tables, _) = with_tx-ok (unlink_body p name) e w w' (p', deleted) closed h in
    let (x, st, n, found, _, n_is, is, dir, dropped) =
      unlink_body-ok p p' name deleted es e (begun w) v refl d ran in
    let n_id : n.id ≡ p.id = ap (λ (m : Node). m.id) n_is in
    let mid = parent_saved w.committed.nodes n in
    let rows : w'.committed.nodes ≡ (view v).nodes = ap (λ (b : Db). b.nodes) tables in
    let p_id : p'.id ≡ p.id = ap (λ (m : Node). m.id) is ∙ n_id in
    let row : HasRow mid p' = rw is (HasRow-written w.committed.nodes n (w.committed.nodes n.id)) in
    let out : Dropped w.committed.nodes mid w'.committed.nodes x.inode_id deleted =
      rw rows dropped in
    (
      x,
      found,
      rw is (saved-IsDirectory n (without name es) dir),
      p_id,
      (
        mid,
        row,
        λ i away.
            row_kept w.committed.nodes n.id i (stored n (w.committed.nodes n.id))
              (λ k. away (sym k ∙ n_id)),
        out,
      ),
      λ ne.
          let (r, there, reads) = row in
          (
            r,
            Dropped-elsewhere _ mid w'.committed.nodes x.inode_id p'.id deleted (λ k. ne (k ∙ p_id))
                  out
                ∙ there,
            reads,
          ),
      λ i away ne.
          Dropped-elsewhere _ mid w'.committed.nodes x.inode_id i deleted ne out
          ∙ row_kept w.committed.nodes n.id i (stored n (w.committed.nodes n.id))
              (λ k. away (sym k ∙ n_id)),
    )
