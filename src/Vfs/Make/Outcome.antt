-- ===== src/Vfs/Make/Outcome.antt =====
-- internal/vfs/mkdir.go: what Mkdir leaves in the database.
use mdrive.Prelude.{
  ℕ, suc, ◌+◌, ◌%◌, ◌^◌, ◌≡◌, ◌≢◌, refl, sym, ap, ◌∙◌, none, some, List, [], ◌∷◌, ◌++◌, Text,
}
use mdrive.Result.{Result, ok}
use mdrive.Node.Content.{DirEntry}
use mdrive.Node.Inode.{Node}
use mdrive.Node.Typed.{Seed}
use mdrive.Node.Dir.{find_entry, entry_of, new_directory}
use mdrive.Node.Dir.Listing.{IsDirectory, new_directory_lem}
use mdrive.World.Tables.{Db}
use mdrive.World.Action.{World, Env, Action, pure, ◌>>=◌, draw_seed, step}
use mdrive.World.Inversion.{>>=-elim, pure-value}
use mdrive.World.Reads.{Reads-ok}
use mdrive.Repo.Locking.{HasRow}
use mdrive.NodeOp.Link.{link}
use mdrive.NodeOp.Link.Effect.{link_lem}
use mdrive.Vfs.Service.{resolve_editable_parent}
use mdrive.Vfs.Resolve.Reading.{Reads-resolve_editable_parent}
use mdrive.Vfs.Make.{make_at, link_new, mkdir}

-- A bind whose first action is known to succeed.
>>=-run :
    {A B : Type 0} (m : Action A) (f : A → Action B) (e : Env) (w v : World) (a : A)
    → m e w ≡ (ok a, v)
    → (m >>= f) e w ≡ f a e v
>>=-run m f e w v a h = rw h refl

abbrev seed_at : Env → World → Seed
seed_at e v = record {
  id = e.uuid v.tick;
  born = record { now = e.now v.tick; rev = e.ulid v.tick };
  written = record { now = e.now (suc v.tick); rev = e.ulid (suc v.tick) };
}

-- Once the new node is made, what is left is the Link.
make_at_lem :
    (factory : Seed → Result Node) (parent n c : Node) (name : Text) (e : Env) (v w' : World)
    → factory (seed_at e v) ≡ ok n
    → make_at factory (parent, name) e v ≡ (ok c, w')
    → (p' : Node) × (link (some parent) name (some n) e (step (step v)) ≡ (ok (p', c), w'))
unfolding make_at draw_seed
make_at_lem factory parent n c name e v w' made h =
    let h' : (do (_, n') ← link (some parent) name (some n); pure n') e (step (step v))
        ≡ (ok c, w') =
      sym (rw made refl) ∙ h in
    >>=-elim (link (some parent) name (some n)) _ e (step (step v)) w' c h' λ ps u h₁ k₁.
      let child : ps.1 ≡ c = pure-value ps.1 c e u w' k₁ in
      let last : u ≡ w' = ap (λ (r : Result Node × World). r.1) k₁ in
      (ps.0, h₁ ∙ ap (λ (x : Node × World). (ok (ps.0, x.0), x.1)) (λ i. (child i, last i)))

-- A Mkdir that succeeded outside of a transaction, whose path resolves to a well-formed directory and a
-- name, and whose new id is not the directory's: the name was free; the new directory is well formed,
-- empty, and has one link; the parent, under its id, lists it last; both are in the committed table, and no other row
-- has changed.
pub mkdir_lem :
    (drive_id path name : Text) (parent c : Node) (es : List DirEntry) (e : Env) (w v w' : World)
    → w.tx ≡ none
    → resolve_editable_parent drive_id path e w ≡ (ok (parent, name), v)
    → IsDirectory parent es
    → parent.id ≢ e.uuid v.tick
    → mkdir drive_id path e w ≡ (ok c, w')
    → (find_entry name es ≡ none)
      × (c.id ≡ e.uuid v.tick)
      × IsDirectory c []
      × (c.nlink ≡ 1)
      × ((p' : Node) × IsDirectory p' (es ++ entry_of name c ∷ [])
          × (p'.id ≡ parent.id)
          × HasRow w'.committed.nodes p')
      × HasRow w'.committed.nodes c
      × ((i : ℕ) → i ≢ parent.id → i ≢ c.id → w'.committed.nodes i ≡ w.committed.nodes i)
unfolding mkdir link_new
mkdir_lem drive_id path name parent c es e w v w' closed resolved d fresh h =
    let (same, tx) =
      Reads-ok (resolve_editable_parent drive_id path) e w v (ok (parent, name))
        (Reads-resolve_editable_parent drive_id path) resolved in
    let (n, made, empty, n_id, none_yet) = new_directory_lem (seed_at e v) in
    let k : make_at new_directory (parent, name) e v ≡ (ok c, w') =
      sym (
        >>=-run (resolve_editable_parent drive_id path) (make_at new_directory) e w v (parent, name)
          resolved)
      ∙ h in
    let (p', linked) = make_at_lem new_directory parent n c name e v w' made k in
    let (free, p_dir, place, links, c_id, c_kind, c_content, p_row, c_row, others) =
      link_lem parent n p' c name es e (step (step v)) w' (tx ∙ closed) (λ x. fresh (x ∙ n_id)) d
        linked in
    let listed : entry_of name n ≡ entry_of name c =
      λ i. record { inode_id = sym c_id i; name = name; kind = sym c_kind i } in
    (
      free,
      c_id ∙ n_id,
      record {
        is_directory = c_kind ∙ empty.is_directory;
        holds = c_content ∙ empty.holds;
        distinct = empty.distinct;
        fits = empty.fits;
      },
      links ∙ ap (λ l. (l + 1) % 2 ^ 32) none_yet,
      (p', coe 0 1 (i. IsDirectory p' (es ++ listed i ∷ [])) p_dir, place, p_row),
      c_row,
      λ i x y. others i x (λ z. y (z ∙ sym c_id)) ∙ ap (λ (b : Db). b.nodes i) same,
    )
