-- ===== src/Upload/Body/Effect.antt =====
-- internal/upload/service.go: what the transaction of CompleteUpload leaves.
use mdrive.Prelude.{
  ℕ, ◌≡◌, ◌≢◌, sym, ap, ◌∙◌, true, Option, none, some, List, [], ◌∷◌, ◌++◌, Text, ℤ, arith,
}
use mdrive.Result.{Result, ok, err}
use mdrive.Node.Kinds.{NodeKind}
use mdrive.Node.Content.{DirEntry, ObjectContent, object_json}
use mdrive.Node.Inode.{Node}
use mdrive.Node.Typed.{Seed, new_object}
use mdrive.Node.Dir.{find_entry, entry_of}
use mdrive.Node.Dir.Listing.{IsDirectory}
use mdrive.World.Tables.{Db}
use mdrive.World.Reads.{Reads, Reads-view, Reads-draw_seed, reads_rules}
use mdrive.Vfs.Resolve.Reading.{Reads-get_by_id, Reads-get_root_node_id, Reads-resolve_parent}
use mdrive.World.Action.{World, Env, Action, lift, ◌>>=◌, draw_seed, view}
use mdrive.World.Keeps.{is_open, with_tx_open, Isolated, Isolated-with_tx}
use mdrive.World.Inversion.{>>=-elim, lift-ok}
use mdrive.Repo.{save}
use mdrive.Repo.Locking.{HasRow, save-view, stored, row_kept, Isolated-delete}
use mdrive.NodeOp.Create.{or_internal, create, create_object, get_by_id, delete_node}
use mdrive.NodeOp.Link.{link, linked, link_body}
use mdrive.NodeOp.Link.Effect.{link_body-ok, link_body_lem}
use mdrive.NodeOp.Atomic.{repo_rules, Isolated-link_body}
use mdrive.NodeOp.Unlink.Effect.{committed_kept}
use mdrive.Vfs.Remove.Atomic.{
  Isolated-get_by_id, Isolated-resolve_parent, Isolated-get_root_node_id,
}
use mdrive.Vfs.Service.{resolve_parent_node_id}
use mdrive.Upload.Tokens.{PresignMeta}
use mdrive.Upload.Body.{object_of, linked_or_deleted, complete_body}

new_object_ok :
    (sd : Seed) (o : ObjectContent) (size : ℤ) (n : Node)
    → new_object sd o size ≡ ok n
    → (n.kind ≡ NodeKind.object) × (n.content ≡ some (object_json o))
unfolding new_object
new_object_ok sd o size n h = ground arith

or_internal_ok : (r : Result Node) (n : Node) → or_internal r ≡ ok n → r ≡ ok n
or_internal_ok (ok x) n h = h
or_internal_ok (err k) n h = absurd (ground arith)

create_object_ok :
    (o : ObjectContent) (size : ℤ) (n : Node) (e : Env) (w w' : World)
    → create_object o size e w ≡ (ok n, w')
    → (n.kind ≡ NodeKind.object)
      × (n.content ≡ some (object_json o))
      × ((i : ℕ) → i ≢ n.id → (view w').nodes i ≡ (view w).nodes i)
unfolding create_object create
create_object_ok o size n e w w' h =
    let factory : Seed → Action Node = λ sd. lift (or_internal (new_object sd o size)) in
    >>=-elim draw_seed (λ sd. factory sd >>= save) e w w' n h
      λ sd w₁ h₁ k₁. >>=-elim (factory sd) save e w₁ w' n k₁ λ m w₂ h₂ k₂.
        let (made, still) = lift-ok (or_internal (new_object sd o size)) e w₁ w₂ m h₂ in
        let (kind, content) =
          new_object_ok sd o size m (or_internal_ok (new_object sd o size) m made) in
        let (_, is, rows) = save-view m n e w₂ w' k₂ in
        let seeded = (Reads-view draw_seed e w w₁ (ok sd) Reads-draw_seed h₁) in
        let id : n.id ≡ m.id = ap (λ (x : Node). x.id) is in
        (
          cc,
          cc,
          λ i ne.
              ap (λ t. t i) rows
              ∙ (row_kept (view w₂).nodes m.id i (stored m ((view w₂).nodes m.id))
                    (λ x. ne (sym x ∙ sym id))
                  ∙ ap (λ (d : Db). d.nodes i) (ap view still ∙ seeded)),
        )

linked_or_deleted_ok :
    (id : ℕ) (r : Result (Node × Node)) (n : Node) (e : Env) (w w' : World)
    → linked_or_deleted id r e w ≡ (ok n, w')
    → (p : Node) × (r ≡ ok (p, n)) × (w ≡ w')
linked_or_deleted_ok id (ok (p, c)) n e w w' h =
    (p, ap (λ (x : Result Node × World). go x.0) h, ap (λ (x : Result Node × World). x.1) h)
  where
    go : Result Node → Result (Node × Node)
    go (ok n) = ok (p, n)
    go (err k) = err k
linked_or_deleted_ok id (err k) n e w w' h = cc

Isolated-resolve_parent_node_id :
    (drive_id path : Text) → Isolated (resolve_parent_node_id drive_id path)
unfolding resolve_parent_node_id
Isolated-resolve_parent_node_id drive_id path =
    search (repo_rules, Isolated-get_root_node_id, Isolated-resolve_parent) depth 14

Reads-resolve_parent_node_id : (drive_id path : Text) → Reads (resolve_parent_node_id drive_id path)
unfolding resolve_parent_node_id
Reads-resolve_parent_node_id drive_id path =
    search (reads_rules, Reads-get_root_node_id, Reads-resolve_parent) depth 14

Isolated-create_object : (o : ObjectContent) (size : ℤ) → Isolated (create_object o size)
unfolding create_object create
Isolated-create_object o size = search repo_rules depth 14

link_body_keeps :
    (p c p' c' : Node) (name : Text) (e : Env) (w w' : World)
    → link_body p name c e w ≡ (ok (p', c'), w')
    → (c'.kind ≡ c.kind) × (c'.content ≡ c.content)
unfolding linked
link_body_keeps p c p' c' name e w w' ran =
    let (_, _, _, _, _, is, _) = link_body-ok p c p' c' name e w w' ran in (rw is, rw is)

link_body_id :
    (p c p' c' : Node) (name : Text) (e : Env) (w w' : World)
    → link_body p name c e w ≡ (ok (p', c'), w')
    → c'.id ≡ c.id
unfolding linked
link_body_id p c p' c' name e w w' ran =
    let (_, _, _, _, _, is, _) = link_body-ok p c p' c' name e w w' ran in rw is

-- The transaction of CompleteUpload, where it succeeds: it made an object for the token, with the
-- bucket and the key of the token, and if the path resolves to a well-formed directory, other than the
-- new inode, then its name was free, the rows of the new inode and of the directory, which now lists it
-- last, are in the tables of the transaction, and no other row has changed.
pub complete_body_lem :
    (drive_id : Text) (m : PresignMeta) (length : ℤ) (checksum : Option Text) (n : Node) (e : Env)
    (w w' : World)
    → is_open w ≡ true
    → complete_body drive_id m length checksum e w ≡ (ok n, w')
    → (n.kind ≡ NodeKind.object)
      × (n.content ≡ some (object_json (object_of m checksum)))
      × (parent_id : ℕ) × (name : Text) × (parent : Node) × (v v' : World) × (resolve_parent_node_id
            drive_id m.path e w
          ≡ (ok (parent_id, name), v))
      × (get_by_id parent_id e v ≡ (ok parent, v'))
      × ((es : List DirEntry)
          → IsDirectory parent es
          → parent.id ≢ n.id
          → (find_entry name es ≡ none)
            × (p' : Node) × IsDirectory p' (es ++ entry_of name n ∷ [])
            × (p'.id ≡ parent.id)
            × HasRow (view w').nodes p'
            × HasRow (view w').nodes n
            × ((i : ℕ) → i ≢ parent.id → i ≢ n.id → (view w').nodes i ≡ (view w).nodes i))
unfolding complete_body link
complete_body_lem drive_id m length checksum n e w w' begun h =
    >>=-elim (resolve_parent_node_id drive_id m.path) _ e w w' n h λ found w₁ h₁ k₁.
      >>=-elim (get_by_id found.0) _ e w₁ w' n k₁ λ parent w₂ h₂ k₂.
        >>=-elim (create_object (object_of m checksum) length) _ e w₂ w' n k₂ λ created w₃ h₃ k₃.
          let (p', linked, last) =
            linked_or_deleted_ok created.id (link (some parent) found.1 (some created) e w₃).0 n e _
              w' k₃ in
          let (kind, content, others) =
            create_object_ok (object_of m checksum) length created e w₂ w₃ h₃ in
          let (_, o₁) =
            committed_kept (resolve_parent_node_id drive_id m.path) e w w₁ (ok found)
              (Isolated-resolve_parent_node_id drive_id m.path) begun h₁ in
          let (_, o₂) =
            committed_kept (get_by_id found.0) e w₁ w₂ (ok parent) (Isolated-get_by_id found.0) o₁
              h₂ in
          let (_, o₃) =
            committed_kept (create_object (object_of m checksum) length) e w₂ w₃ (ok created)
              (Isolated-create_object (object_of m checksum) length) o₂ h₃ in
          let ran : link_body parent found.1 created e w₃ ≡ (ok (p', n), w') =
            sym (with_tx_open (link_body parent found.1 created) e w₃ o₃)
            ∙ (λ i. (linked i, last i)) in
          let (same_kind, same_content) = link_body_keeps parent created p' n found.1 e w₃ w' ran in
          (
            same_kind ∙ kind,
            same_content ∙ content,
            found.0,
            found.1,
            parent,
            w₁,
            w₂,
            h₁,
            h₂,
            λ es d apart.
                let same_id = link_body_id parent created p' n found.1 e w₃ w' ran in
                let (free, listed, place, _, _, _, _, row_p, row_n, rest) =
                  link_body_lem parent created p' n found.1 es e w₃ w'
                    (λ x. apart (x ∙ sym same_id)) d ran in
                (
                  free,
                  p',
                  coe 0 1
                      (i. IsDirectory p' (
                        es
                        ++ record {
                          inode_id = sym same_id i;
                          name = found.1;
                          kind = sym same_kind i;
                        }
                          ∷ []))
                      listed,
                  place,
                  row_p,
                  row_n,
                  λ i x y.
                      rest i x (λ z. y (z ∙ sym same_id))
                      ∙ (others i (λ z. y (z ∙ sym same_id))
                          ∙ ap (λ (t : Db). t.nodes i)
                              (Reads-view (get_by_id found.0) e w₁ w₂ (ok parent)
                                  (Reads-get_by_id found.0) h₂
                                ∙ Reads-view (resolve_parent_node_id drive_id m.path) e w w₁
                                    (ok found) (Reads-resolve_parent_node_id drive_id m.path) h₁)),
                ),
          )

either_way :
    (id : ℕ) (r : Result (Node × Node)) (e : Env) (w v : World)
    → (v.committed ≡ w.committed) × (is_open v ≡ true)
    → let w' = (linked_or_deleted id r e v).1 in (w'.committed ≡ w.committed) × (is_open w' ≡ true)
unfolding delete_node
either_way id (ok (p, c)) e w v kept = kept
either_way id (err k) e w v (same, o) =
    let (c, o') = (Isolated-delete id).at e v o in (c ∙ same, o')

Isolated-linked_or_deleted :
    (id : ℕ) (parent created : Node) (name : Text)
    → Isolated (λ e w.
      let (r, w') = link (some parent) name (some created) e w in linked_or_deleted id r e w')
unfolding link
Isolated-linked_or_deleted id parent created name = record {
  at = λ e w o. either_way id _ e w (link (some parent) name (some created) e w).1 (
      (Isolated-with_tx (link_body parent name created) (Isolated-link_body parent created name)).at
        e w o);
}

pub Isolated-complete_body :
    (drive_id : Text) (m : PresignMeta) (length : ℤ) (checksum : Option Text)
    → Isolated (complete_body drive_id m length checksum)
unfolding complete_body
Isolated-complete_body drive_id m length checksum =
    search
      (
        repo_rules, Isolated-resolve_parent_node_id, Isolated-create_object,
        Isolated-linked_or_deleted,
      )
      depth 22
