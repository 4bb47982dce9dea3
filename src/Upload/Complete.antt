-- ===== src/Upload/Complete.antt =====
-- internal/upload/service.go: what CompleteUpload leaves, whether it succeeds or not.
use mdrive.Prelude.{
  ℕ, ◌≡◌, ◌≢◌, ◌⊎◌, inl, inr, refl, sym, ap, ◌∙◌, subst, Option, none, some, List, [], ◌∷◌, ◌++◌,
  Text, ℤ, =s=_refl,
}
use mdrive.Errorx.{Kind}
use mdrive.Result.{Result, ok, err}
use mdrive.Node.Kinds.{NodeKind}
use mdrive.Node.Content.{DirEntry, object_json}
use mdrive.Node.Inode.{Node}
use mdrive.Node.Dir.{find_entry, entry_of}
use mdrive.Node.Dir.Listing.{IsDirectory}
use mdrive.World.Tables.{Db, Row}
use mdrive.World.Action.{World, Env, view}
use mdrive.World.Tx.{with_tx}
use mdrive.World.Keeps.{begun, with_tx-Atomic}
use mdrive.World.Inversion.{with_tx-ok}
use mdrive.Repo.Locking.{HasRow}
use mdrive.NodeOp.Create.{get_by_id}
use mdrive.Vfs.Service.{resolve_parent_node_id}
use mdrive.Outside.{Site, Call, at, db, lift, pure, ◌>>=◌, ◌>>◌}
use mdrive.Outside.Silent.{>>=-elim, bind_assoc}
use mdrive.Upload.Tokens.{PresignMeta, TokenRegistry, Refines}
use mdrive.Upload.Store.{S3Api}
use mdrive.Upload.Body.{object_of, complete_body}
use mdrive.Upload.Body.Effect.{complete_body_lem, Isolated-complete_body}
use mdrive.Upload.Service.{Servers, ask_tokens, claim_token, complete_upload}
use mdrive.Upload.Claims.{IsClaimed, claim_token_ok, Silent-claim_token}

-- The path resolves to a name in a directory, in a transaction that has begun on the committed tables `c`
-- and has changed nothing.
abbrev pub Resolves : Text → Text → Env → Db → Text → Node → Type 0
Resolves drive_id path e c name parent =
    (parent_id : ℕ) × (w : World) × (v : World) × (v' : World) × (w.committed ≡ c)
    × (w.tx ≡ some c)
    × (resolve_parent_node_id drive_id path e w ≡ (ok (parent_id, name), v))
    × (get_by_id parent_id e v ≡ (ok parent, v'))

module _ (R : TokenRegistry) (O : S3Api) where
  same_node :
      (a b : Node) (s s' : Site (Servers R O))
      → ◌≡◌ {A = Result Node × Site (Servers R O)} (ok a, s) (ok b, s')
      → a ≡ b
  same_node a b s s' h = cc

  -- A CompleteUpload that succeeded outside of a transaction, over a registry that does what its
  -- clients rely on: the registry had a token under the id, of this user and this drive, whose promised
  -- size, if any, is the one claimed, and the object store had its object; the new inode is an object
  -- with the bucket and the key of the token; the path of the token resolved, in the transaction, to a
  -- name and a parent; if this is a well-formed directory other than the new inode, the name was free
  -- there, the row of the parent's id in the committed table lists what it listed and the inode last, the
  -- inode has its row too, and no other row has changed; and the token is gone.
  pub complete_upload_lem :
      {kept : ℕ → ℕ} (L : Refines R kept) (user_id drive_id upload_id : Text) (length : ℤ)
      (checksum : Option Text) (n : Node) (e : Env) (s s' : Site (Servers R O))
      → s.world.tx ≡ none
      → complete_upload R O user_id drive_id upload_id length checksum e s ≡ (ok n, s')
      → (m : PresignMeta) × IsClaimed R O user_id drive_id upload_id length e s m
        × (n.kind ≡ NodeKind.object)
        × (n.content ≡ some (object_json (object_of m checksum)))
        × (name : Text) × (parent : Node) × Resolves drive_id m.path e s.world.committed name parent
        × ((es : List DirEntry)
            → IsDirectory parent es
            → parent.id ≢ n.id
            → (find_entry name es ≡ none)
              × (p' : Node) × IsDirectory p' (es ++ entry_of name n ∷ [])
              × (p'.id ≡ parent.id)
              × HasRow s'.world.committed.nodes p'
              × HasRow s'.world.committed.nodes n
              × ((i : ℕ)
                  → i ≢ parent.id
                  → i ≢ n.id
                  → s'.world.committed.nodes i ≡ s.world.committed.nodes i))
        × (L.entry s'.servers.tokens upload_id ≡ none)
  unfolding complete_upload
  complete_upload_lem L user_id drive_id upload_id length checksum n e s s' closed h =
      >>=-elim (claim_token R O user_id drive_id upload_id length) _ e s s' n h λ m s₁ h₁ k₁.
        >>=-elim (db (with_tx (complete_body drive_id m length checksum))) _ e s₁ s' n k₁
          λ made s₂ h₂ k₂.
            >>=-elim (ask_tokens R O λ t. R.delete t upload_id) _ e s₂ s' n k₂ λ _ s₃ h₃ k₃.
              let m_is = claim_token_ok R O user_id drive_id upload_id length m e s s₁ h₁ in
              let (same, tx) = (Silent-claim_token R O user_id drive_id upload_id length).at e s in
              let reached : (claim_token R O user_id drive_id upload_id length e s).1 ≡ s₁ =
                ap (λ (r : Result PresignMeta × Site (Servers R O)). r.1) h₁ in
              let tables : s₁.world.committed ≡ s.world.committed =
                ap (λ (v : Site (Servers R O)). v.world.committed) (sym reached) ∙ same in
              let closed₁ : s₁.world.tx ≡ none =
                ap (λ (v : Site (Servers R O)). v.world.tx) (sym reached) ∙ (tx ∙ closed) in
              let ran : with_tx (complete_body drive_id m length checksum) e s₁.world
                  ≡ (ok made, s₂.world) =
                ap (λ (r : Result Node × Site (Servers R O)). (r.0, r.1.world)) h₂ in
              let (v, body, committed, _) =
                with_tx-ok (complete_body drive_id m length checksum) e s₁.world s₂.world made
                  closed₁ ran in
              let (kind, content, parent_id, name, parent, v₁, v₂, resolved, loaded, rows) =
                complete_body_lem drive_id m length checksum made e (begun s₁.world) v refl body in
              let is : made ≡ n = same_node made n s₃ s' k₃ in
              let end : s₃ ≡ s' = ap (λ (r : Result Node × Site (Servers R O)). r.1) k₃ in
              let deleted : (R.delete (at e s₂.world) upload_id s₂.servers.tokens).0 ≡ ok tt =
                ap (λ (r : Result (Unit {0}) × Site (Servers R O)). r.0) h₃ in
              let kept_world : s'.world.committed ≡ s₂.world.committed =
                ap (λ (v : Site (Servers R O)). v.world.committed) (sym end)
                ∙ ap (λ (r : Result (Unit {0}) × Site (Servers R O)). r.1.world.committed)
                    (sym h₃) in
              let after : s'.world.committed.nodes ≡ (view v).nodes =
                ap (λ (b : Db). b.nodes) (kept_world ∙ committed) in
              (
                m,
                m_is,
                ap (λ (x : Node). x.kind) (sym is) ∙ kind,
                ap (λ (x : Node). x.content) (sym is) ∙ content,
                name,
                parent,
                (parent_id, begun s₁.world, v₁, v₂, tables, ap some tables, resolved, loaded),
                λ es d apart.
                    let (free, p', listed, place, row_p, row_n, rest) =
                      rows es d (λ x. apart (x ∙ ap (λ (y : Node). y.id) is)) in
                    (
                      free,
                      p',
                      subst (λ (y : Node). IsDirectory p' (es ++ entry_of name y ∷ [])) is listed,
                      place,
                      subst (λ (t : ℕ → Option Row). HasRow t p') (sym after) row_p,
                      subst (λ (t : ℕ → Option Row). HasRow t n) (sym after)
                          (subst (λ (y : Node). HasRow (view v).nodes y) is row_n),
                      λ i x y.
                          ap (λ (t : ℕ → Option Row). t i) after
                          ∙ (rest i x (λ z. y (z ∙ ap (λ (q : Node). q.id) is))
                              ∙ ap (λ (b : Db). b.nodes i) tables),
                    ),
                ap (λ (v : Site (Servers R O)). L.entry v.servers.tokens upload_id) (sym end)
                    ∙ (ap
                          (λ (r : Result (Unit {0}) × Site (Servers R O)).
                            L.entry r.1.servers.tokens upload_id)
                          (sym h₃)
                        ∙ (L.delete-ok (at e s₂.world) upload_id upload_id s₂.servers.tokens deleted
                            ∙ rw (=s=_refl upload_id) refl)),
              )

  -- The token check and the transaction, in which all the changes of the tables are.
  abbrev pub claimed : Text → Text → Text → ℤ → Option Text → Call (Servers R O) Node
  claimed user_id drive_id upload_id length checksum = do
    m ← claim_token R O user_id drive_id upload_id length
    db (with_tx (complete_body drive_id m length checksum))

  abbrev Unchanged : {A : Type 0} → Site (Servers R O) → Result A × Site (Servers R O) → Type 0
  Unchanged s (r, s') = (k : Kind) → r ≡ err k → s'.world.committed ≡ s.world.committed

  claimed-Unchanged :
      (user_id drive_id upload_id : Text) (length : ℤ) (checksum : Option Text) (e : Env)
      (s : Site (Servers R O))
      → s.world.tx ≡ none
      → Unchanged s (claimed user_id drive_id upload_id length checksum e s)
  claimed-Unchanged user_id drive_id upload_id length checksum e s closed =
      let (same, tx) = (Silent-claim_token R O user_id drive_id upload_id length).at e s in
      go (claim_token R O user_id drive_id upload_id length e s).0 _ same (tx ∙ closed)
    where
      go :
          (r : Result PresignMeta) (s₁ : Site (Servers R O))
          → s₁.world.committed ≡ s.world.committed
          → s₁.world.tx ≡ none
          → Unchanged s
              ((lift r >>= λ m. db (with_tx (complete_body drive_id m length checksum))) e s₁)
      go (ok m) s₁ same none_open k h =
          (with_tx-Atomic (complete_body drive_id m length checksum) e s₁.world
              (Isolated-complete_body drive_id m length checksum) none_open).1
            k h
          ∙ same
      go (err j) s₁ same none_open k h = same

  -- A CompleteUpload, outside of a transaction, that returns an error leaves the committed tables as they
  -- were, unless the token was good, the transaction succeeded, and only the deletion of the token
  -- failed.
  pub complete_upload_err :
      (user_id drive_id upload_id : Text) (length : ℤ) (checksum : Option Text) (k : Kind) (e : Env)
      (s : Site (Servers R O))
      → s.world.tx ≡ none
      → (complete_upload R O user_id drive_id upload_id length checksum e s).0 ≡ err k
      → ((complete_upload R O user_id drive_id upload_id length checksum e s).1.world.committed
          ≡ s.world.committed)
        ⊎ ((n : Node) × (s' : Site (Servers R O)) × (claimed user_id drive_id upload_id length
                checksum e s
              ≡ (ok n, s'))
            × ((R.delete (at e s'.world) upload_id s'.servers.tokens).0 ≡ err k))
  unfolding complete_upload
  complete_upload_err user_id drive_id upload_id length checksum k e s closed h =
      let finish : Node → Call (Servers R O) Node =
        λ n. ask_tokens R O (λ t. R.delete t upload_id) >> pure n in
      let same : complete_upload R O user_id drive_id upload_id length checksum e s
          ≡ (claimed user_id drive_id upload_id length checksum >>= finish) e s =
        sym (
          bind_assoc (claim_token R O user_id drive_id upload_id length)
            (λ m. db (with_tx (complete_body drive_id m length checksum))) finish e s) in
      let c = claimed user_id drive_id upload_id length checksum e s in
      elim (go c.0 c.1 refl
        (claimed-Unchanged user_id drive_id upload_id length checksum e s closed)
        (ap (λ (r : Result Node × Site (Servers R O)). r.0) (sym same) ∙ h)) [
          | inl kept ↦
              inl (ap (λ (r : Result Node × Site (Servers R O)). r.1.world.committed) same ∙ kept)
          | inr later ↦ inr later
        ]
    where
      last :
          (r : Result (Unit {0})) (n : Node) (v : Site (Servers R O))
          → ((lift r >> pure n) e v).0 ≡ err k
          → r ≡ err k
      last (ok a) n v h' = cc
      last (err j) n v h' = ap (λ (x : Result Node). elim x [ ok _ ↦ err j | err i ↦ err i ]) h'

      go :
          (r : Result Node) (s' : Site (Servers R O))
          → claimed user_id drive_id upload_id length checksum e s ≡ (r, s')
          → Unchanged s (r, s')
          → ((lift r >>= λ n. ask_tokens R O (λ t. R.delete t upload_id) >> pure n) e s').0 ≡ err k
          → ((lift r >>= λ n. ask_tokens R O (λ t. R.delete t upload_id) >> pure n) e
                s').1.world.committed
              ≡ s.world.committed
            ⊎ ((n : Node) × (v : Site (Servers R O)) × (claimed user_id drive_id upload_id length
                    checksum e s
                  ≡ (ok n, v))
                × ((R.delete (at e v.world) upload_id v.servers.tokens).0 ≡ err k))
      go (ok n) s' is un h' =
          inr (n, s', is, last (R.delete (at e s'.world) upload_id s'.servers.tokens).0 n _ h')
      go (err j) s' is un h' = inl (un j refl)
