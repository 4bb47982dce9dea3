-- ===== src/Vfs/Remove/Garbage.antt =====
-- internal/vfs/rm.go: which objects rm gives to the garbage collector.
use mdrive.Prelude.{
  ℕ, ◌-◌, ◌<◌, ◌≡◌, ◌≢◌, refl, sym, ap, ◌∙◌, subst, true, false, ◌||◌, Option, none, some, List, [],
  ◌∷◌, Text, arith,
}
use mathlib.Core.Option.{some-injective}
use mdrive.Result.{Result, ok}
use mdrive.Node.Kinds.{NodeKind}
use mdrive.Node.Content.{DirEntry, ObjectContent, object_json}
use mdrive.Node.Inode.{Node}
use mdrive.Node.Dir.{find_entry}
use mdrive.Node.Dir.Listing.{IsDirectory}
use mdrive.World.Tables.{Db, Row, GarbageRef}
use mdrive.World.Action.{World, Env, view, pure, ◌>>=◌}
use mdrive.World.Keeps.{is_open, with_tx_open}
use mdrive.World.Reads.{Reads-ok}
use mdrive.Repo.{from_ent}
use mdrive.World.Inversion.{pure-value, >>=-elim}
use mdrive.NodeOp.Unlink.{unlink, unlink_body}
use mdrive.NodeOp.Unlink.Effect.{Dropped, parent_saved, unlink_body-ok}
use mdrive.NodeOp.Unlink.Outcome.{Dropped-others}
use mdrive.Vfs.Resolve.Reading.{Reads-resolve_parent}
use mdrive.Vfs.Resolve.{Cache, no_cache}
use mdrive.Prelude.{no_text}
use mdrive.Vfs.Service.{resolve_parent}
use mdrive.Vfs.Remove.{garbage_of, or_given, rm}

abbrev the_ref : ObjectContent → GarbageRef
the_ref o = record { bucket = o.bucket; key = o.key }

garbage_of-object :
    (n : Node) (o : ObjectContent)
    → n.kind ≡ NodeKind.object
    → n.content ≡ some (object_json o)
    → (no_text o.bucket || no_text o.key) ≡ false
    → garbage_of n ≡ the_ref o ∷ []
unfolding garbage_of
garbage_of-object n o kind content named = ground (arith, kind, content, named)

-- In a transaction, a call of rm that succeeded, of an object with a bucket and a key, where the parent
-- that the path resolves to is a well-formed directory that lists the name with the object's inode, and
-- the row of this inode in the committed table has more than one link: the row stays in the table of the
-- transaction, with one link less and still the object as its content, and yet the reference of the
-- object is the garbage.
pub rm-garbage :
    (root_id : ℕ) (path name : Text) (parent : Node) (c : Cache) (es : List DirEntry) (x : DirEntry)
    (r : Row) (o : ObjectContent) (refs : List GarbageRef) (e : Env) (w v w' : World)
    → is_open w ≡ true
    → resolve_parent root_id path no_cache e w ≡ (ok (parent, name, c), v)
    → IsDirectory parent es
    → find_entry name es ≡ some x
    → x.inode_id ≢ 0
    → w.committed.nodes x.inode_id ≡ some r
    → 1 < r.nlink
    → (from_ent x.inode_id r).kind ≡ NodeKind.object
    → r.content ≡ some (object_json o)
    → (no_text o.bucket || no_text o.key) ≡ false
    → rm root_id (from_ent x.inode_id r) path e w ≡ (ok refs, w')
    → (r' : Row) × ((view w').nodes x.inode_id ≡ some r')
      × (r'.nlink ≡ r.nlink - 1)
      × (r'.content ≡ some (object_json o))
      × (refs ≡ record { bucket = o.bucket; key = o.key } ∷ [])
unfolding rm unlink from_ent
rm-garbage root_id path name parent c es x r o refs e w v w' begun found d listed real there many
      kind content named h =
    let n = from_ent x.inode_id r in
    let (same, tx) =
      Reads-ok (resolve_parent root_id path no_cache) e w v (ok (parent, name, c))
        (Reads-resolve_parent root_id path no_cache) found in
    let opened : is_open v ≡ true =
      ap (λ (t : Option Db). elim t [ none ↦ false | some _ ↦ true ]) tx ∙ begun in
    let k : (unlink (some parent) name >>= λ out. pure (garbage_of (or_given n out.1))) e v
        ≡ (ok refs, w') =
      sym (rw found refl) ∙ h in
    >>=-elim (unlink (some parent) name) _ e v w' refs k λ out u h₁ k₁.
      let ran : unlink_body parent name e v ≡ (ok out, u) =
        sym (with_tx_open (unlink_body parent name) e v opened) ∙ h₁ in
      let (y, _, m, at_y, _, _, _, _, dropped) =
        unlink_body-ok parent out.0 name out.1 es e v u opened d ran in
      let is : x ≡ y = some-injective _ _ (sym listed ∙ at_y) in
      let id : x.inode_id ≡ y.inode_id = ap (λ (z : DirEntry). z.inode_id) is in
      let (kept, r', left, less, still) =
        Dropped-others v.committed.nodes (parent_saved (view v).nodes m) (view u).nodes x.inode_id
          out.1 r real (ap (λ (t : Db). t.nodes x.inode_id) same ∙ there) many
          (subst
            (λ (i : ℕ).
              Dropped v.committed.nodes (parent_saved (view v).nodes m) (view u).nodes i out.1)
            (sym id) dropped) in
      let last : u ≡ w' = ap (λ (z : Result (List GarbageRef) × World). z.1) k₁ in
      (
        r',
        ap (λ (z : World). (view z).nodes x.inode_id) (sym last) ∙ left,
        less,
        still ∙ content,
        sym (pure-value (garbage_of (or_given n out.1)) refs e u w' k₁)
            ∙ (ap (λ t. garbage_of (or_given n t)) kept ∙ garbage_of-object n o kind content named),
      )
