-- ===== src/Vfs/Service/Permitted.antt =====
-- internal/vfs/service.go: what ResolveForPermission answers, by where the walk stops.
use mdrive.Prelude.{
  ℕ, ◌≡◌, refl, sym, ap, ◌∙◌, true, false, Text, arith, Bool-cases, inl, inr, if◌then◌else◌,
}
use mdrive.Result.{Result, ok}
use mdrive.Node.Inode.{is_mount}
use mdrive.Node.Typed.{read_mount}
use mdrive.World.Action.{World, Env, pure, lift, ◌>>=◌}
use mdrive.World.Inversion.{>>=-elim, lift-ok}
use mdrive.Vfs.Resolve.{Cache, WalkResult, no_cache, resolve_path}
use mdrive.Vfs.Service.{PartialResolution, get_root_node_id, resolve_for_permission}

-- The answer for a walk that stopped: at a mount, the drive that is mounted there and what is left of the
-- path; elsewhere, the drive and the path that were asked for.
abbrev pub IsAnswer : Text → Text → WalkResult → PartialResolution → Type 0
IsAnswer drive_id path out res =
    (is_mount out.node ≡ false → (res.drive_id ≡ drive_id) × (res.path ≡ path))
    × (is_mount out.node ≡ true
        → (read_mount out.node ≡ ok res.drive_id) × (res.path ≡ out.remaining))

answered :
    (drive_id path : Text) (out : WalkResult) (res : PartialResolution) (e : Env) (w w' : World)
    → (if is_mount out.node
          then (do
            source ← lift (read_mount out.node)
            pure (record { drive_id = source; path = out.remaining }))
          else pure (record { drive_id = drive_id; path = path }))
        e w
      ≡ (ok res, w')
    → IsAnswer drive_id path out res × (w ≡ w')
answered drive_id path out res e w w' h = elim (Bool-cases (is_mount out.node)) [
  | inr other ↦
      let k : ◌≡◌ {A = Result PartialResolution × World}
          (ok (record { drive_id = drive_id; path = path }), w) (ok res, w') =
        sym (rw other refl) ∙ h in
      (
        (λ _. (cc k, cc k), λ yes. absurd (ground (arith, other, yes))),
        ap (λ (r : Result PartialResolution × World). r.1) k,
      )
  | inl here ↦
      let k : (lift (read_mount out.node) >>= λ source.
      pure (record { drive_id = source; path = out.remaining }))
            e w
          ≡ (ok res, w') =
        sym (rw here refl) ∙ h in
      >>=-elim (lift (read_mount out.node)) _ e w w' res k λ source u h₁ k₁.
        let (read, still) = lift-ok (read_mount out.node) e w u source h₁ in
        (
          (λ no. absurd (ground (arith, here, no)), λ _. (read ∙ cc k₁, cc k₁)),
          sym still ∙ ap (λ (r : Result PartialResolution × World). r.1) k₁,
        )
]

-- A ResolveForPermission that succeeded found the root of the drive and walked the path from there, and
-- its answer is by where the walk stopped.
pub resolve_for_permission-ok :
    (drive_id path : Text) (res : PartialResolution) (e : Env) (w w' : World)
    → resolve_for_permission drive_id path e w ≡ (ok res, w')
    → (root_id : ℕ) × (u : World) × (out : WalkResult) × (c : Cache) × (get_root_node_id drive_id e
          w
        ≡ (ok root_id, u))
      × (resolve_path root_id path true no_cache e u ≡ (ok (out, c), w'))
      × IsAnswer drive_id path out res
unfolding resolve_for_permission
resolve_for_permission-ok drive_id path res e w w' h =
    >>=-elim (get_root_node_id drive_id) _ e w w' res h λ root_id u h₁ k₁.
      >>=-elim (resolve_path root_id path true no_cache) _ e u w' res k₁ λ found v h₂ k₂.
        let (answer, still) = answered drive_id path found.0 res e v w' k₂ in
        (root_id, u, found.0, found.1, h₁, h₂ ∙ ap (λ (x : World). (ok found, x)) still, answer)
