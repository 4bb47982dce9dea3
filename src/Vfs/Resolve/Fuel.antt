-- ===== src/Vfs/Resolve/Fuel.antt =====
-- internal/vfs/path.go: the walk along symbolic links ends.
use mdrive.Prelude.{
  ℕ, zero, suc, ◌+◌, ◌≡◌, ◌≤◌, refl, Bool, true, false, ◌&&◌, List, [], ◌∷◌, ◌++◌, Text, arith, leb,
  ◌=s=◌, if◌then◌else◌, length,
}
use mdrive.Errorx.{Kind}
use mdrive.Result.{ok}
use mdrive.Node.Inode.{Node, is_mount, is_symlink}
use mdrive.Node.Typed.{readlink}
use mdrive.Node.Dir.{lookup}
use mdrive.World.Action.{World, Env, Action, lift, pure, raise_if, ◌>>=◌}
use mdrive.World.Inversion.{bind-same, raise_if-ok, pure-value, >>=-elim}
use mdrive.NodeOp.Unlink.{seen}
use mdrive.Vfs.Path.{is_dot, is_dotdot, slash, clean_path, split_path, join_parts}
use mdrive.Vfs.Resolve.{
  Cache, load_by_id, or_gone, entry_or_gone, max_symlink_depth, End, Turn, WalkResult, spliced,
  follow_link, pop, descend, take_part, go_on, walk, load_root, walk_from_root, end_with,
  resolve_inner,
}

-- Where a walk starts anew, one link more was visited, and at most 40 were.
abbrev Counted : List ℕ → End → Type 0
Counted visited (End.arrive r) = Unit
Counted visited (End.restart p visited') =
    (length visited' ≡ suc (length visited)) × (length visited' ≤ 40)

abbrev CountedTurn : List ℕ → Turn → Type 0
CountedTurn visited (Turn.finish end c) = Counted visited end
CountedTurn visited (Turn.proceed above cur c) = Unit

follow_link-Counted :
    (visited : List ℕ) (before rest : List Text) (link : Node) (cache : Cache) (e : Env)
    (w w' : World) (t : Turn)
    → follow_link visited before rest link cache e w ≡ (ok t, w')
    → CountedTurn visited t
unfolding follow_link
follow_link-Counted visited before rest link cache e w w' t h =
    let full = leb max_symlink_depth (length visited) in
    >>=-elim (raise_if full Kind.invalid_argument) _ e w w' t h λ a w₁ h₁ k₁.
      >>=-elim (raise_if (seen link.id visited) Kind.invalid_argument) _ e w₁ w' t k₁ λ b w₂ h₂ k₂.
        >>=-elim (lift (readlink link)) _ e w₂ w' t k₂ λ target w₃ h₃ k₃.
          let few : full ≡ false = (raise_if-ok full Kind.invalid_argument e w w₁ a h₁).0 in
          let end = End.restart (spliced before target rest) (link.id ∷ visited) in
          let last : Turn.finish end cache ≡ t = pure-value (Turn.finish end cache) t e w₃ w' k₃ in
          coe 0 1 (i. CountedTurn visited (last i)) (refl, ground (arith, few))

-- Where the child is known, the loop ends at a mount or at a link, or goes on.
reached-Counted :
    (mount link : Bool) (visited : List ℕ) (before rest : List Text) (above : List Node)
    (cur child : Node) (cache : Cache) (e : Env) (w w' : World) (t : Turn)
    → (if mount
          then pure (
              Turn.finish (End.arrive (record { node = child; remaining = join_parts rest })) cache)
          else if link
          then follow_link visited before rest child cache
          else pure (Turn.proceed (cur ∷ above) child cache))
        e w
      ≡ (ok t, w')
    → CountedTurn visited t
reached-Counted true link visited before rest above cur child cache e w w' t h =
    let end =
      Turn.finish (End.arrive (record { node = child; remaining = join_parts rest })) cache in
    coe 0 1 (i. CountedTurn visited (pure-value end t e w w' h i)) tt
reached-Counted false true visited before rest above cur child cache e w w' t h =
    follow_link-Counted visited before rest child cache e w w' t h
reached-Counted false false visited before rest above cur child cache e w w' t h =
    let on = Turn.proceed (cur ∷ above) child cache in
    coe 0 1 (i. CountedTurn visited (pure-value on t e w w' h i)) tt

descend-Counted :
    (follow : Bool) (visited : List ℕ) (before : List Text) (part : Text) (rest : List Text)
    (above : List Node) (cur : Node) (cache : Cache) (e : Env) (w w' : World) (t : Turn)
    → descend follow visited before part rest above cur cache e w ≡ (ok t, w')
    → CountedTurn visited t
unfolding descend
descend-Counted follow visited before part rest above cur cache e w w' t h =
    >>=-elim (lift (lookup part cur)) _ e w w' t h λ found w₁ h₁ k₁.
      >>=-elim (entry_or_gone found) _ e w₁ w' t k₁ λ x w₂ h₂ k₂.
        >>=-elim (or_gone (load_by_id x.inode_id cache)) _ e w₂ w' t k₂ λ loaded w₃ h₃ k₃.
          reached-Counted (is_mount loaded.0) (follow && is_symlink loaded.0) visited before rest
            above cur loaded.0 loaded.1 e w₃ w' t k₃

pop-Counted :
    (visited : List ℕ) (above : List Node) (cache : Cache) (e : Env) (w w' : World) (t : Turn)
    → pop above cache e w ≡ (ok t, w')
    → CountedTurn visited t
pop-Counted visited [] cache e w w' t h = absurd (ground arith)
pop-Counted visited (n ∷ above) cache e w w' t h =
    coe 0 1 (i. CountedTurn visited (pure-value (Turn.proceed above n cache) t e w w' h i)) tt

turned-Counted :
    (dot up follow : Bool) (visited : List ℕ) (before : List Text) (part : Text) (rest : List Text)
    (above : List Node) (cur : Node) (cache : Cache) (e : Env) (w w' : World) (t : Turn)
    → (if dot
          then pure (Turn.proceed above cur cache)
          else if up
          then pop above cache
          else descend follow visited before part rest above cur cache)
        e w
      ≡ (ok t, w')
    → CountedTurn visited t
turned-Counted true up follow visited before part rest above cur cache e w w' t h =
    coe 0 1 (i. CountedTurn visited (pure-value (Turn.proceed above cur cache) t e w w' h i)) tt
turned-Counted false true follow visited before part rest above cur cache e w w' t h =
    pop-Counted visited above cache e w w' t h
turned-Counted false false follow visited before part rest above cur cache e w w' t h =
    descend-Counted follow visited before part rest above cur cache e w w' t h

take_part-Counted :
    (follow : Bool) (visited : List ℕ) (before : List Text) (part : Text) (rest : List Text)
    (above : List Node) (cur : Node) (cache : Cache) (e : Env) (w w' : World) (t : Turn)
    → take_part follow visited before part rest above cur cache e w ≡ (ok t, w')
    → CountedTurn visited t
unfolding take_part
take_part-Counted follow visited before part rest above cur cache e w w' t h =
    turned-Counted (is_dot part) (is_dotdot part) follow visited before part rest above cur cache e
      w w' t h

go_on-Counted :
    (more : List Node → Node → Cache → Action (End × Cache)) (visited : List ℕ) (t : Turn) (e : Env)
    (v w' : World) (end : End) (c : Cache)
    → ((above : List Node) (cur : Node) (d : Cache)
        → more above cur d e v ≡ (ok (end, c), w')
        → Counted visited end)
    → CountedTurn visited t
    → go_on more t e v ≡ (ok (end, c), w')
    → Counted visited end
go_on-Counted more visited (Turn.finish end' c') e v w' end c rest n k =
    coe 0 1 (i. Counted visited (pure-value (end', c') (end, c) e v w' k i).0) n
go_on-Counted more visited (Turn.proceed above cur d) e v w' end c rest n k = rest above cur d k

walk-Counted :
    (follow : Bool) (visited : List ℕ) (before parts : List Text) (above : List Node) (cur : Node)
    (cache : Cache) (e : Env) (w w' : World) (end : End) (c : Cache)
    → walk follow visited before parts above cur cache e w ≡ (ok (end, c), w')
    → Counted visited end
unfolding walk
walk-Counted follow visited before [] above cur cache e w w' end c h =
    let here = End.arrive (record { node = cur; remaining = [] }) in
    coe 0 1 (i. Counted visited (pure-value (here, cache) (end, c) e w w' h i).0) tt
walk-Counted follow visited before (part ∷ rest) above cur cache e w w' end c h =
    let before' = before ++ part ∷ [] in
    >>=-elim (take_part follow visited before part rest above cur cache) _ e w w' (end, c) h
      λ t w₁ h₁ k₁.
        go_on-Counted (λ above' cur' d. walk follow visited before' rest above' cur' d) visited t e
          w₁ w' end c
          (λ above' cur' d k.
            walk-Counted follow visited before' rest above' cur' d e w₁ w' end c k)
          (take_part-Counted follow visited before part rest above cur cache e w w₁ t h₁) k₁

from_root-Counted :
    (root_id : ℕ) (follow : Bool) (visited : List ℕ) (cleaned : Text) (cache : Cache) (e : Env)
    (w w' : World) (end : End) (c : Cache)
    → walk_from_root root_id follow visited cleaned cache e w ≡ (ok (end, c), w')
    → Counted visited end
from_root-Counted root_id follow visited cleaned cache e w w' end c h =
    >>=-elim (or_gone (load_by_id root_id cache)) _ e w w' (end, c) h
      λ loaded w₁ h₁ k₁.
        walk-Counted follow visited [] (split_path cleaned) [] loaded.0 loaded.1 e w₁ w' end c k₁

end_with-same :
    (f g : Text → List ℕ → Cache → Action (WalkResult × Cache)) (visited : List ℕ) (end : End)
    (c : Cache) (e : Env) (v : World)
    → Counted visited end
    → ((p : Text) (visited' : List ℕ)
        → length visited' ≡ suc (length visited)
        → length visited' ≤ 40
        → f p visited' c e v ≡ g p visited' c e v)
    → end_with f (end, c) e v ≡ end_with g (end, c) e v
end_with-same f g visited (End.arrive r) c e v n same = refl
end_with-same f g visited (End.restart p visited') c e v n same = same p visited' n.0 n.1

walk_or_root-same :
    (at_root : Bool) (root_id : ℕ) (follow : Bool) (visited : List ℕ) (cleaned : Text)
    (cache : Cache) (f g : Text → List ℕ → Cache → Action (WalkResult × Cache)) (e : Env)
    (w : World)
    → ((p : Text) (visited' : List ℕ) (c : Cache) (v : World)
        → length visited' ≡ suc (length visited)
        → length visited' ≤ 40
        → f p visited' c e v ≡ g p visited' c e v)
    → (if at_root
          then load_root root_id cache
          else walk_from_root root_id follow visited cleaned cache >>= end_with f)
        e w
      ≡ (if at_root
            then load_root root_id cache
            else walk_from_root root_id follow visited cleaned cache >>= end_with g)
          e w
walk_or_root-same true root_id follow visited cleaned cache f g e w same = refl
walk_or_root-same false root_id follow visited cleaned cache f g e w same =
    bind-same (walk_from_root root_id follow visited cleaned cache) (end_with f) (end_with g) e w
      λ x v h.
        end_with-same f g visited x.0 x.1 e v
          (from_root-Counted root_id follow visited cleaned cache e w v x.0 x.1 h)
          (λ p visited' n m. same p visited' x.1 v n m)

-- The resolver follows at most 40 symbolic links: of a resolution that has visited at most 40, the
-- result is the same on any two amounts of fuel that are at least 41 together with the links visited.
pub resolve_inner_fuel :
    (fuel fuel' root_id : ℕ) (p : Text) (follow : Bool) (visited : List ℕ) (cache : Cache) (e : Env)
    (w : World)
    → length visited ≤ 40
    → 41 ≤ fuel + length visited
    → 41 ≤ fuel' + length visited
    → resolve_inner fuel root_id p follow visited cache e w
      ≡ resolve_inner fuel' root_id p follow visited cache e w
unfolding resolve_inner
resolve_inner_fuel zero fuel' root_id p follow visited cache e w few a b = absurd (omega arith)
resolve_inner_fuel (suc fuel) zero root_id p follow visited cache e w few a b = absurd (omega arith)
resolve_inner_fuel (suc fuel) (suc fuel') root_id p follow visited cache e w few a b =
    walk_or_root-same (clean_path p =s= slash) root_id follow visited (clean_path p) cache
      (λ p' visited' c. resolve_inner fuel root_id p' follow visited' c)
      (λ p' visited' c. resolve_inner fuel' root_id p' follow visited' c) e w
      λ p' visited' c v n m.
        resolve_inner_fuel fuel fuel' root_id p' follow visited' c e v m (omega (arith, n, a))
          (omega (arith, n, b))
