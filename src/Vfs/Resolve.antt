-- ===== src/Vfs/Resolve.antt =====
-- internal/vfs/path.go: the resolver. A resolver is the cache that its calls hand on; two loads of an
-- id through one cache give the same node, as they give the same pointer in Go.
pub mod Fuel
pub mod Reading
use mdrive.Prelude.{
  ℕ, zero, suc, Bool, true, false, ◌&&◌, Option, none, some, List, [], ◌∷◌, ◌++◌, Text, codes, leb,
  ◌==◌, ◌=s=◌, if◌then◌else◌, length,
}
use mdrive.Errorx.{Kind}
use mdrive.Result.{ok, err}
use mdrive.Node.Content.{DirEntry}
use mdrive.Node.Inode.{Node, is_mount, is_symlink}
use mdrive.Node.Typed.{readlink}
use mdrive.Node.Dir.{lookup}
use mdrive.World.Action.{Action, pure, raise, raise_if, lift, ◌>>=◌, ◌>>◌}
use mdrive.NodeOp.Create.{get_by_id}
use mdrive.NodeOp.Unlink.{seen}
use mdrive.Vfs.Path.{
  is_dot, is_dotdot, slash, is_slash, join_parts, path_clean, clean_path, split_path,
}

-- resolver
abbrev pub Cache : Type 0
Cache = ℕ → Option Node

-- newResolver
abbrev pub no_cache : Cache
no_cache id = none

abbrev pub cached : ℕ → Node → Cache → Cache
cached id n cache j = if id == j then some n else cache j

-- loadByID
abbrev pub load_if_missing : ℕ → Cache → Option Node → Action (Node × Cache)
load_if_missing id cache (some n) = pure (n, cache)
load_if_missing id cache none = do n ← get_by_id id; pure (n, cached id n cache)

unfoldable pub load_by_id : ℕ → Cache → Action (Node × Cache)
load_by_id id cache = load_if_missing id cache (cache id)

-- walkResult
pub record WalkResult : Type 0 where
  pub node : Node
  pub remaining : Text

-- `if err != nil { return not found }`
unfoldable pub or_gone : {A : Type 0} → Action A → Action A
or_gone m e w = let (r, w') = m e w in (elim r [ ok a ↦ ok a | err _ ↦ err Kind.not_found ], w')

abbrev pub entry_or_gone : Option DirEntry → Action DirEntry
entry_or_gone none = raise Kind.not_found
entry_or_gone (some e) = pure e

-- maxSymlinkDepth
abbrev pub max_symlink_depth : ℕ
max_symlink_depth = 40

-- The path that takes the place of a symbolic link: `before` are the components in front of it.
abbrev pub has_prefix_slash : Text → Bool
has_prefix_slash [] = false
has_prefix_slash (c ∷ s) = is_slash c

abbrev pub then_suffix : Text → Text → Text
then_suffix head [] = head
then_suffix head (c ∷ s) = head ++ 0x2f ∷ c ∷ s

abbrev pub or_slash : Text → Text
or_slash [] = slash
or_slash (c ∷ s) = c ∷ s

unfoldable pub spliced : List Text → Text → List Text → Text
unfolding join_parts path_clean
spliced before target rest =
    if has_prefix_slash target
    then then_suffix target (join_parts rest)
    else path_clean (then_suffix (or_slash (join_parts before) ++ 0x2f ∷ target) (join_parts rest))

-- How the loop over the components ends: with a result, or with a new walk along another path.
pub data End : Type 0 where
  arrive : WalkResult → End
  restart : Text → List ℕ → End

-- What the loop does with one component: it ends, or goes on below another node.
pub data Turn : Type 0 where
  finish : End → Cache → Turn
  proceed : List Node → Node → Cache → Turn

-- The branch of a symbolic link.
unfoldable pub follow_link : List ℕ → List Text → List Text → Node → Cache → Action Turn
unfolding seen readlink spliced
follow_link visited before rest link cache = do
  raise_if (leb max_symlink_depth (length visited)) Kind.invalid_argument
  raise_if (seen link.id visited) Kind.invalid_argument
  target ← lift (readlink link)
  pure (Turn.finish (End.restart (spliced before target rest) (link.id ∷ visited)) cache)

-- `above` are the nodes of `parents` over the current one, the nearest first.
abbrev pub pop : List Node → Cache → Action Turn
pop [] cache = raise Kind.invalid_argument
pop (n ∷ above) cache = pure (Turn.proceed above n cache)

unfoldable pub descend :
    Bool → List ℕ → List Text → Text → List Text → List Node → Node → Cache → Action Turn
unfolding lookup load_by_id or_gone follow_link is_mount is_symlink
descend follow visited before part rest above cur cache = do
  found ← lift (lookup part cur)
  e ← entry_or_gone found
  (child, cache') ← or_gone (load_by_id e.inode_id cache)
  if is_mount child
      then pure
          (Turn.finish (End.arrive (record { node = child; remaining = join_parts rest })) cache')
      else if follow && is_symlink child
      then follow_link visited before rest child cache'
      else pure (Turn.proceed (cur ∷ above) child cache')

unfoldable pub take_part :
    Bool → List ℕ → List Text → Text → List Text → List Node → Node → Cache → Action Turn
unfolding descend ◌=s=◌
take_part follow visited before part rest above cur cache =
    if is_dot part
    then pure (Turn.proceed above cur cache)
    else if is_dotdot part
    then pop above cache
    else descend follow visited before part rest above cur cache

-- What the loop does behind one component.
abbrev pub go_on : (List Node → Node → Cache → Action (End × Cache)) → Turn → Action (End × Cache)
go_on more (Turn.finish end c) = pure (end, c)
go_on more (Turn.proceed above cur c) = more above cur c

-- The loop over the components.
unfoldable pub walk :
    Bool → List ℕ → List Text → List Text → List Node → Node → Cache → Action (End × Cache)
unfolding take_part
walk follow visited before [] above cur cache =
    pure (End.arrive (record { node = cur; remaining = [] }), cache)
walk follow visited before (part ∷ rest) above cur cache =
    take_part follow visited before part rest above cur cache
    >>= go_on (λ above' cur' c. walk follow visited (before ++ part ∷ []) rest above' cur' c)

abbrev pub load_root : ℕ → Cache → Action (WalkResult × Cache)
load_root root_id cache = do
  (n, c) ← load_by_id root_id cache
  pure (record { node = n; remaining = [] }, c)

abbrev pub walk_from_root : ℕ → Bool → List ℕ → Text → Cache → Action (End × Cache)
walk_from_root root_id follow visited cleaned cache = do
  (root, c) ← or_gone (load_by_id root_id cache)
  walk follow visited [] (split_path cleaned) [] root c

abbrev pub end_with :
    (Text → List ℕ → Cache → Action (WalkResult × Cache))
    → End × Cache
    → Action (WalkResult × Cache)
end_with again (End.arrive r, c) = pure (r, c)
end_with again (End.restart p visited, c) = again p visited c

-- resolvePathInner, on fuel: each restart takes one from it.
unfoldable pub resolve_inner : ℕ → ℕ → Text → Bool → List ℕ → Cache → Action (WalkResult × Cache)
unfolding clean_path split_path load_by_id or_gone walk
resolve_inner zero root_id p follow visited cache = raise Kind.invalid_argument
resolve_inner (suc fuel) root_id p follow visited cache =
    if clean_path p =s= slash
    then load_root root_id cache
    else walk_from_root root_id follow visited (clean_path p) cache
      >>= end_with (λ p' visited' c. resolve_inner fuel root_id p' follow visited' c)

-- resolvePath
unfoldable pub resolve_path : ℕ → Text → Bool → Cache → Action (WalkResult × Cache)
unfolding resolve_inner
resolve_path root_id p follow cache = resolve_inner 41 root_id p follow [] cache
