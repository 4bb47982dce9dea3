-- ===== src/NodeOp/Create.antt =====
-- internal/core/node/operation.go: create and its callers, GetByID, Save and Delete.
use mdrive.Prelude.{ℕ, Option, none, some, [], Text, ℤ}
use mdrive.Errorx.{Kind}
use mdrive.Result.{Result, ok, err}
use mdrive.Node.Inode.{Node}
use mdrive.Node.Content.{ObjectContent}
use mdrive.Node.Typed.{Seed, new_file, new_symlink, new_object, new_mount}
use mdrive.Node.Dir.{new_directory}
use mdrive.World.Action.{Action, raise, lift, ◌>>=◌, draw_seed}
use mdrive.Repo.{get, save, delete}

-- Every error of a factory becomes an internal error.
abbrev pub or_internal : Result Node → Result Node
or_internal (ok n) = ok n
or_internal (err k) = err Kind.internal

-- (s *nodeOperation) create
unfoldable pub create : (Seed → Result Node) → Action Node
unfolding draw_seed
create factory = do sd ← draw_seed; n ← lift (or_internal (factory sd)); save n

-- CreateFile
unfoldable pub create_file : Text → Action Node
unfolding create
create_file content = create (λ sd. new_file sd content)

-- Touch
unfoldable pub touch : Action Node
unfolding create_file
touch = create_file []

-- CreateDirectory
unfoldable pub create_directory : Action Node
unfolding create
create_directory = create new_directory

-- CreateSymlink
unfoldable pub create_symlink : Text → Action Node
unfolding create
create_symlink target = create (λ sd. new_symlink sd target)

-- CreateObject
unfoldable pub create_object : ObjectContent → ℤ → Action Node
unfolding create
create_object content size = create (λ sd. new_object sd content size)

-- CreateMount
unfoldable pub create_mount : Text → Action Node
unfolding create
create_mount src = create (λ sd. new_mount sd src)

-- GetByID
unfoldable pub get_by_id : ℕ → Action Node
get_by_id id = get id

-- (s *nodeOperation) Save
unfoldable pub save_node : Option Node → Action Node
save_node none = raise Kind.invalid_argument
save_node (some n) = save n

-- (s *nodeOperation) Delete
unfoldable pub delete_node : ℕ → Action (Unit {0})
delete_node id = delete id
