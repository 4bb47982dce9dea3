-- ===== src/Handlers/Requests.antt =====
-- internal/app/apiserver/handler/fs.go: the handlers that change files, as a choice of one of them.
use mdrive.Prelude.{Bool, Option, List, Text, ℤ}

-- A choice of one of the ten handlers that change a drive's files, with what its request says. It is not
-- a type of the program: it serves to state what the ten have in common.
pub data Change : Type 0 where
  mkdir : Text → Change
  touch : Text → Change
  rm : List Text → Option Bool → Change
  mv : List Text → Text → Change
  write : Text → Text → Change
  write_large : Text → Text → Text → Option Text → Option Text → ℤ → Change
  symlink : Text → Text → Change
  hardlink : Text → Text → Change
  mount : Text → Text → Change
  unmount : Text → Change
