-- ===== src/Vfs/Path.antt =====
-- internal/vfs/path.go: cleaning, splitting and joining of paths, with what strings.TrimSpace,
-- strings.Trim, strings.Split and path.Clean of the standard library do.
pub mod Clean
pub mod Split
use mdrive.Prelude.{
  ℕ, Bool, true, false, ◌&&◌, ◌||◌, List, [], ◌∷◌, ◌++◌, Text, codes, leb, ◌==◌, ◌=s=◌,
  if◌then◌else◌,
}

-- unicode.IsSpace
unfoldable pub is_space : ℕ → Bool
is_space c =
    (leb 0x09 c && leb c 0x0d)
    || c == 0x20
    || c == 0x85
    || c == 0xa0
    || c == 0x1680
    || (leb 0x2000 c && leb c 0x200a)
    || c == 0x2028
    || c == 0x2029
    || c == 0x202f
    || c == 0x205f
    || c == 0x3000

-- A text without the leading, and without the trailing, code points that pass a test.
unfoldable pub trim_left : (ℕ → Bool) → Text → Text
trim_left cut [] = []
trim_left cut (c ∷ s) = let rest = trim_left cut s in if cut c then rest else c ∷ s

unfoldable pub trim_right : (ℕ → Bool) → Text → Text
trim_right cut [] = []
trim_right cut (c ∷ s) = elim (trim_right cut s) [
  | [] ↦ if cut c then [] else c ∷ []
  | d ∷ t ↦ c ∷ d ∷ t
]

abbrev pub trim : (ℕ → Bool) → Text → Text
trim cut s = trim_right cut (trim_left cut s)

abbrev pub is_slash : ℕ → Bool
is_slash c = c == 0x2f

abbrev pub slash : Text
slash = 0x2f ∷ []

-- `strings.Split(s, "/")`, which returns one part more than there are slashes.
abbrev pub onto_first : ℕ → List Text → List Text
onto_first c [] = (c ∷ []) ∷ []
onto_first c (p ∷ ps) = (c ∷ p) ∷ ps

unfoldable pub split : Text → List Text
split [] = [] ∷ []
split (c ∷ s) = let rest = split s in if is_slash c then [] ∷ rest else onto_first c rest

-- joinParts
unfoldable pub join_parts : List Text → Text
join_parts [] = []
join_parts (p ∷ []) = p
join_parts (p ∷ q ∷ ps) = p ++ 0x2f ∷ join_parts (q ∷ ps)

abbrev pub is_dot : Text → Bool
is_dot p = (p =s= []) || (p =s= codes ".")

abbrev pub is_dotdot : Text → Bool
is_dotdot p = p =s= codes ".."

-- One component read by path.Clean; the components that stand so far are kept last first.
abbrev pub back_up : Bool → Text → List Text → List Text
back_up rooted p [] = if rooted then [] else p ∷ []
back_up rooted p (q ∷ out) = if is_dotdot q then p ∷ q ∷ out else out

abbrev pub clean_part : Bool → Text → List Text → List Text
clean_part rooted p out =
    if is_dot p then out else if is_dotdot p then back_up rooted p out else p ∷ out

unfoldable pub clean_parts : Bool → List Text → List Text → List Text
unfolding ◌=s=◌
clean_parts rooted [] out = out
clean_parts rooted (p ∷ ps) out = clean_parts rooted ps (clean_part rooted p out)

unfoldable pub reverse_onto : List Text → List Text → List Text
reverse_onto [] out = out
reverse_onto (p ∷ ps) out = reverse_onto ps (p ∷ out)

abbrev pub dot_if_empty : Text → Text
dot_if_empty [] = codes "."
dot_if_empty (c ∷ s) = c ∷ s

-- path.Clean, of a path with and without a leading slash.
unfoldable pub path_clean : Text → Text
unfolding split join_parts clean_parts reverse_onto
path_clean [] = codes "."
path_clean (c ∷ s) =
    if is_slash c
    then slash ++ join_parts (reverse_onto (clean_parts true (split s) []) [])
    else dot_if_empty (join_parts (reverse_onto (clean_parts false (split (c ∷ s)) []) []))

-- cleanPath: `path.Clean` of a path with a leading slash is neither empty nor a dot.
unfoldable pub clean_path : Text → Text
unfolding path_clean trim_left trim_right is_space
clean_path p = path_clean (slash ++ trim is_space p)

-- splitPath
abbrev pub split_if_any : Text → List Text
split_if_any [] = []
split_if_any (c ∷ s) = split (c ∷ s)

unfoldable pub split_path : Text → List Text
unfolding split trim_left trim_right
split_path p = split_if_any (trim is_slash p)
