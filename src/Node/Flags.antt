-- ===== src/Node/Flags.antt =====
-- internal/core/node/node.go: the bit mask of node flags, a uint32.
use Prim.Native.Nat.{bit_and, bit_or, bit_xor}
use mdrive.Prelude.{
  ℕ, zero, suc, ◌<◌, ◌≡◌, refl, Bool, true, false, not, ◌&&◌, ◌||◌, List, [], ◌∷◌, ◌++◌, arith,
  ◌==◌, if◌then◌else◌, Text, codes,
}

-- The eight named flags.
pub data Flag : Type 0 where
  secure_deletion undelete compress synchronous immutable append_only no_dump no_atime : Flag

-- The values of the constants.
abbrev pub mask : Flag → ℕ
mask Flag.secure_deletion = 0x00000001
mask Flag.undelete = 0x00000002
mask Flag.compress = 0x00000004
mask Flag.synchronous = 0x00000008
mask Flag.immutable = 0x00000010
mask Flag.append_only = 0x00000020
mask Flag.no_dump = 0x00000040
mask Flag.no_atime = 0x00000080

-- (f *Flags) Set
pub set : ℕ → ℕ → ℕ
set f flag = bit_or f flag

-- (f *Flags) Clear: `f &^ flag` is `f & (flag ^ 0xffffffff)` on a uint32.
pub clear : ℕ → ℕ → ℕ
clear f flag = bit_and f (bit_xor flag 0xffffffff)

-- (f *Flags) Has
pub has : ℕ → ℕ → Bool
has f flag = not (bit_and f flag == 0)

-- One `append` step of Flags.String.
abbrev named : ℕ → Flag → Text → List Text
named f flag name = if not (bit_and f (mask flag) == 0) then name ∷ [] else []

-- The eight `append` steps of Flags.String, in the order of the source.
pub names : ℕ → List Text
names f =
    named f Flag.secure_deletion (codes "secure_deletion")
    ++ (named f Flag.undelete (codes "undelete")
        ++ (named f Flag.compress (codes "compress")
            ++ (named f Flag.synchronous (codes "synchronous")
                ++ (named f Flag.immutable (codes "immutable")
                    ++ (named f Flag.append_only (codes "append_only")
                        ++ (named f Flag.no_dump (codes "no_dump")
                            ++ named f Flag.no_atime (codes "no_atime")))))))

-- fmt.Sprintf("%v") of a slice of strings.
spaced : List Text → Text
spaced [] = []
spaced (s ∷ []) = s
spaced (s ∷ t ∷ r) = s ++ (codes " " ++ spaced (t ∷ r))

abbrev none_or_list : List Text → Text
none_or_list [] = codes "none"
none_or_list (s ∷ r) = codes "[" ++ (spaced (s ∷ r) ++ codes "]")

-- Flags.String
pub flags_string : ℕ → Text
unfolding names spaced
flags_string f = none_or_list (names f)

abbrev pub same_flag : Flag → Flag → Bool
same_flag a b = mask a == mask b

-- The sets of flags below a bound that pass a test all pass it.
every_set : (test : ℕ → Bool) → ℕ → Bool
every_set test zero = true
every_set test (suc bound) = every_set test bound && test bound

every_set-elim :
    (test : ℕ → Bool) (bound f : ℕ) → f < bound → every_set test bound ≡ true → test f ≡ true
unfolding every_set
every_set-elim test zero f small passed = absurd (omega arith)
every_set-elim test (suc bound) f small passed = ground (arith, every_set-elim test bound f)

abbrev iff : Bool → Bool → Bool
iff true b = b
iff false b = not b

iff_sound : (a b : Bool) → iff a b ≡ true → a ≡ b
iff_sound a b h = ground arith

every_flag : (Flag → Bool) → Bool
every_flag p =
    p Flag.secure_deletion
    && (p Flag.undelete
        && (p Flag.compress
            && (p Flag.synchronous
                && (p Flag.immutable
                    && (p Flag.append_only && (p Flag.no_dump && p Flag.no_atime))))))

every_flag_sound : (p : Flag → Bool) (a : Flag) → every_flag p ≡ true → p a ≡ true
unfolding every_flag
every_flag_sound p Flag.secure_deletion h = ground arith
every_flag_sound p _ h = ground arith

abbrev agrees : ℕ → Flag → Flag → Bool
agrees f a b =
    iff (has (set f (mask a)) (mask b)) (has f (mask b) || same_flag a b)
    && iff (has (clear f (mask a)) (mask b)) (has f (mask b) && not (same_flag a b))

agrees_table : every_set (λ f. every_flag (λ a. every_flag (agrees f a))) 256 ≡ true
unfolding every_set every_flag has set clear
agrees_table = refl

and_both : (a b : Bool) → (a && b) ≡ true → (a ≡ true) × (b ≡ true)
and_both a b h = ground arith

-- On any combination of the eight named flags, setting a flag makes it present, clearing a flag
-- makes it absent, and neither changes another flag.
pub has-set-clear :
    (f : ℕ) (a b : Flag)
    → f < 256
    → (has (set f (mask a)) (mask b) ≡ (has f (mask b) || same_flag a b))
      × (has (clear f (mask a)) (mask b) ≡ (has f (mask b) && not (same_flag a b)))
has-set-clear f a b h =
    let every =
      every_set-elim (λ g. every_flag (λ a. every_flag (agrees g a))) 256 f h agrees_table in
    let both =
      every_flag_sound (agrees f a) b (every_flag_sound (λ c. every_flag (agrees f c)) a every) in
    let (p, q) = and_both _ _ both in (iff_sound _ _ p, iff_sound _ _ q)
