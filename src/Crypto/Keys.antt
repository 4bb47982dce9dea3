-- ===== src/Crypto/Keys.antt =====
-- internal/crypto/aesgcm.go: the master key, as text in hexadecimal digits.
use mdrive.Prelude.{
  ℕ, ◌+◌, ◌*◌, ◌-◌, ◌/◌, ◌%◌, ◌<◌, ◌≡◌, refl, ap, subst, ◌∙◌, not, ◌&&◌, Option, none, some, List,
  [], ◌∷◌, Text, length, ltb, leb, ◌==◌, if◌then◌else◌, arith,
}
use mdrive.Errorx.{Kind}
use mdrive.Result.{Result, ok, err}

-- hex.EncodeToString: two digits in lower case for each byte.
abbrev pub digit : ℕ → ℕ
digit n = if ltb n 10 then 0x30 + n else 0x57 + n

unfoldable pub encode_to_string : List ℕ → Text
encode_to_string [] = []
encode_to_string (b ∷ bytes) = digit (b / 16) ∷ digit (b % 16) ∷ encode_to_string bytes

-- hex.DecodeString: digits of either case, an even number of them.
abbrev pub value_of : ℕ → Option ℕ
value_of c =
    if leb 0x30 c && leb c 0x39
    then some (c - 0x30)
    else if leb 0x61 c && leb c 0x66
    then some (c - 0x57)
    else if leb 0x41 c && leb c 0x46
    then some (c - 0x37)
    else none

abbrev pub byte_of : Option ℕ → Option ℕ → Option ℕ
byte_of (some h) (some l) = some (16 * h + l)
byte_of none l = none
byte_of (some h) none = none

abbrev pub onto : Option ℕ → Option (List ℕ) → Option (List ℕ)
onto (some b) (some bytes) = some (b ∷ bytes)
onto none bytes = none
onto (some b) none = none

unfoldable pub decode_string : Text → Option (List ℕ)
decode_string [] = some []
decode_string (c ∷ []) = none
decode_string (c ∷ d ∷ s) = onto (byte_of (value_of c) (value_of d)) (decode_string s)

-- NewAESGCM, up to the key of the cipher, which aes.NewCipher takes at 32 bytes; the length that is
-- tested is that of the text in bytes, which for digits is the number of code points.
abbrev key_or_unknown : Option (List ℕ) → Result (List ℕ)
key_or_unknown none = err Kind.unknown
key_or_unknown (some key) = ok key

unfoldable pub new_aes_gcm : Text → Result (List ℕ)
unfolding decode_string
new_aes_gcm master_key_hex =
    if not (length master_key_hex == 64)
    then err Kind.unknown
    else key_or_unknown (decode_string master_key_hex)

-- GenerateMasterKey, from what the random reader returns: an error, or 32 bytes.
unfoldable pub generate_master_key : Result (List ℕ) → Result Text
unfolding encode_to_string
generate_master_key (err k) = err k
generate_master_key (ok bytes) = ok (encode_to_string bytes)

abbrev pub AreBytes : List ℕ → Type 0
AreBytes [] = Unit {0}
AreBytes (b ∷ bytes) = (b < 256) × AreBytes bytes

value_of-digit : (n : ℕ) → n < 16 → value_of (digit n) ≡ some n
value_of-digit n small = ground arith

decode_string-encode_to_string :
    (bytes : List ℕ) → AreBytes bytes → decode_string (encode_to_string bytes) ≡ some bytes
unfolding decode_string encode_to_string
decode_string-encode_to_string [] small = refl
decode_string-encode_to_string (b ∷ bytes) (first, small) =
    rw
      (
        value_of-digit (b / 16) (omega arith),
        value_of-digit (b % 16) (omega arith),
        decode_string-encode_to_string bytes small,
      )
      (ap (λ (n : ℕ). some (n ∷ bytes)) (omega arith))

length-encode_to_string : (bytes : List ℕ) → length (encode_to_string bytes) ≡ 2 * length bytes
unfolding encode_to_string
length-encode_to_string [] = refl
length-encode_to_string (b ∷ bytes) = ground (arith, length-encode_to_string bytes)

-- A key that GenerateMasterKey returned, from 32 bytes of the random reader: NewAESGCM takes it, and its
-- key is these bytes.
pub new_aes_gcm-generate_master_key :
    (bytes : List ℕ) (text : Text)
    → AreBytes bytes
    → length bytes ≡ 32
    → generate_master_key (ok bytes) ≡ ok text
    → new_aes_gcm text ≡ ok bytes
unfolding new_aes_gcm generate_master_key
new_aes_gcm-generate_master_key bytes text small long h =
    let is : encode_to_string bytes ≡ text =
      ap (λ (r : Result Text). elim r [ ok t ↦ t | err k ↦ [] ]) h in
    let sixty_four : length (encode_to_string bytes) ≡ 64 =
      length-encode_to_string bytes ∙ ground (arith, long) in
    subst (λ (t : Text). new_aes_gcm t ≡ ok bytes) is
      (rw (sixty_four, decode_string-encode_to_string bytes small) refl)
