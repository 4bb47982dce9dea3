-- ===== src/Example/Keys.antt =====
-- A master key whose bytes are all 171.
use mdrive.Prelude.{ℕ, zero, suc, ◌≡◌, refl, List, [], ◌∷◌, Text, arith}
use mdrive.Result.{ok}
use mdrive.Crypto.Keys.{
  AreBytes, encode_to_string, generate_master_key, new_aes_gcm, new_aes_gcm-generate_master_key,
}

unfoldable same_bytes : ℕ → List ℕ
same_bytes zero = []
same_bytes (suc n) = 171 ∷ same_bytes n

same_bytes-AreBytes : (n : ℕ) → AreBytes (same_bytes n)
unfolding same_bytes
same_bytes-AreBytes zero = tt
same_bytes-AreBytes (suc n) = (omega arith, same_bytes-AreBytes n)

unfoldable key : Text
unfolding encode_to_string same_bytes
key = encode_to_string (same_bytes 32)

new_aes_gcm-generate_master_key_example : new_aes_gcm key ≡ ok (same_bytes 32)
unfolding key generate_master_key same_bytes
new_aes_gcm-generate_master_key_example =
    new_aes_gcm-generate_master_key (same_bytes 32) key (same_bytes-AreBytes 32) refl refl
