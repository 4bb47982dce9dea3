-- ===== src/Crypto.antt =====
-- internal/crypto: the interface Cipher. AESGCM encrypts with a random nonce by the standard library's
-- AEAD; here its two methods are the fields of a record, with the nonce an argument.
pub mod Keys
use mdrive.Prelude.{ℕ, ◌≡◌, Text}
use mdrive.Result.{Result, ok}

pub record Cipher : Type 0 where
  pub encrypt : ℕ → Text → Result Text
  pub decrypt : Text → Result Text

-- What is encrypted can be decrypted.
pub record IsLawful (c : Cipher) : Type 0 where
  pub decrypt-encrypt :
      (nonce : ℕ) (plain cipher : Text)
      → c.encrypt nonce plain ≡ ok cipher
      → c.decrypt cipher ≡ ok plain

-- NoOp
abbrev pub no_op : Cipher
no_op = record { encrypt = λ nonce plain. ok plain; decrypt = λ cipher. ok cipher }
