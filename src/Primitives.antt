-- ===== src/Primitives.antt =====
-- What lnsocket calls and does not implement: the ChaCha20-Poly1305 of libsodium
-- (`crypto_aead_chacha20poly1305_ietf_*`), the curve of libsecp256k1, the SHA-256 and HKDF of
-- sha256.c and hkdf.c, and the text that `vsprintf` makes of an error. They are parameters; what
-- the code relies on is stated as laws.
use lnsocket.Prelude.{ℕ, ◌+◌, ◌<◌, ◌≡◌, Option, some, List, length}
use lnsocket.Memory.{Memory, Ptr}
use lnsocket.Errors.{Note, Overrun, fmt_buf_size}

pub record Aead : Type 0 where
  -- key, nonce, additional data, plaintext
  pub encrypt : List ℕ → List ℕ → List ℕ → List ℕ → List ℕ
  -- key, nonce, additional data, ciphertext; `none` is an answer other than 0
  pub decrypt : List ℕ → List ℕ → List ℕ → List ℕ → Option (List ℕ)
  -- What an encryption leaves at its output where this overlaps the input in part, of which libsodium
  -- says nothing: key, nonce, the memory before, the input, its length, the output.
  pub overlapped : List ℕ → List ℕ → Memory → Ptr → ℕ → Ptr → List ℕ

-- The tag takes 16 bytes, whatever overlaps, and what was encrypted is decrypted with the same key, nonce and data.
pub record AeadLaws (a : Aead) : Type 0 where
  pub length-encrypt : (k n ad m : List ℕ) → length (a.encrypt k n ad m) ≡ length m + 16
  pub decrypt-encrypt : (k n ad m : List ℕ) → a.decrypt k n ad (a.encrypt k n ad m) ≡ some m
  pub length-overlapped :
      (k n : List ℕ) (m : Memory) (msg : Ptr) (mlen : ℕ) (out : Ptr)
      → length (a.overlapped k n m msg mlen out) ≡ mlen + 16
  pub length-decrypt :
      (k n ad c m : List ℕ) → a.decrypt k n ad c ≡ some m → length c ≡ length m + 16

-- Bytes wanted, salt, input keying material, info.
abbrev pub Hkdf : Type 0
Hkdf = ℕ → List ℕ → List ℕ → List ℕ → List ℕ

-- The opaque representation of a point.
abbrev pub Pubkey : Type 0
Pubkey = List ℕ

pub record Secp : Type 0 where
  -- `none` where the secret is no valid key
  pub pubkey_create : List ℕ → Option Pubkey
  pub pubkey_serialize : Pubkey → List ℕ
  pub pubkey_parse : List ℕ → Option Pubkey
  -- a point and a secret
  pub ecdh : Pubkey → List ℕ → Option (List ℕ)

-- The point of a valid secret has a compressed form of 33 bytes, from which it is read back, and
-- two parties with valid secrets agree.
pub record SecpLaws (c : Secp) : Type 0 where
  pub parse-serialize :
      (x : List ℕ) (p : Pubkey)
      → c.pubkey_create x ≡ some p
      → c.pubkey_parse (c.pubkey_serialize p) ≡ some p
  pub length-serialize :
      (x : List ℕ) (p : Pubkey) → c.pubkey_create x ≡ some p → length (c.pubkey_serialize p) ≡ 33
  pub ecdh_agree :
      (x y : List ℕ) (px py : Pubkey)
      → c.pubkey_create x ≡ some px
      → c.pubkey_create y ≡ some py
      → (z : List ℕ) × (c.ecdh px y ≡ some z) × (c.ecdh py x ≡ some z)

pub record Externals : Type 0 where
  pub aead : Aead
  pub hkdf : Hkdf
  pub secp : Secp
  pub sha256 : List ℕ → List ℕ
  -- The text of an error: its format string with lengths and the text of `strerror` or `gai_strerror`,
  -- which fits the static buffer.
  pub format : Note → List ℕ
  pub format_fits : (n : Note) → length (format n) < fmt_buf_size
  pub overrun : Overrun
