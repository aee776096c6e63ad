-- ===== src/Crypto/Opening.antt =====
-- What crypto.c decrypts, and under which key and nonce.
use lnsocket.Prelude.{
  ℕ, ◌-◌, ◌≤◌, ◌≡◌, ◌||◌, inl, inr, refl, Option, none, some, List, [], Bool-cases, length, ltb,
  tests, ltb→le,
}
use lnsocket.Primitives.{Aead, Hkdf}
use lnsocket.Crypto.{
  CryptoState, le64_nonce, be16_to_cpu, rotate_receiver, decrypted_header, decrypted_body,
  cryptomsg_decrypt_header, cryptomsg_decrypt_body,
}
use lnsocket.Crypto.Transport.{halfway}

-- A header that was decrypted.
pub record HeaderOpened (aead : Aead) (cs : CryptoState) (hdr : List ℕ) (size : ℕ)
    (next : CryptoState) : Type 0 where
  pub plain : List ℕ
  pub opens : aead.decrypt cs.rk (le64_nonce cs.rn) [] hdr ≡ some plain
  pub is_size : size ≡ be16_to_cpu plain
  pub state : next ≡ halfway cs

decrypted_header_inv :
    (cs next : CryptoState) (r : Option (List ℕ)) (size : ℕ)
    → decrypted_header cs r ≡ (some size, next)
    → (plain : List ℕ) × (r ≡ some plain) × (size ≡ be16_to_cpu plain) × (next ≡ cs)
unfolding decrypted_header
decrypted_header_inv cs next none size e = absurd (cc)
decrypted_header_inv cs next (some p) size e = (p, refl, cc, cc)

pub decrypt_header-HeaderOpened :
    (aead : Aead) (cs next : CryptoState) (hdr : List ℕ) (size : ℕ)
    → cryptomsg_decrypt_header aead cs hdr ≡ (some size, next)
    → HeaderOpened aead cs hdr size next
unfolding cryptomsg_decrypt_header
decrypt_header-HeaderOpened aead cs next hdr size e =
    let (plain, opens, is_size, state) = decrypted_header_inv (halfway cs) next _ size e in
    record { plain = plain; opens = opens; is_size = is_size; state = state }

-- A body that was decrypted.
pub record BodyOpened (aead : Aead) (kdf : Hkdf) (cs : CryptoState) (input : List ℕ) (outcap : ℕ)
    (plain : List ℕ) (next : CryptoState) : Type 0 where
  pub opens : aead.decrypt cs.rk (le64_nonce cs.rn) [] input ≡ some plain
  pub room : length input - 16 ≤ outcap
  pub state : next ≡ rotate_receiver kdf (halfway cs)

decrypted_body_inv :
    (kdf : Hkdf) (cs next : CryptoState) (r : Option (List ℕ)) (plain : List ℕ)
    → decrypted_body kdf cs r ≡ (some plain, next)
    → (r ≡ some plain) × (next ≡ rotate_receiver kdf cs)
unfolding decrypted_body
decrypted_body_inv kdf cs next none plain e = absurd (cc)
decrypted_body_inv kdf cs next (some p) plain e = (cc, cc)

pub decrypt_body-BodyOpened :
    (aead : Aead) (kdf : Hkdf) (cs next : CryptoState) (input : List ℕ) (outcap : ℕ)
    (plain : List ℕ)
    → cryptomsg_decrypt_body aead kdf cs input outcap ≡ (some plain, next)
    → BodyOpened aead kdf cs input outcap plain next
unfolding cryptomsg_decrypt_body
decrypt_body-BodyOpened aead kdf cs next input outcap plain e =
    elim (Bool-cases (ltb (length input) 16 || ltb outcap (length input - 16))) [
      | inl refused ↦ absurd (let g = rw refused at e in cc)
      | inr taken ↦
          let (opens, state) = decrypted_body_inv kdf (halfway cs) next _ plain (rw taken at e) in
          record { opens = opens; room = grind (tests, taken, ltb→le); state = state }
    ]
