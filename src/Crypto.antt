-- ===== src/Crypto.antt =====
-- crypto.c and crypto.h: the transport encryption of BOLT 8. A secret is its 32 bytes; what a
-- function writes through a pointer is among its results. An `assert` that the laws of the
-- primitives make true is left out.
pub mod Transport
pub mod Rotation
pub mod Opening
use lnsocket.Prelude.{
  ℕ, ◌+◌, ◌-◌, ◌%◌, ◌^◌, ◌||◌, Bool, true, false, Option, none, some, List, [], ◌∷◌, ◌++◌, ltb, leb,
  ◌==◌, if◌then◌else◌, length, take, drop, replicate,
}
use lnsocket.Prelude.Bytes.{be16_bytes, be16_value, le64_bytes}
use lnsocket.Memory.{Memory, Ptr, store, load}
use lnsocket.Primitives.{Aead, Hkdf}

abbrev pub Secret : Type 0
Secret = List ℕ

pub record CryptoState : Type 0 where
  pub rn : ℕ
  pub sn : ℕ
  pub sk : Secret
  pub rk : Secret
  pub s_ck : Secret
  pub r_ck : Secret

-- `n++` on a u64.
abbrev pub next_nonce : ℕ → ℕ
next_nonce n = (n + 1) % 2 ^ 64

unfoldable pub le64_nonce : ℕ → List ℕ
le64_nonce nonce = replicate 4 0 ++ le64_bytes nonce

unfoldable pub cryptomsg_decrypt_size : ℕ → ℕ
cryptomsg_decrypt_size inlen = inlen - 16

-- A null pointer stands for the empty text.
abbrev pub bytes_or_null : Option (List ℕ) → List ℕ
bytes_or_null none = []
bytes_or_null (some bytes) = bytes

module _ (hkdf_sha256 : Hkdf) where
  -- `out1` and `out2`.
  unfoldable pub hkdf_two_keys : Secret → Option Secret → Secret × Secret
  hkdf_two_keys in1 in2 =
      let okm = hkdf_sha256 64 in1 (bytes_or_null in2) [] in (take 32 okm, take 32 (drop 32 okm))

  -- `*n`, `*k` and `*ck` afterwards.
  unfoldable pub maybe_rotate_key : ℕ → Secret → Secret → ℕ × Secret × Secret
  unfolding hkdf_two_keys
  maybe_rotate_key n k ck =
      if n == 1000
      then (let (new_ck, new_k) = hkdf_two_keys ck (some k) in (0, new_k, new_ck))
      else (n, k, ck)

  unfoldable pub rotate_receiver : CryptoState → CryptoState
  rotate_receiver cs =
      let (n, k, ck) = maybe_rotate_key cs.rn cs.rk cs.r_ck in
      record cs { rn = n; rk = k; r_ck = ck }

  unfoldable pub rotate_sender : CryptoState → CryptoState
  rotate_sender cs =
      let (n, k, ck) = maybe_rotate_key cs.sn cs.sk cs.s_ck in
      record cs { sn = n; sk = k; s_ck = ck }

-- `none` is the answer 0, with nothing written to `out`.
decrypted_body : Hkdf → CryptoState → Option (List ℕ) → Option (List ℕ) × CryptoState
decrypted_body kdf cs none = (none, cs)
decrypted_body kdf cs (some plain) = (some plain, rotate_receiver kdf cs)

-- The length, from the two bytes that were decrypted.
abbrev pub be16_to_cpu : List ℕ → ℕ
be16_to_cpu (hi ∷ lo ∷ _) = be16_value hi lo
be16_to_cpu _ = 0

decrypted_header : CryptoState → Option (List ℕ) → Option ℕ × CryptoState
decrypted_header cs none = (none, cs)
decrypted_header cs (some len) = (some (be16_to_cpu len), cs)

-- Whether the answer is `out` or a null pointer, `*outlen`, the memory and the state.
pub record Encrypted : Type 0 where
  pub done : Bool
  pub outlen : ℕ
  pub mem : Memory
  pub state : CryptoState

-- Whether `mlen` bytes at `msg` are apart from the `mlen + 16` at `out`, or begin there too.
unfoldable pub separate : Ptr → ℕ → Ptr → Bool
separate msg mlen out = leb (msg + mlen) out || msg == out || leb (out + (mlen + 16)) msg

module _ (aead : Aead) where
  unfoldable pub cryptomsg_decrypt_header : CryptoState → List ℕ → Option ℕ × CryptoState
  unfolding decrypted_header
  cryptomsg_decrypt_header cs hdr =
      decrypted_header (record cs { rn = next_nonce cs.rn })
        (aead.decrypt cs.rk (le64_nonce cs.rn) [] hdr)

  unfoldable pub cryptomsg_decrypt_body :
      Hkdf → CryptoState → List ℕ → ℕ → Option (List ℕ) × CryptoState
  unfolding decrypted_body rotate_receiver maybe_rotate_key cryptomsg_decrypt_size
  cryptomsg_decrypt_body kdf cs input outcap =
      if ltb (length input) 16 || ltb outcap (cryptomsg_decrypt_size (length input))
      then (none, cs)
      else decrypted_body kdf (record cs { rn = next_nonce cs.rn })
          (aead.decrypt cs.rk (le64_nonce cs.rn) [] input)

  -- The call of the library for the body: its input may be anywhere apart from its output, or at the
  -- output itself; otherwise what it writes is not known.
  unfoldable pub encrypt_at : List ℕ → List ℕ → Memory → Ptr → ℕ → Ptr → List ℕ
  unfolding separate
  encrypt_at key nonce m msg mlen out =
      if separate msg mlen out
      then aead.encrypt key nonce [] (load m msg mlen)
      else aead.overlapped key nonce m msg mlen out

  -- `msg` and `out` are pointers that may overlap: the body is read when the encrypted length is
  -- already written.
  unfoldable pub cryptomsg_encrypt_msg : Hkdf → CryptoState → Memory → Ptr → ℕ → Ptr → ℕ → Encrypted
  unfolding encrypt_at rotate_sender maybe_rotate_key
  cryptomsg_encrypt_msg kdf cs m msg mlen out outcap =
      if ltb outcap mlen
      then record { done = false; outlen = 0; mem = m; state = cs }
      else let second = next_nonce cs.sn in
        let header = aead.encrypt cs.sk (le64_nonce cs.sn) [] (be16_bytes mlen) in
        let m' = store m out header in
        let body = encrypt_at cs.sk (le64_nonce second) m' msg mlen (out + length header) in
        record {
          done = true;
          outlen = 2 + 16 + mlen + 16;
          mem = store m' (out + length header) body;
          state = rotate_sender kdf (record cs { sn = next_nonce second });
        }
