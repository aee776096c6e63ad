-- ===== src/Receive/Inversion.antt =====
-- The steps of `lnsocket_read`, read backwards from where they succeed.
use lnsocket.Prelude.{
  ℕ, ◌+◌, ◌-◌, ◌≡◌, inl, inr, refl, true, Option, none, some, List, arith, Bool-cases,
}
use native.Mathlib.Decide.{dec_lt}
use lnsocket.Memory.{store, load}
use lnsocket.Cursor.{Cursor}
use lnsocket.Errors.{Note}
use lnsocket.Primitives.{Externals}
use lnsocket.Crypto.{CryptoState, cryptomsg_decrypt_header, cryptomsg_decrypt_body}
use lnsocket.Net.{read_all}
use lnsocket.Io.{World}
use lnsocket.Receive.{
  read_header, read_body, header_read, decrypt_header, slice, body_read, decrypt_body,
}
use lnsocket.Receive.Steps.{behind, slice_fits, slice_full}

module _ (ext : Externals) where
  -- Each step where it succeeds.
  pub record HeaderCame (w v : World) (size : ℕ) (hdr : List ℕ) : Type 0 where
    pub done : (read_all w.1.events size).done ≡ true
    pub bytes : (read_all w.1.events size).bytes ≡ hdr
    pub after : v ≡ (w.0, behind w.1 size)

  pub read_header-HeaderCame :
      (w v : World) (size : ℕ) (hdr : List ℕ)
      → read_header ext size w ≡ (some hdr, v)
      → HeaderCame w v size hdr
  unfolding read_header
  read_header-HeaderCame w v size hdr h = elim (Bool-cases (read_all w.1.events size).done) [
    | inl done ↦ let g = rw done at h in record { done = done; bytes = cc; after = cc }
    | inr part ↦ absurd (let g = rw part at h in cc)
  ]

  pub record HeaderRead (w v : World) (r : Option ℕ × CryptoState) (size : ℕ) : Type 0 where
    pub next : CryptoState
    pub answer : r ≡ (some size, next)
    pub after : v ≡ (record w.0 { crypto_state = next }, w.1)

  header_read-HeaderRead :
      (w v : World) (r : Option ℕ × CryptoState) (size : ℕ)
      → header_read ext w.0 w.1 r ≡ (some size, v)
      → HeaderRead w v r size
  unfolding header_read
  header_read-HeaderRead w v (none, cs) size h = absurd (cc)
  header_read-HeaderRead w v (some n, cs) size h = record { next = cs; answer = cc; after = cc }

  pub decrypt_header-HeaderRead :
      (w v : World) (hdr : List ℕ) (size : ℕ)
      → decrypt_header ext hdr w ≡ (some size, v)
      → HeaderRead w v (cryptomsg_decrypt_header ext.aead w.0.crypto_state hdr) size
  unfolding decrypt_header
  decrypt_header-HeaderRead w v hdr size h = header_read-HeaderRead w v _ size h

  pub record SliceGiven (w v : World) (size : ℕ) (c : Cursor) : Type 0 where
    pub net : v.1 ≡ w.1
    pub state : v.0.crypto_state ≡ w.0.crypto_state
    pub at_start : c.p ≡ c.start
    pub whole : c.end ≡ c.start + size

  pub slice-SliceGiven :
      (w v : World) (size : ℕ) (n : Note) (c : Cursor)
      → slice ext size n w ≡ (some c, v)
      → SliceGiven w v size c
  slice-SliceGiven w v size n c h = elim (dec_lt w.0.msgbuf.end (w.0.msgbuf.p + size)) [
    | yes full ↦ absurd (let g = rw (slice_full ext w.0 w.1 size n full) at h in cc)
    | no room ↦
        let g = rw (slice_fits ext w.0 w.1 size n (omega arith)) at h in
        let region : Cursor = record {
          start = w.0.msgbuf.p;
          p = w.0.msgbuf.p;
          end = w.0.msgbuf.p + size;
        } in
        let is : region ≡ c = cc in
        record { net = cc; state = cc; at_start = rw (← is) refl; whole = rw (← is) refl }
  ]

  pub record BodyCame (w v : World) (enc : Cursor) : Type 0 where
    pub done : (read_all w.1.events (enc.end - enc.start)).done ≡ true
    pub after : v ≡ (
      record w.0 {
        memory = store w.0.memory enc.p (read_all w.1.events (enc.end - enc.start)).bytes;
      },
      behind w.1 (enc.end - enc.start),
    )

  pub read_body-BodyCame :
      (w v : World) (enc : Cursor) → read_body ext enc w ≡ (some tt, v) → BodyCame w v enc
  unfolding read_body
  read_body-BodyCame w v enc h =
      elim (Bool-cases (read_all w.1.events (enc.end - enc.start)).done) [
        | inl done ↦ let g = rw done at h in record { done = done; after = cc }
        | inr part ↦ absurd (let g = rw part at h in cc)
      ]

  pub record BodyRead (dec : Cursor) (w v : World) (r : Option (List ℕ) × CryptoState)
      : Type 0 where
    pub plain : List ℕ
    pub next : CryptoState
    pub answer : r ≡ (some plain, next)
    pub after :
        v ≡ (record w.0 { crypto_state = next; memory = store w.0.memory dec.start plain }, w.1)

  body_read-BodyRead :
      (dec : Cursor) (w v : World) (r : Option (List ℕ) × CryptoState)
      → body_read ext dec w.0 w.1 r ≡ (some tt, v)
      → BodyRead dec w v r
  unfolding body_read
  body_read-BodyRead dec w v (none, cs) h = absurd (cc)
  body_read-BodyRead dec w v (some plain, cs) h = record {
    plain = plain;
    next = cs;
    answer = refl;
    after = cc;
  }

  pub decrypt_body-BodyRead :
      (enc dec : Cursor) (w v : World)
      → decrypt_body ext enc dec w ≡ (some tt, v)
      → BodyRead dec w v (
          cryptomsg_decrypt_body ext.aead ext.hkdf w.0.crypto_state
            (load w.0.memory enc.start (enc.end - enc.start))
            (dec.end - dec.start))
  unfolding decrypt_body
  decrypt_body-BodyRead enc dec w v h = body_read-BodyRead dec w v _ h
