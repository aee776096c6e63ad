-- ===== src/Receive/Progress.antt =====
-- How much of a stream `lnsocket_recv` uses up.
use lnsocket.Prelude.{
  ℕ, ◌+◌, ◌-◌, ◌≤◌, ◌≡◌, inl, inr, refl, Bool-cases, some, none, Option, List, arith,
}
use lnsocket.Memory.{Ptr}
use lnsocket.Cursor.{Cursor, Buffer}
use lnsocket.Errors.{Note}
use lnsocket.Primitives.{Externals}
use lnsocket.Crypto.{CryptoState}
use lnsocket.Net.{Net, read_all}
use lnsocket.Net.Weight.{weight, read_all-weight}
use lnsocket.State.{Lnsocket}
use lnsocket.Io.{World, Io, modify, cleared, ◌>>=◌, >>=-inv, pure}
use lnsocket.Receive.{
  read_header, read_body, header_read, decrypt_header, sliced, slice, body_read, decrypt_body,
  lnsocket_read, received_type, pull_type, lnsocket_recv,
}

module _ {A : Type 0} where
  -- A step that takes `k` bytes at least where it succeeds.
  abbrev pub TakesAtLeast : ℕ → Io A → Type 0
  TakesAtLeast k m =
      (w v : World) (a : A) → m w ≡ (some a, v) → weight v.1.events + k ≤ weight w.1.events

  quiet : (m : Io A) → ((w : World) → (m w).1.1 ≡ w.1) → TakesAtLeast 0 m
  quiet m q w v a h = let same : v.1 ≡ w.1 = rw h at (q w) in rw same (omega arith)

module _ {A B : Type 0} where
  in_turn :
      (j k : ℕ) (m : Io A) (f : A → Io B)
      → TakesAtLeast j m
      → ((a : A) → TakesAtLeast k (f a))
      → TakesAtLeast (j + k) (m >>= f)
  in_turn j k m f first second w v b h =
      let (a, u, one, two) = >>=-inv m f h in
      let x = first w u a one in let y = second a u v b two in omega arith

module _ (ext : Externals) where
  read_header-takes : (size : ℕ) → TakesAtLeast size (read_header ext size)
  unfolding read_header
  read_header-takes size w v a h = elim (Bool-cases (read_all w.1.events size).done) [
    | inl done ↦
        let same : record w.1 { events = (read_all w.1.events size).rest } ≡ v.1 =
          let g = rw done at h in cc in
        rw (← same) (let k = read_all-weight w.1.events size done in omega arith)
    | inr part ↦ absurd (let g = rw part at h in cc)
  ]

  read_body-takes : (enc : Cursor) → TakesAtLeast 0 (read_body ext enc)
  unfolding read_body
  read_body-takes enc w v a h = elim (Bool-cases (read_all w.1.events (enc.end - enc.start)).done) [
    | inl done ↦
        let same : record w.1 { events = (read_all w.1.events (enc.end - enc.start)).rest } ≡ v.1 =
          let g = rw done at h in cc in
        rw (← same) (let k = read_all-weight w.1.events (enc.end - enc.start) done in omega arith)
    | inr part ↦ absurd (let g = rw part at h in cc)
  ]

  header_read-quiet :
      (ln : Lnsocket) (net : Net) (r : Option ℕ × CryptoState)
      → (header_read ext ln net r).1.1 ≡ net
  unfolding header_read
  header_read-quiet ln net (none, cs) = refl
  header_read-quiet ln net (some size, cs) = refl

  sliced-quiet :
      (n : Note) (ln : Lnsocket) (net : Net) (r : Option Cursor × Buffer)
      → (sliced ext n ln net r).1.1 ≡ net
  unfolding sliced
  sliced-quiet n ln net (none, b) = refl
  sliced-quiet n ln net (some c, b) = refl

  body_read-quiet :
      (dec : Cursor) (ln : Lnsocket) (net : Net) (r : Option (List ℕ) × CryptoState)
      → (body_read ext dec ln net r).1.1 ≡ net
  unfolding body_read
  body_read-quiet dec ln net (none, cs) = refl
  body_read-quiet dec ln net (some plain, cs) = refl

  received_type-quiet :
      (msglen : ℕ) (ln : Lnsocket) (net : Net) (r : Option ℕ × Buffer)
      → (received_type ext msglen ln net r).1.1 ≡ net
  unfolding received_type
  received_type-quiet msglen ln net (none, b) = refl
  received_type-quiet msglen ln net (some t, b) = ground arith

  decrypt_header-quiet : (hdr : List ℕ) (w : World) → (decrypt_header ext hdr w).1.1 ≡ w.1
  unfolding decrypt_header
  decrypt_header-quiet hdr w = header_read-quiet w.0 w.1 _

  slice-quiet : (size : ℕ) (n : Note) (w : World) → (slice ext size n w).1.1 ≡ w.1
  unfolding slice
  slice-quiet size n w = sliced-quiet n w.0 w.1 _

  decrypt_body-quiet : (enc dec : Cursor) (w : World) → (decrypt_body ext enc dec w).1.1 ≡ w.1
  unfolding decrypt_body
  decrypt_body-quiet enc dec w = body_read-quiet dec w.0 w.1 _

  pull_type-quiet : (msg : Ptr × ℕ) (w : World) → (pull_type ext msg w).1.1 ≡ w.1
  unfolding pull_type
  pull_type-quiet (msg, msglen) w = received_type-quiet msglen w.0 w.1 _

  lnsocket_read-takes : TakesAtLeast 18 (lnsocket_read ext)
  unfolding lnsocket_read
  lnsocket_read-takes = in_turn 0 18 (modify cleared) _ (quiet _ (λ w. refl)) (λ _.
      in_turn 18 0 (read_header ext 18) _ (read_header-takes 18) (λ hdr.
        in_turn 0 0 (decrypt_header ext hdr) _ (quiet _ (decrypt_header-quiet hdr)) (λ size.
          in_turn 0 0 (slice ext (size + 16) Note.out_of_memory) _
            (quiet _ (slice-quiet (size + 16) Note.out_of_memory))
            (λ enc.
              in_turn 0 0 (slice ext size Note.out_of_memory_sizes) _
                (quiet _ (slice-quiet size Note.out_of_memory_sizes))
                (λ dec. in_turn 0 0 (read_body ext enc) _ (read_body-takes enc) (λ _.
                  in_turn 0 0 (decrypt_body ext enc dec) _ (quiet _ (decrypt_body-quiet enc dec))
                    (λ _. quiet (pure (dec.start, dec.end - dec.start)) (λ w. refl))))))))

  -- A call that succeeds takes the 18 bytes of a header at least.
  pub lnsocket_recv-takes : TakesAtLeast 18 (lnsocket_recv ext)
  unfolding lnsocket_recv
  lnsocket_recv-takes =
      in_turn 18 0 (lnsocket_read ext) _ lnsocket_read-takes
        (λ msg. quiet (pull_type ext msg) (pull_type-quiet msg))
