-- ===== src/Receive/Confined.antt =====
-- What `lnsocket_read` does to memory, and where its message lies.
use lnsocket.Prelude.{
  ℕ, ◌+◌, ◌-◌, ◌≤◌, ◌≡◌, refl, Option, none, some, List, arith, length, length-replicate, replicate,
}
use native.Mathlib.Decide.{dec_lt}
use lnsocket.Memory.{Ptr, store, load}
use lnsocket.Cursor.{Cursor, reset_cursor}
use lnsocket.Errors.{Note}
use lnsocket.Primitives.{Externals, AeadLaws}
use lnsocket.Crypto.{CryptoState, cryptomsg_decrypt_header, cryptomsg_decrypt_body}
use lnsocket.Crypto.Opening.{decrypt_body-BodyOpened}
use lnsocket.Net.{read_all}
use lnsocket.Net.Weight.{read_all-length}
use lnsocket.State.{Lnsocket}
use lnsocket.Io.{World, cleared}
use lnsocket.Bounds.{
  IsSound, Confines, Confines-refl, Confines-trans, Confines-memory, Keeps, and_then-Keeps,
  Anything, either, fail-Keeps, failed-Keeps, net-Confines, state-Confines,
}
use lnsocket.Receive.{
  read_header, read_body, header_read, decrypt_header, slice, body_read, decrypt_body,
  decrypt_packet, lnsocket_read,
}
use lnsocket.Receive.Steps.{slice_fits, slice_full}

-- A cursor at the start of a region inside the message buffer.
abbrev pub Inside : Cursor → Lnsocket → Type 0
Inside c ln =
    (ln.msgbuf.start ≤ c.start) × (c.p ≡ c.start) × (c.start ≤ c.end) × (c.end ≤ ln.msgbuf.end)

Inside-Confines : (c : Cursor) (w v : World) → Confines w v → Inside c w.0 → Inside c v.0
Inside-Confines c w v k i = rw (k.start, k.end) i

module _ (ext : Externals) where
  cleared-Keeps :
      (w : World)
      → IsSound w.0
      → Keeps (λ (_ : Unit {0}) ln. Unit {0}) w (some tt, (cleared w.0, w.1))
  unfolding reset_cursor
  cleared-Keeps w s =
      let a = s.msgbuf.low in
      let b = s.msgbuf.high in
      let c = s.errs.low in
      let d = s.errs.high in
      record {
        confines = record {
          sound = record {
            msgbuf = record { low = omega arith; high = omega (arith, a, b) };
            errs = record { low = omega arith; high = omega (arith, c, d) };
          };
          start = refl;
          end = refl;
          errs_start = refl;
          errs_end = refl;
          same = λ x _ _. refl;
        };
        post = λ a e. tt;
      }

  read_header-Keeps :
      (size : ℕ) (w : World) → IsSound w.0 → Keeps Anything w (read_header ext size w)
  unfolding read_header
  read_header-Keeps size w s =
      let r = read_all w.1.events size in
      let k = net-Confines w (record w.1 { events = r.rest }) s in
      either (Keeps Anything w) r.done (record { confines = k; post = λ a e. tt })
        (failed-Keeps ext Anything Note.failed_reading_header w _ k)

  header_read-Keeps :
      (w : World) (r : Option ℕ × CryptoState)
      → IsSound w.0
      → Keeps Anything w (header_read ext w.0 w.1 r)
  unfolding header_read
  header_read-Keeps w (none, cs) s =
      failed-Keeps ext Anything Note.failed_header_decrypt w _ (state-Confines w cs s)
  header_read-Keeps w (some size, cs) s = record {
    confines = state-Confines w cs s;
    post = λ a e. tt;
  }

  -- The slice is the next `size` bytes of the message buffer.
  pub slice-Keeps :
      (size : ℕ) (n : Note) (w : World)
      → IsSound w.0
      → Keeps (λ c ln. Inside c ln × (c.end ≡ c.start + size)) w (slice ext size n w)
  slice-Keeps size n w s =
      let low = s.msgbuf.low in
      let high = s.msgbuf.high in
      elim (dec_lt w.0.msgbuf.end (w.0.msgbuf.p + size)) [
        | yes full ↦ rw (slice_full ext w.0 w.1 size n full) (fail-Keeps ext _ n w s)
        | no room ↦ rw (slice_fits ext w.0 w.1 size n (omega arith)) (record {
          confines =
              let k =
                Confines-memory w w.0.msgbuf.p (replicate size 0) s low
                  (omega (arith, length-replicate {A = ℕ} size 0)) in
              record {
                sound = record {
                  msgbuf = record { low = omega (arith, low); high = omega arith };
                  errs = s.errs;
                };
                start = refl;
                end = refl;
                errs_start = refl;
                errs_end = refl;
                same = k.same;
              };
          post = λ c e.
              let region : Cursor = record {
                start = w.0.msgbuf.p;
                p = w.0.msgbuf.p;
                end = w.0.msgbuf.p + size;
              } in
              let is : region ≡ c = cc in rw (← is) ((low, refl, omega arith, omega arith), refl);
        })
      ]

  pub decrypt_header-Keeps :
      (hdr : List ℕ) (w : World) → IsSound w.0 → Keeps Anything w (decrypt_header ext hdr w)
  unfolding decrypt_header
  decrypt_header-Keeps hdr w s =
      header_read-Keeps w (cryptomsg_decrypt_header ext.aead w.0.crypto_state hdr) s

  read_body-Keeps :
      (enc : Cursor) (w : World)
      → IsSound w.0
      → Inside enc w.0
      → Keeps Anything w (read_body ext enc w)
  unfolding read_body
  read_body-Keeps enc w s (low, at, fwd, high) =
      let size : ℕ = enc.end - enc.start in
      let r = read_all w.1.events size in
      let n = (read_all-length w.1.events size).0 in
      let k : Confines w
          (record w.0 { memory = store w.0.memory enc.p r.bytes }, record w.1 { events = r.rest }) =
        Confines-trans w _ _
          (Confines-memory w enc.p r.bytes s (omega (arith, at, low))
            (omega (arith, at, fwd, high, n)))
          (net-Confines _ (record w.1 { events = r.rest })
            (record { msgbuf = s.msgbuf; errs = s.errs })) in
      either (Keeps Anything w) r.done (record { confines = k; post = λ a e. tt })
        (failed-Keeps ext Anything Note.failed_reading_body w _ k)

  body_read-Keeps :
      (dec : Cursor) (w : World) (r : Option (List ℕ) × CryptoState)
      → IsSound w.0
      → Inside dec w.0
      → ((plain : List ℕ) → r.0 ≡ some plain → length plain ≤ dec.end - dec.start)
      → Keeps Anything w (body_read ext dec w.0 w.1 r)
  unfolding body_read
  body_read-Keeps dec w (none, cs) s i fits =
      failed-Keeps ext Anything Note.error_decrypting_body w _ (state-Confines w cs s)
  body_read-Keeps dec w (some plain, cs) s (low, at, fwd, high) fits =
      let n = fits plain refl in
      let k = state-Confines w cs s in
      record {
        confines = Confines-trans w _ _ k (
            Confines-memory (record w.0 { crypto_state = cs }, w.1) dec.start plain k.sound low
              (omega (arith, fwd, high, n)));
        post = λ a e. tt;
      }

  -- Decrypting bytes from anywhere into a slice.
  opened-Keeps :
      AeadLaws ext.aead
      → (input : List ℕ) (dec : Cursor) (w : World) → IsSound w.0
      → Inside dec w.0
      → Keeps Anything w (
          body_read ext dec w.0 w.1
            (cryptomsg_decrypt_body ext.aead ext.hkdf w.0.crypto_state input (dec.end - dec.start)))
  opened-Keeps laws input dec w s i =
      let cap : ℕ = dec.end - dec.start in
      body_read-Keeps dec w (cryptomsg_decrypt_body ext.aead ext.hkdf w.0.crypto_state input cap) s
        i
        λ plain e.
          let o =
            decrypt_body-BodyOpened ext.aead ext.hkdf w.0.crypto_state
              (cryptomsg_decrypt_body ext.aead ext.hkdf w.0.crypto_state input cap).1 input cap
              plain (rw e refl) in
          omega (arith, o.room, laws.length-decrypt _ _ _ _ _ o.opens)

  decrypt_body-Keeps :
      AeadLaws ext.aead
      → (enc dec : Cursor) (w : World) → IsSound w.0
      → Inside dec w.0
      → Keeps Anything w (decrypt_body ext enc dec w)
  unfolding decrypt_body
  decrypt_body-Keeps laws enc dec w =
      opened-Keeps laws (load w.0.memory enc.start (enc.end - enc.start)) dec w

  pub decrypt_packet-Keeps :
      AeadLaws ext.aead
      → (packet : List ℕ) (dec : Cursor) (w : World) → IsSound w.0
      → Inside dec w.0
      → Keeps Anything w (decrypt_packet ext packet dec w)
  unfolding decrypt_packet
  decrypt_packet-Keeps laws packet dec w = opened-Keeps laws packet dec w

  -- A message lies in the message buffer.
  abbrev pub MessageInside : Ptr × ℕ → Lnsocket → Type 0
  MessageInside (ptr, len) ln = (ln.msgbuf.start ≤ ptr) × (ptr + len ≤ ln.msgbuf.end)

  given-Keeps :
      (dec : Cursor) (w : World)
      → IsSound w.0
      → Inside dec w.0
      → Keeps MessageInside w (some (dec.start, dec.end - dec.start), w)
  given-Keeps dec w s (low, _, fwd, high) = record {
    confines = Confines-refl w s;
    post = λ a e.
        let is : ◌≡◌ {A = Ptr × ℕ} (dec.start, dec.end - dec.start) a = cc in
        rw (← is) (low, omega (arith, fwd, high));
  }

  pub lnsocket_read-Keeps :
      AeadLaws ext.aead → (w : World) → IsSound w.0 → Keeps MessageInside w (lnsocket_read ext w)
  unfolding lnsocket_read
  lnsocket_read-Keeps laws w s =
      and_then-Keeps w (some tt, (cleared w.0, w.1)) _ (cleared-Keeps w s)
        λ _ v k _.
          and_then-Keeps v (read_header ext 18 v) _ (read_header-Keeps 18 v k.sound) λ hdr v1 k1 _.
            and_then-Keeps v1 (decrypt_header ext hdr v1) _ (decrypt_header-Keeps hdr v1 k1.sound)
              λ size v2 k2 _.
                and_then-Keeps v2 (slice ext (size + 16) Note.out_of_memory v2) _
                  (slice-Keeps (size + 16) Note.out_of_memory v2 k2.sound)
                  λ enc v3 k3 enc_in.
                    and_then-Keeps v3 (slice ext size Note.out_of_memory_sizes v3) _
                      (slice-Keeps size Note.out_of_memory_sizes v3 k3.sound)
                      λ dec v4 k4 dec_in.
                        and_then-Keeps v4 (read_body ext enc v4) _
                          (read_body-Keeps enc v4 k4.sound (Inside-Confines enc v3 v4 k4 enc_in.0))
                          λ _ v5 k5 _.
                            and_then-Keeps v5 (decrypt_body ext enc dec v5) _
                              (decrypt_body-Keeps laws enc dec v5 k5.sound
                                (Inside-Confines dec v4 v5 k5 dec_in.0))
                              λ _ v6 k6 _. given-Keeps dec v6 k6.sound (
                                Inside-Confines dec v5 v6 k6
                                  (Inside-Confines dec v4 v5 k5 dec_in.0))
