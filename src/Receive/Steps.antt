-- ===== src/Receive/Steps.antt =====
-- The steps of `lnsocket_read`, each where it succeeds, and the allocation where it fails.
use lnsocket.Prelude.{ℕ, ◌+◌, ◌-◌, ◌≤◌, ◌<◌, ◌≡◌, ap, some, List, arith, length}
use lnsocket.Prelude.Bytes.{IsU16}
use lnsocket.Memory.{store, load}
use lnsocket.Cursor.{Cursor}
use lnsocket.Cursor.Alloc.{after_slice, slice-after_slice, cursor_slice_full}
use lnsocket.Errors.{Note}
use lnsocket.Primitives.{Externals, AeadLaws}
use lnsocket.Crypto.{CryptoState}
use lnsocket.Crypto.Transport.{
  Mirrors, header_of, body_of, halfway, received, decrypt_header_of, decrypt_body_of,
}
use lnsocket.Net.{Net, read_all}
use lnsocket.Net.Stream.{Takes}
use lnsocket.State.{Lnsocket}
use lnsocket.Io.{with_buffer, buffer_of, fail}
use lnsocket.Receive.{
  read_header, read_body, decrypt_header, slice, decrypt_body, sliced, header_read, body_read,
}

-- The connection behind `n` bytes.
abbrev pub behind : Net → ℕ → Net
behind net n = record net { events = (read_all net.events n).rest }

module _ (ext : Externals) where
  pub read_header-Takes :
      (ln : Lnsocket) (net : Net) (n : ℕ) (xs ys : List ℕ)
      → Takes (read_all net.events n) xs ys
      → read_header ext n (ln, net) ≡ (some xs, (ln, behind net n))
  unfolding read_header
  read_header-Takes ln net n xs ys t = rw (t.done, t.bytes)

  pub slice_fits :
      (ln : Lnsocket) (net : Net) (size : ℕ) (n : Note)
      → ln.msgbuf.p + size ≤ ln.msgbuf.end
      → slice ext size n (ln, net) ≡ (
        some (record { start = ln.msgbuf.p; p = ln.msgbuf.p; end = ln.msgbuf.p + size }),
        (with_buffer ln (after_slice (buffer_of ln) size), net),
      )
  unfolding slice
  slice_fits ln net size n room =
      ap (sliced ext n ln net) (slice-after_slice (buffer_of ln) size room)

  pub slice_full :
      (ln : Lnsocket) (net : Net) (size : ℕ) (n : Note)
      → ln.msgbuf.end < ln.msgbuf.p + size
      → slice ext size n (ln, net) ≡ fail ext n (ln, net)
  unfolding slice
  slice_full ln net size n full =
      ap (sliced ext n ln net) (cursor_slice_full (buffer_of ln) size full)

  pub read_body-Takes :
      (ln : Lnsocket) (net : Net) (a n : ℕ) (xs ys : List ℕ)
      → Takes (read_all net.events n) xs ys
      → read_body ext (record { start = a; p = a; end = a + n }) (ln, net)
        ≡ (some tt, (record ln { memory = store ln.memory a xs }, behind net n))
  unfolding read_body
  read_body-Takes ln net a n xs ys t =
      let e : a + n - a ≡ n = omega arith in rw (e, t.done, t.bytes)

  pub header_decrypts :
      (laws : AeadLaws ext.aead) (s : CryptoState) (ln : Lnsocket) (net : Net) (msg : List ℕ)
      → Mirrors s ln.crypto_state
      → IsU16 (length msg)
      → decrypt_header ext (header_of ext.aead s msg) (ln, net)
        ≡ (some (length msg), (record ln { crypto_state = halfway ln.crypto_state }, net))
  unfolding decrypt_header
  header_decrypts laws s ln net msg v short =
      ap (header_read ext ln net)
        (decrypt_header_of ext.aead laws ext.hkdf s ln.crypto_state msg v short)

  pub body_decrypts :
      (laws : AeadLaws ext.aead) (s r : CryptoState) (ln : Lnsocket) (net : Net) (msg : List ℕ)
      (enc dec : Cursor)
      → Mirrors s r
      → ln.crypto_state ≡ halfway r
      → load ln.memory enc.start (enc.end - enc.start) ≡ body_of ext.aead s msg
      → length msg ≤ dec.end - dec.start
      → decrypt_body ext enc dec (ln, net) ≡ (
        some tt,
        (
          record ln { crypto_state = received ext.hkdf r; memory = store ln.memory dec.start msg },
          net,
        ),
      )
  unfolding decrypt_body
  body_decrypts laws s r ln net msg enc dec v cs l room =
      rw (l, cs)
        (ap (body_read ext dec ln net)
          (decrypt_body_of ext.aead laws ext.hkdf s r msg (dec.end - dec.start) v room))
