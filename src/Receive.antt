-- ===== src/Receive.antt =====
-- The receiving half of lnsocket.c: `lnsocket_read`, `lnsocket_recv`, and the decryption that the
-- JavaScript binding calls.
pub mod Steps
pub mod Delivery
pub mod Messages
pub mod Typed
pub mod Progress
pub mod Confined
pub mod Packets
pub mod Payload
pub mod Inversion
pub mod Notes
pub mod Authentic
use lnsocket.Prelude.{
  ℕ, ◌+◌, ◌-◌, ◌%◌, ◌^◌, Bool, true, false, Option, none, some, List, ◌==◌, leb, ltb, if◌then◌else◌,
  length,
}
use lnsocket.Memory.{Ptr, store, load}
use lnsocket.Cursor.{
  Cursor, Buffer, reset_cursor, make_cursor, cursor_slice, cursor_push_u16, cursor_pull_u16,
  cursor_push,
}
use lnsocket.Errors.{Note}
use lnsocket.Primitives.{Externals}
use lnsocket.Crypto.{
  CryptoState, cryptomsg_decrypt_header, cryptomsg_decrypt_body, cryptomsg_encrypt_msg,
}
use lnsocket.Net.{Net, read_all, write}
use lnsocket.State.{Lnsocket, note}
use lnsocket.Io.{
  World, Io, and_then, ◌>>=◌, ◌>>◌, pure, modify, fail, cleared, reset_msgbuf, with_buffer,
  buffer_of,
}

module _ (ext : Externals) where
  -- `read_all` into an array of the caller's.
  unfoldable pub read_header : ℕ → Io (List ℕ)
  read_header size (ln, net) =
      let r = read_all net.events size in
      let net' = record net { events = r.rest } in
      if r.done then (some r.bytes, (ln, net')) else fail ext Note.failed_reading_header (ln, net')

  -- `read_all` into the slice `enc`.
  unfoldable pub read_body : Cursor → Io (Unit {0})
  read_body enc (ln, net) =
      let r = read_all net.events (enc.end - enc.start) in
      let ln' = record ln { memory = store ln.memory enc.p r.bytes } in
      let net' = record net { events = r.rest } in
      if r.done then (some tt, (ln', net')) else fail ext Note.failed_reading_body (ln', net')

  header_read : Lnsocket → Net → Option ℕ × CryptoState → Option ℕ × World
  header_read ln net (none, cs) =
      fail ext Note.failed_header_decrypt (record ln { crypto_state = cs }, net)
  header_read ln net (some size, cs) = (some size, (record ln { crypto_state = cs }, net))

  unfoldable pub decrypt_header : List ℕ → Io ℕ
  unfolding header_read
  decrypt_header hdr (ln, net) =
      header_read ln net (cryptomsg_decrypt_header ext.aead ln.crypto_state hdr)

  sliced : Note → Lnsocket → Net → Option Cursor × Buffer → Option Cursor × World
  sliced n ln net (none, b) = fail ext n (with_buffer ln b, net)
  sliced n ln net (some c, b) = (some c, (with_buffer ln b, net))

  unfoldable pub slice : ℕ → Note → Io Cursor
  unfolding sliced
  slice size n (ln, net) = sliced n ln net (cursor_slice (buffer_of ln) size)

  -- The plaintext goes to the slice `dec`.
  body_read : Cursor → Lnsocket → Net → Option (List ℕ) × CryptoState → Option (Unit {0}) × World
  body_read dec ln net (none, cs) =
      fail ext Note.error_decrypting_body (record ln { crypto_state = cs }, net)
  body_read dec ln net (some plain, cs) =
      (some tt, (record ln { crypto_state = cs; memory = store ln.memory dec.start plain }, net))

  unfoldable pub decrypt_body : Cursor → Cursor → Io (Unit {0})
  unfolding body_read
  decrypt_body enc dec (ln, net) = body_read dec ln net (
      cryptomsg_decrypt_body ext.aead ext.hkdf ln.crypto_state
        (load ln.memory enc.start (enc.end - enc.start)) (dec.end - dec.start))

  -- `*buf` and `*len`.
  unfoldable pub lnsocket_read : Io (Ptr × ℕ)
  lnsocket_read = do
    modify cleared
    hdr ← read_header 18
    size ← decrypt_header hdr
    enc ← slice (size + 16) Note.out_of_memory
    dec ← slice size Note.out_of_memory_sizes
    read_body enc
    decrypt_body enc dec
    pure (dec.start, dec.end - dec.start)

  -- `*msg_type`, `*payload` and `*payload_len`.
  received_type : ℕ → Lnsocket → Net → Option ℕ × Buffer → Option (ℕ × Ptr × ℕ) × World
  received_type msglen ln net (none, cur) = fail ext Note.could_not_read_msgtype (ln, net)
  received_type msglen ln net (some msg_type, cur) =
      if ltb cur.cur.end (cur.cur.p + (msglen - 2))
      then fail ext Note.recv_buffer_overflow (ln, net)
      else (some (msg_type, cur.cur.p, msglen - 2), (ln, net))

  unfoldable pub pull_type : Ptr × ℕ → Io (ℕ × Ptr × ℕ)
  unfolding received_type
  pull_type (msg, msglen) (ln, net) =
      received_type msglen ln net
        (cursor_pull_u16 (record { mem = ln.memory; cur = make_cursor msg (msg + msglen) }))

  unfoldable pub lnsocket_recv : Io (ℕ × Ptr × ℕ)
  unfolding pull_type
  lnsocket_recv = do msg ← lnsocket_read; pull_type msg

  unfoldable pub decrypt_packet : List ℕ → Cursor → Io (Unit {0})
  unfolding body_read
  decrypt_packet packet dec (ln, net) =
      body_read dec ln net
        (cryptomsg_decrypt_body ext.aead ext.hkdf ln.crypto_state packet (dec.end - dec.start))

  -- The packet of `size` bytes, 16 at least, is decrypted into `msgbuf`.
  unfoldable pub lnsocket_decrypt : List ℕ → Io ℕ
  lnsocket_decrypt packet = do
    modify reset_msgbuf
    dec ← slice (length packet - 16) Note.out_of_memory_sizes
    decrypt_packet packet dec
    pure (dec.end - dec.start)
