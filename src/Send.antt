-- ===== src/Send.antt =====
-- The sending half of lnsocket.c: `lnsocket_encrypt`, `lnsocket_write` and `lnsocket_send`.
pub mod Delivery
pub mod Untouched
pub mod Confined
pub mod Pushed
use lnsocket.Prelude.{
  ℕ, ◌+◌, ◌-◌, ◌%◌, ◌^◌, Bool, true, false, Option, none, some, List, ◌==◌, leb, ltb, if◌then◌else◌,
  length,
}
use lnsocket.Memory.{Ptr, store, load}
use lnsocket.Cursor.{
  Cursor, Buffer, reset_cursor, make_cursor, cursor_slice, cursor_push_u16, cursor_pull_u16,
  cursor_push,
}
use lnsocket.Errors.{Note}
use lnsocket.Primitives.{Externals}
use lnsocket.Crypto.{
  CryptoState, cryptomsg_decrypt_header, cryptomsg_decrypt_body, cryptomsg_encrypt_msg,
}
use lnsocket.Net.{Net, read_all, write}
use lnsocket.State.{Lnsocket, note}
use lnsocket.Io.{
  World, Io, and_then, ◌>>=◌, ◌>>◌, pure, modify, fail, cleared, reset_msgbuf, with_buffer,
  buffer_of,
}

module _ (ext : Externals) where
  -- Whether an address stands for a descriptor: `socket` is 0 before a connection is made.
  unfoldable pub socket_open : Io (Unit {0})
  socket_open (ln, net) =
      if ln.socket == 0 then fail ext Note.not_connected (ln, net) else (some tt, (ln, net))

  unfoldable pub room_for_output : Io (Unit {0})
  room_for_output (ln, net) =
      if leb ln.msgbuf.end ln.msgbuf.start
      then fail ext Note.out_of_memory (ln, net)
      else (some tt, (ln, net))

  unfoldable pub encrypt_to_msgbuf : Ptr → ℕ → Io ℕ
  encrypt_to_msgbuf msg msglen (ln, net) =
      let e =
        cryptomsg_encrypt_msg ext.aead ext.hkdf ln.crypto_state ln.memory msg msglen ln.msgbuf.start
          (ln.msgbuf.end - ln.msgbuf.start) in
      let ln' = record ln { memory = e.mem; crypto_state = e.state } in
      if e.done then (some e.outlen, (ln', net)) else fail ext Note.encrypt_failed (ln', net)

  -- `outlen`. The message may stand in the buffer that the ciphertext goes to.
  unfoldable pub lnsocket_encrypt : Ptr → ℕ → Io ℕ
  unfolding socket_open room_for_output encrypt_to_msgbuf
  lnsocket_encrypt msg msglen = do
    modify reset_msgbuf
    socket_open
    room_for_output
    encrypt_to_msgbuf msg msglen

  written : ℕ → Lnsocket → Option ℕ × Net → Option (Unit {0}) × World
  written outlen ln (none, net) = fail ext Note.write_failed (ln, net)
  written outlen ln (some n, net) =
      if n == outlen then (some tt, (ln, net)) else fail ext Note.write_failed (ln, net)

  unfoldable pub write_msgbuf : ℕ → Io (Unit {0})
  unfolding written
  write_msgbuf outlen (ln, net) =
      written outlen ln (write net (load ln.memory ln.msgbuf.start outlen))

  unfoldable pub lnsocket_write : Ptr → ℕ → Io (Unit {0})
  unfolding write_msgbuf
  lnsocket_write msg msglen = do outlen ← lnsocket_encrypt msg msglen; write_msgbuf outlen

  pushed : Note → Lnsocket → Net → Bool × Buffer → Option (Unit {0}) × World
  pushed n ln net (true, b) = (some tt, (with_buffer ln b, net))
  pushed n ln net (false, b) = fail ext n (with_buffer ln b, net)

  unfoldable pub push_msgbuf : (Buffer → Bool × Buffer) → Note → Io (Unit {0})
  unfolding pushed
  push_msgbuf f n (ln, net) = pushed n ln net (f (buffer_of ln))

  -- The message that was put together in `msgbuf` is written from there.
  unfoldable pub write_pushed : Io (Unit {0})
  write_pushed (ln, net) =
      lnsocket_write ln.msgbuf.start ((ln.msgbuf.p - ln.msgbuf.start) % 2 ^ 16) (ln, net)

  -- `payload` is the bytes at the pointer.
  unfoldable pub lnsocket_send : ℕ → List ℕ → Io (Unit {0})
  unfolding push_msgbuf write_pushed
  lnsocket_send msg_type payload = do
    modify reset_msgbuf
    push_msgbuf (cursor_push_u16 msg_type) Note.could_not_write_type
    push_msgbuf (cursor_push payload) Note.payload_too_big
    write_pushed
