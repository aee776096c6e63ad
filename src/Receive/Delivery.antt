-- ===== src/Receive/Delivery.antt =====
-- `lnsocket_read` of what the other side encrypted.
use lnsocket.Prelude.{
  ℕ, ◌+◌, ◌-◌, ◌≤◌, ◌<◌, ◌≡◌, refl, ◌∙◌, some, none, List, ◌++◌, append_assoc, arith, length,
}
use lnsocket.Prelude.Bytes.{IsU16}
use lnsocket.Memory.{Ptr, store, load, load-store}
use lnsocket.Cursor.{Cursor, reset_cursor}
use lnsocket.Cursor.Alloc.{after_slice}
use lnsocket.Errors.{Note}
use lnsocket.Primitives.{Externals, AeadLaws}
use lnsocket.Crypto.{CryptoState}
use lnsocket.Crypto.Transport.{
  Mirrors, header_of, body_of, packet, halfway, sent, received, received-Mirrors,
}
use lnsocket.Net.{Net}
use lnsocket.Net.Stream.{Carries, read_exact}
use lnsocket.State.{Lnsocket}
use lnsocket.Io.{cleared, with_buffer, buffer_of, >>=-eq_some, >>=-eq_none}
use lnsocket.Receive.{read_header, read_body, decrypt_header, slice, decrypt_body, lnsocket_read}
use lnsocket.Receive.Steps.{
  behind, read_header-Takes, slice_fits, slice_full, read_body-Takes, header_decrypts,
  body_decrypts,
}

module _ (ext : Externals) where
  -- The state of the socket after a message was read.
  abbrev opened : Lnsocket → CryptoState → ℕ → Lnsocket
  unfolding reset_cursor
  opened ln cs size =
      let a : Lnsocket = record (cleared ln) { crypto_state = cs } in
      let b : Lnsocket = with_buffer a (after_slice (buffer_of a) (size + 16)) in
      with_buffer b (after_slice (buffer_of b) size)

  abbrev pub after_read : Lnsocket → CryptoState → List ℕ → List ℕ → Lnsocket
  unfolding reset_cursor
  after_read ln s msg body =
      let o : Lnsocket = opened ln (received ext.hkdf ln.crypto_state) (length msg) in
      record o {
        memory =
            store (store o.memory ln.msgbuf.start body) (ln.msgbuf.start + (length msg + 16)) msg;
      }

  module _ (laws : AeadLaws ext.aead) (s : CryptoState) (ln : Lnsocket) (net : Net)
      (msg rest : List ℕ) where
    abbrev pub body_net : Net
    body_net = behind (behind net 18) (length msg + 16)

    abbrev enc : Cursor
    enc = record {
      start = ln.msgbuf.start;
      p = ln.msgbuf.start;
      end = ln.msgbuf.start + (length msg + 16);
    }

    abbrev dec : Cursor
    dec = record {
      start = ln.msgbuf.start + (length msg + 16);
      p = ln.msgbuf.start + (length msg + 16);
      end = ln.msgbuf.start + (length msg + 16) + length msg;
    }

    pub read_steps :
        Mirrors s ln.crypto_state
        → IsU16 (length msg)
        → ln.msgbuf.start + (length msg + 16) + length msg ≤ ln.msgbuf.end
        → Carries net.events (packet ext.aead s msg ++ rest)
        → lnsocket_read ext (ln, net) ≡ (
          some (ln.msgbuf.start + (length msg + 16), length msg),
          (after_read ln s msg (body_of ext.aead s msg), body_net),
        )
    unfolding lnsocket_read reset_cursor
    read_steps v short room c =
        let H : List ℕ = header_of ext.aead s msg in
        let B : List ℕ = body_of ext.aead s msg in
        let nh : length H ≡ 18 = laws.length-encrypt _ _ _ _ in
        let nb : length B ≡ length msg + 16 = laws.length-encrypt _ _ _ _ in
        let t1 = read_exact H (B ++ rest) 18 nh (rw append_assoc at c) in
        let t2 = read_exact B rest (length msg + 16) nb t1.carries in
        let w2 : Lnsocket = record (cleared ln) { crypto_state = halfway ln.crypto_state } in
        let w3 : Lnsocket = with_buffer w2 (after_slice (buffer_of w2) (length msg + 16)) in
        let w4 : Lnsocket = with_buffer w3 (after_slice (buffer_of w3) (length msg)) in
        let w5 : Lnsocket = record w4 { memory = store w4.memory ln.msgbuf.start B } in
        let span : ln.msgbuf.start + (length msg + 16) - ln.msgbuf.start ≡ length msg + 16 =
          omega arith in
        let size : ln.msgbuf.start
              + (length msg + 16)
              + length msg
              - (ln.msgbuf.start + (length msg + 16))
            ≡ length msg =
          omega arith in
        >>=-eq_some (read_header ext 18) _
          (read_header-Takes ext (cleared ln) net 18 H (B ++ rest) t1)
        ∙ >>=-eq_some (decrypt_header ext H) _
            (header_decrypts ext laws s (cleared ln) (behind net 18) msg v short)
        ∙ >>=-eq_some (slice ext (length msg + 16) Note.out_of_memory) _
            (slice_fits ext w2 (behind net 18) (length msg + 16) Note.out_of_memory (omega arith))
        ∙ >>=-eq_some (slice ext (length msg) Note.out_of_memory_sizes) _
            (slice_fits ext w3 (behind net 18) (length msg) Note.out_of_memory_sizes (omega arith))
        ∙ >>=-eq_some (read_body ext enc) _
            (read_body-Takes ext w4 (behind net 18) ln.msgbuf.start (length msg + 16) B rest t2)
        ∙ >>=-eq_some (decrypt_body ext enc dec) _ (
            body_decrypts ext laws s ln.crypto_state w5 body_net msg enc dec v refl
              (rw span (rw nb at (load-store w4.memory ln.msgbuf.start B))) (omega arith))
        ∙ rw size

    pub body_net-Carries :
        Carries net.events (packet ext.aead s msg ++ rest) → Carries body_net.events rest
    body_net-Carries c =
        let t1 =
          read_exact (header_of ext.aead s msg) (body_of ext.aead s msg ++ rest) 18
            (laws.length-encrypt _ _ _ _) (rw append_assoc at c) in
        (read_exact (body_of ext.aead s msg) rest (length msg + 16) (laws.length-encrypt _ _ _ _)
          t1.carries).carries

    -- What the reading of a message leaves of the socket.
    pub after_read_same :
        let o = after_read ln s msg (body_of ext.aead s msg) in
        (o.socket ≡ ln.socket)
        × (o.msgbuf.start ≡ ln.msgbuf.start)
        × (o.msgbuf.end ≡ ln.msgbuf.end)
        × (o.crypto_state ≡ received ext.hkdf ln.crypto_state)
    unfolding reset_cursor
    after_read_same = (refl, refl, refl, refl)

    -- The stream begins with the packet of a message of the side that this socket mirrors, in any
    -- pieces, and the buffer has room for the packet without its header and for the message. Then
    -- `lnsocket_read` gives a pointer to the message and its length, leaves the other bytes of the
    -- stream, and the two sides stay in step.
    pub read_delivers :
        Mirrors s ln.crypto_state
        → IsU16 (length msg)
        → ln.msgbuf.start + (length msg + 16) + length msg ≤ ln.msgbuf.end
        → Carries net.events (packet ext.aead s msg ++ rest)
        → (ptr : Ptr) × (ln' : Lnsocket) × (net' : Net) × (lnsocket_read ext (ln, net)
            ≡ (some (ptr, length msg), (ln', net')))
          × (load ln'.memory ptr (length msg) ≡ msg)
          × Mirrors (sent ext.hkdf s) ln'.crypto_state
          × Carries net'.events rest
          × (ln'.msgbuf.start ≡ ln.msgbuf.start)
          × (ln'.msgbuf.end ≡ ln.msgbuf.end)
    unfolding reset_cursor
    read_delivers v short room c =
        let H : List ℕ = header_of ext.aead s msg in
        let B : List ℕ = body_of ext.aead s msg in
        let t1 = read_exact H (B ++ rest) 18 (laws.length-encrypt _ _ _ _) (rw append_assoc at c) in
        let t2 = read_exact B rest (length msg + 16) (laws.length-encrypt _ _ _ _) t1.carries in
        (
          _,
          _,
          _,
          read_steps v short room c,
          load-store _ _ msg,
          received-Mirrors ext.hkdf s ln.crypto_state v,
          t2.carries,
          refl,
          refl,
        )

    -- The stream begins with the packet of a message of the side that this socket mirrors. Where its
    -- encrypted body fits in the buffer and the message behind it does not, `lnsocket_read` fails with
    -- the body still in the stream.
    pub read_too_large :
        Mirrors s ln.crypto_state
        → IsU16 (length msg)
        → ln.msgbuf.start + (length msg + 16) ≤ ln.msgbuf.end
        → ln.msgbuf.end < ln.msgbuf.start + (length msg + 16) + length msg
        → Carries net.events (packet ext.aead s msg ++ rest)
        → (ln' : Lnsocket) × (net' : Net) × (lnsocket_read ext (ln, net) ≡ (none, (ln', net')))
          × Carries net'.events (body_of ext.aead s msg ++ rest)
    unfolding lnsocket_read reset_cursor
    read_too_large v short room full c =
        let H : List ℕ = header_of ext.aead s msg in
        let B : List ℕ = body_of ext.aead s msg in
        let t1 = read_exact H (B ++ rest) 18 (laws.length-encrypt _ _ _ _) (rw append_assoc at c) in
        let w2 : Lnsocket = record (cleared ln) { crypto_state = halfway ln.crypto_state } in
        let w3 : Lnsocket = with_buffer w2 (after_slice (buffer_of w2) (length msg + 16)) in
        (
          _,
          _,
          >>=-eq_some (read_header ext 18) _
                (read_header-Takes ext (cleared ln) net 18 H (B ++ rest) t1)
              ∙ >>=-eq_some (decrypt_header ext H) _
                  (header_decrypts ext laws s (cleared ln) (behind net 18) msg v short)
              ∙ >>=-eq_some (slice ext (length msg + 16) Note.out_of_memory) _
                  (slice_fits ext w2 (behind net 18) (length msg + 16) Note.out_of_memory room)
              ∙ >>=-eq_none (slice ext (length msg) Note.out_of_memory_sizes) _
                  (slice_full ext w3 (behind net 18) (length msg) Note.out_of_memory_sizes full),
          t1.carries,
        )
