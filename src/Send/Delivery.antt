-- ===== src/Send/Delivery.antt =====
-- What goes out over the connection when a message is written.
use lnsocket.Prelude.{
  ℕ, ◌+◌, ◌-◌, ◌≤◌, ◌≡◌, ◌≢◌, refl, ap, ◌∙◌, true, false, some, List, [], ◌++◌, arith, length, ◌==◌,
  lt→leb,
}
use lnsocket.Memory.{Ptr, store, load, load-store}
use lnsocket.Cursor.{reset_cursor}
use lnsocket.Primitives.{Externals, AeadLaws}
use lnsocket.Crypto.Transport.{
  Apart, packet, output, output-packet, length-output, sent, encrypt_fits,
}
use lnsocket.Net.{Net, write}
use lnsocket.Net.Stream.{write_free}
use lnsocket.State.{Lnsocket}
use lnsocket.Io.{reset_msgbuf, >>=-eq_some}
use lnsocket.Send.{encrypt_to_msgbuf, lnsocket_encrypt, written, write_msgbuf, lnsocket_write}

module _ (ext : Externals) (laws : AeadLaws ext.aead) where
  -- What the encryption writes.
  abbrev pub packet_of : Lnsocket → Ptr → ℕ → List ℕ
  packet_of ln msg mlen = output ext.aead ln.crypto_state ln.memory msg mlen ln.msgbuf.start

  abbrev pub after_write : Lnsocket → Ptr → ℕ → Lnsocket
  after_write ln msg mlen = record ln {
    memory = store ln.memory ln.msgbuf.start (packet_of ln msg mlen);
    crypto_state = sent ext.hkdf ln.crypto_state;
  }

  encrypt_to_fits :
      (ln : Lnsocket) (net : Net) (msg : Ptr) (mlen : ℕ)
      → mlen ≤ ln.msgbuf.end - ln.msgbuf.start
      → encrypt_to_msgbuf ext msg mlen (ln, net)
        ≡ (some (2 + 16 + mlen + 16), (after_write ln msg mlen, net))
  unfolding encrypt_to_msgbuf
  encrypt_to_fits ln net msg mlen fits =
      rw
        (encrypt_fits ext.aead ext.hkdf ln.crypto_state ln.memory msg mlen ln.msgbuf.start
          (ln.msgbuf.end - ln.msgbuf.start) fits)
        refl

  -- The socket is open, and the buffer has room for the packet.
  pub record Ready (ln : Lnsocket) (mlen : ℕ) : Type 0 where
    pub opened : ln.socket ≢ 0
    pub room : ln.msgbuf.start + (mlen + 34) ≤ ln.msgbuf.end

  pub encrypt-Ready :
      (ln : Lnsocket) (net : Net) (msg : Ptr) (mlen : ℕ)
      → Ready ln mlen
      → lnsocket_encrypt ext msg mlen (ln, net)
        ≡ (some (mlen + 34), (after_write (reset_msgbuf ln) msg mlen, net))
  unfolding lnsocket_encrypt reset_cursor
  encrypt-Ready ln net msg mlen ok =
      let open_test : (ln.socket == 0) ≡ false = let o = ok.opened in ground arith in
      let n : 2 + 16 + mlen + 16 ≡ mlen + 34 = omega arith in
      rw (open_test, lt→leb ln.msgbuf.end ln.msgbuf.start (omega (arith, ok.room)))
        (rw n at (encrypt_to_fits (reset_msgbuf ln) net msg mlen (omega (arith, ok.room))))

  write_all :
      (ln : Lnsocket) (net : Net) (msg : Ptr) (mlen : ℕ)
      → net.limits ≡ []
      → write_msgbuf ext (mlen + 34) (after_write ln msg mlen, net) ≡ (
        some tt,
        (after_write ln msg mlen, record net { sent = net.sent ++ packet_of ln msg mlen }),
      )
  unfolding write_msgbuf
  write_all ln net msg mlen free =
      let pkt : List ℕ = packet_of ln msg mlen in
      let n : length pkt ≡ mlen + 34 =
        length-output ext.aead laws ext.hkdf ln.crypto_state ln.memory msg mlen ln.msgbuf.start in
      let l : load (after_write ln msg mlen).memory ln.msgbuf.start (mlen + 34) ≡ pkt =
        rw n at (load-store ln.memory ln.msgbuf.start pkt) in
      let complete : (mlen + 34 == mlen + 34) ≡ true = ground arith in
      ap (λ (bytes : List ℕ). written ext (mlen + 34) (after_write ln msg mlen) (write net bytes)) l
      ∙ ap (written ext (mlen + 34) (after_write ln msg mlen)) (write_free net pkt free)
      ∙ rw (n, complete)

  -- What is written to an open socket that takes everything: what the encryption wrote.
  pub write_sends :
      (ln : Lnsocket) (net : Net) (msg : Ptr) (mlen : ℕ)
      → Ready ln mlen
      → net.limits ≡ []
      → lnsocket_write ext msg mlen (ln, net) ≡ (
        some tt,
        (
          after_write (reset_msgbuf ln) msg mlen,
          record net { sent = net.sent ++ packet_of ln msg mlen },
        ),
      )
  unfolding lnsocket_write reset_cursor
  write_sends ln net msg mlen ok free =
      >>=-eq_some (lnsocket_encrypt ext msg mlen) _ (encrypt-Ready ln net msg mlen ok)
      ∙ write_all (reset_msgbuf ln) net msg mlen free

  -- A message that stands apart from the place of its packet in the buffer, or where its ciphertext
  -- goes, goes out as the packet of that message, to an open socket that takes everything, if the
  -- buffer has room for the packet; and the state moves on to the next message.
  pub write_delivers :
      (ln : Lnsocket) (net : Net) (msg : Ptr) (mlen : ℕ)
      → Ready ln mlen
      → net.limits ≡ []
      → Apart msg mlen ln.msgbuf.start
      → (ln' : Lnsocket) × (lnsocket_write ext msg mlen (ln, net) ≡ (
        some tt,
        (
          ln',
          record net {
            sent = net.sent ++ packet ext.aead ln.crypto_state (load ln.memory msg mlen);
          },
        ),
      ))
        × (ln'.crypto_state ≡ sent ext.hkdf ln.crypto_state)
  unfolding reset_cursor
  write_delivers ln net msg mlen ok free apart =
      let same =
        output-packet ext.aead laws ext.hkdf ln.crypto_state ln.memory msg mlen ln.msgbuf.start
          apart in
      (
        after_write (reset_msgbuf ln) msg mlen,
        write_sends ln net msg mlen ok free
            ∙ ap
                (λ (bytes : List ℕ). (
                  some tt,
                  (after_write (reset_msgbuf ln) msg mlen, record net { sent = net.sent ++ bytes }),
                ))
                same,
        refl,
      )
