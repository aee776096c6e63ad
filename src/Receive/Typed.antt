-- ===== src/Receive/Typed.antt =====
-- The type and the payload that `lnsocket_recv` gives of what the other side encrypted.
use lnsocket.Prelude.{
  ℕ, ◌+◌, ◌-◌, ◌≡◌, refl, ap, false, ltb, ◌∙◌, some, List, ◌++◌, arith, length, le→ltb,
}
use lnsocket.Prelude.Bytes.{IsU16, be16_bytes}
use lnsocket.Memory.{Ptr, load, load_split}
use lnsocket.Cursor.{Buffer, make_cursor}
use lnsocket.Cursor.Pull.{cursor_pull_u16-load}
use lnsocket.Primitives.{Externals, AeadLaws}
use lnsocket.Crypto.{CryptoState}
use lnsocket.Crypto.Transport.{Mirrors, packet, sent}
use lnsocket.Net.{Net}
use lnsocket.Net.Stream.{Carries}
use lnsocket.State.{Lnsocket}
use lnsocket.Io.{World, >>=-eq_some}
use lnsocket.Receive.{lnsocket_read, lnsocket_recv, pull_type, received_type}
use lnsocket.Receive.Delivery.{read_delivers}
use lnsocket.Receive.Messages.{Fits}

-- A message of a type.
abbrev pub typed : ℕ → List ℕ → List ℕ
typed t body = be16_bytes t ++ body

module _ (ext : Externals) (laws : AeadLaws ext.aead) where
  pull_type-typed :
      (ln : Lnsocket) (net : Net) (t : ℕ) (body : List ℕ) (ptr : Ptr)
      → IsU16 t
      → load ln.memory ptr (length (typed t body)) ≡ typed t body
      → pull_type ext (ptr, length (typed t body)) (ln, net)
        ≡ (some (t, ptr + 2, length body), (ln, net))
  unfolding pull_type received_type make_cursor
  pull_type-typed ln net t body ptr h text =
      let (front, back) = load_split ln.memory ptr (be16_bytes t) body text in
      let msg : Buffer = record {
        mem = ln.memory;
        cur = make_cursor ptr (ptr + length (typed t body));
      } in
      let n : length (typed t body) - 2 ≡ length body = omega arith in
      let room : ltb (ptr + length (typed t body)) (ptr + 2 + length body) ≡ false =
        le→ltb _ _ (omega arith) in
      ap (received_type ext (length (typed t body)) ln net)
        (cursor_pull_u16-load msg t h (omega arith) front)
      ∙ rw (n, room) refl

  -- What the call of `lnsocket_recv` gives where the stream begins with the packet of a typed message.
  pub record Delivered (s : CryptoState) (ln : Lnsocket) (net : Net) (t : ℕ) (body rest : List ℕ)
      : Type 0 where
    pub ptr : Ptr
    pub world : World
    pub answer : lnsocket_recv ext (ln, net) ≡ (some (t, ptr, length body), world)
    pub payload : load world.0.memory ptr (length body) ≡ body
    pub mirrors : Mirrors (sent ext.hkdf s) world.0.crypto_state
    pub carries : Carries world.1.events rest
    pub start : world.0.msgbuf.start ≡ ln.msgbuf.start
    pub end : world.0.msgbuf.end ≡ ln.msgbuf.end

  -- The stream begins with the packet of a message of a 16-bit type, of the side that this socket
  -- mirrors, and the buffer has room for it. Then `lnsocket_recv` gives the type and a pointer to the
  -- payload with its length, leaves the other bytes of the stream, and the two sides stay in step.
  pub recv_delivers :
      (s : CryptoState) (ln : Lnsocket) (net : Net) (t : ℕ) (body rest : List ℕ)
      → Mirrors s ln.crypto_state
      → IsU16 t
      → Fits ext ln (typed t body)
      → Carries net.events (packet ext.aead s (typed t body) ++ rest)
      → Delivered s ln net t body rest
  unfolding lnsocket_recv
  recv_delivers s ln net t body rest v h fits c =
      let (ptr, ln', net', done, text, v', c', same_start, same_end) =
        read_delivers ext laws s ln net (typed t body) rest v fits.0 (omega (arith, fits.1)) c in
      record {
        ptr = ptr + 2;
        world = (ln', net');
        answer =
            >>=-eq_some (lnsocket_read ext) _ done ∙ pull_type-typed ln' net' t body ptr h text;
        payload = (load_split ln'.memory ptr (be16_bytes t) body text).1;
        mirrors = v';
        carries = c';
        start = same_start;
        end = same_end;
      }
