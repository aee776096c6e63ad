-- ===== src/Conversation/Moves.antt =====
-- What a write and a read do to a conversation.
use lnsocket.Prelude.{ℕ, ◌+◌, ◌≤◌, ◌≡◌, refl, ap, ◌∙◌, List, [], ◌∷◌, ◌++◌, arith, length}
use mathlib.Core.Path.{ap₂}
use lnsocket.Memory.{load-store, Ptr, load}
use lnsocket.Cursor.{reset_cursor}
use lnsocket.Primitives.{Externals, AeadLaws}
use lnsocket.Crypto.{CryptoState}
use lnsocket.Crypto.Transport.{Mirrors, packet, body_of, sent, received}
use lnsocket.Net.{Net, Event}
use lnsocket.Net.Stream.{Carries}
use lnsocket.State.{Lnsocket}
use lnsocket.Receive.Messages.{Fits}
use lnsocket.Receive.Delivery.{after_read, read_steps, after_read_same, body_net, body_net-Carries}
use lnsocket.Send.Delivery.{write_delivers}
use lnsocket.Send.Untouched.{Untouched, lnsocket_write-Untouched}
use lnsocket.Conversation.{
  Talk, line, bytes_left, after_writing, after_reading, left_writes, right_reads, Fair,
}
use lnsocket.Conversation.Queue.{bytes_left-Carries}

module _ (ext : Externals) (laws : AeadLaws ext.aead) where
  -- What a fair write does to both directions.
  pub record Written (t : Talk) (msg : List ℕ) (u : Talk) : Type 0 where
    pub ln : Lnsocket
    pub is : u ≡ record t {
      left = ln;
      rightward = t.rightward ++ packet ext.aead t.left.crypto_state msg;
      left_sent = t.left_sent ++ msg ∷ [];
    }
    pub crypto_state : ln.crypto_state ≡ sent ext.hkdf t.left.crypto_state
    pub start : ln.msgbuf.start ≡ t.left.msgbuf.start
    pub end : ln.msgbuf.end ≡ t.left.msgbuf.end

  pub left_writes-Written :
      (t : Talk) (msg : Ptr) (len : ℕ)
      → Fair ext laws t msg len
      → Written t (load t.left.memory msg len) (left_writes ext msg len t)
  unfolding left_writes after_writing
  left_writes-Written t msg len f =
      let (ln, sends, moved) =
        write_delivers ext laws t.left (line []) msg len f.ready refl f.apart in
      let u : Untouched (t.left, line []) (ln, _) =
        rw sends at (lnsocket_write-Untouched ext msg len (t.left, line [])) in
      record {
        ln = ln;
        is = ap (after_writing t (load t.left.memory msg len)) sends;
        crypto_state = moved;
        start = u.start;
        end = u.end;
      }

  -- What a read does where a message waits.
  pub record Read (t : Talk) (from : CryptoState) (msg : List ℕ) (rest : List ℕ) (u : Talk)
      : Type 0 where
    pub ln : Lnsocket
    pub is : u ≡ record t { right = ln; rightward = rest; right_got = t.right_got ++ msg ∷ [] }
    pub crypto_state : ln.crypto_state ≡ received ext.hkdf t.right.crypto_state
    pub start : ln.msgbuf.start ≡ t.right.msgbuf.start
    pub end : ln.msgbuf.end ≡ t.right.msgbuf.end

  pub right_reads-Read :
      (t : Talk) (from : CryptoState) (msg rest : List ℕ) (events : List Event)
      → Mirrors from t.right.crypto_state
      → Fits ext t.right msg
      → Carries events (packet ext.aead from msg ++ rest)
      → Read t from msg rest (right_reads ext events t)
  unfolding right_reads after_reading reset_cursor
  right_reads-Read t from msg rest events v fits c =
      let net : Net = line events in
      let body : List ℕ = body_of ext.aead from msg in
      let size : ℕ = length msg in
      let room : t.right.msgbuf.start + (size + 16) + size ≤ t.right.msgbuf.end =
        omega (arith, fits.1) in
      let (_, start, end, state) = after_read_same ext laws from t.right net msg rest in
      let left : bytes_left (body_net ext laws from t.right net msg rest).events ≡ rest =
        bytes_left-Carries (body_net-Carries ext laws from t.right net msg rest c) in
      let o : Lnsocket = after_read ext t.right from msg body in
      let text : load o.memory (t.right.msgbuf.start + (size + 16)) size ≡ msg =
        load-store _ _ msg in
      record {
        ln = o;
        is =
            ap (after_reading t) (read_steps ext laws from t.right net msg rest v fits.0 room c)
            ∙ ap₂
                (λ (bytes got : List ℕ). record t {
                  right = o;
                  rightward = bytes;
                  right_got = t.right_got ++ got ∷ [];
                })
                left text;
        crypto_state = state;
        start = start;
        end = end;
      }
