-- ===== src/Conversation.antt =====
-- Two sockets of lnsocket.c at the two ends of a connection: each may call `lnsocket_write` and
-- `lnsocket_read` whenever it likes, and the bytes between them come in any pieces. The connection
-- takes all bytes and loses none. What was sent and what was received is logged.
pub mod Queue
pub mod Moves
pub mod Links
pub mod Order
use lnsocket.Prelude.{ℕ, ◌+◌, ◌≤◌, ◌≡◌, ◌≢◌, ◌⊎◌, Option, none, some, List, [], ◌∷◌, ◌++◌}
use lnsocket.Memory.{Memory, Ptr, load}
use lnsocket.Primitives.{Externals, AeadLaws}
use lnsocket.Net.{Net, Event}
use lnsocket.Net.Stream.{Carries}
use lnsocket.Crypto.Transport.{Mirrors, Apart}
use lnsocket.State.{Lnsocket}
use lnsocket.Io.{World}
use lnsocket.Receive.{lnsocket_read}
use lnsocket.Receive.Messages.{Fits}
use lnsocket.Send.{lnsocket_write}
use lnsocket.Send.Delivery.{Ready}

-- The two ends, the bytes under way, and the logs.
pub record Talk : Type 0 where
  pub left : Lnsocket
  pub right : Lnsocket
  pub rightward : List ℕ
  pub leftward : List ℕ
  pub left_sent : List (List ℕ)
  pub right_got : List (List ℕ)
  pub right_sent : List (List ℕ)
  pub left_got : List (List ℕ)

-- The same from the other end.
abbrev pub turned : Talk → Talk
turned t = record {
  left = t.right;
  right = t.left;
  rightward = t.leftward;
  leftward = t.rightward;
  left_sent = t.right_sent;
  right_got = t.left_got;
  right_sent = t.left_sent;
  left_got = t.right_got;
}

-- Two ends with mirrored transport states at the beginning of a conversation.
pub record IsFresh (t : Talk) : Type 0 where
  pub there : Mirrors t.left.crypto_state t.right.crypto_state
  pub back : Mirrors t.right.crypto_state t.left.crypto_state
  pub rightward : t.rightward ≡ []
  pub leftward : t.leftward ≡ []
  pub left_sent : t.left_sent ≡ t.right_got
  pub right_sent : t.right_sent ≡ t.left_got

-- A connection on which `events` is to come.
abbrev pub line : List Event → Net
line events = record { events = events; limits = []; sent = [] }

-- The bytes that are still to come.
abbrev pub bytes_left : List Event → List ℕ
bytes_left [] = []
bytes_left (Event.chunk bs ∷ events) = bs ++ bytes_left events
bytes_left (Event.interrupted ∷ events) = bytes_left events
bytes_left (Event.failed ∷ events) = bytes_left events

after_writing : Talk → List ℕ → Option (Unit {0}) × World → Talk
after_writing t msg (none, (ln, net)) = record t { left = ln; rightward = t.rightward ++ net.sent }
after_writing t msg (some _, (ln, net)) = record t {
  left = ln;
  rightward = t.rightward ++ net.sent;
  left_sent = t.left_sent ++ msg ∷ [];
}

after_reading : Talk → Option (Ptr × ℕ) × World → Talk
after_reading t (none, (ln, net)) = record t { right = ln; rightward = bytes_left net.events }
after_reading t (some (ptr, len), (ln, net)) = record t {
  right = ln;
  rightward = bytes_left net.events;
  right_got = t.right_got ++ load ln.memory ptr len ∷ [];
}

module _ (ext : Externals) where
  -- The left end writes, and the right end reads what comes as `events`.
  unfoldable pub left_writes : Ptr → ℕ → Talk → Talk
  unfolding after_writing
  left_writes msg len t =
      after_writing t (load t.left.memory msg len) (lnsocket_write ext msg len (t.left, line []))

  unfoldable pub right_reads : List Event → Talk → Talk
  unfolding after_reading
  right_reads events t = after_reading t (lnsocket_read ext (t.right, line events))

  -- A message that both ends have room for, apart from its packet in the writer's buffer.
  pub record Fair (laws : AeadLaws ext.aead) (t : Talk) (msg : Ptr) (len : ℕ) : Type 0 where
    pub ready : Ready ext laws t.left len
    pub apart : Apart msg len t.left.msgbuf.start
    pub fits : Fits ext t.right (load t.left.memory msg len)

  -- What may happen next: the owner of an end changes its memory, an end writes, or an end reads
  -- when bytes have come.
  pub data Step (laws : AeadLaws ext.aead) (t u : Talk) : Type 0 where
    left_stores :
        (m : Memory) → u ≡ record t { left = record t.left { memory = m } } → Step laws t u
    right_stores :
        (m : Memory) → u ≡ record t { right = record t.right { memory = m } } → Step laws t u
    writes_left :
        (msg : Ptr) (len : ℕ) → Fair laws t msg len → u ≡ left_writes msg len t → Step laws t u
    writes_right :
        (msg : Ptr) (len : ℕ)
        → Fair laws (turned t) msg len
        → u ≡ turned (left_writes msg len (turned t))
        → Step laws t u
    reads_right :
        (events : List Event)
        → Carries events t.rightward
        → t.rightward ≢ []
        → u ≡ right_reads events t
        → Step laws t u
    reads_left :
        (events : List Event)
        → Carries events t.leftward
        → t.leftward ≢ []
        → u ≡ turned (right_reads events (turned t))
        → Step laws t u

  pub data Reach (laws : AeadLaws ext.aead) (s : Talk) : Talk → Type 0 where
    here : Reach laws s s
    next : {t u : Talk} → Reach laws s t → Step laws t u → Reach laws s u
