-- ===== src/Receive/Messages.antt =====
-- A run of messages, read one after another by `lnsocket_read`.
use lnsocket.Prelude.{
  ℕ, zero, suc, ◌+◌, ◌*◌, ◌≤◌, ◌≡◌, refl, ap, ◌∙◌, some, none, Option, List, [], ◌∷◌, ◌++◌,
  append_assoc, arith, length, All,
}
use mathlib.Core.Path.{ap₂}
use lnsocket.Prelude.Bytes.{IsU16}
use lnsocket.Memory.{Ptr, load}
use lnsocket.Primitives.{Externals, AeadLaws}
use lnsocket.Crypto.{CryptoState}
use lnsocket.Crypto.Transport.{Mirrors, packet, sent}
use lnsocket.Net.{Net}
use lnsocket.Net.Stream.{Carries}
use lnsocket.State.{Lnsocket}
use lnsocket.Io.{World}
use lnsocket.Receive.{lnsocket_read}
use lnsocket.Receive.Delivery.{read_delivers}

module _ (ext : Externals) where
  -- The messages of successive calls of `lnsocket_read`, up to a call that fails.
  next_message : Option (Ptr × ℕ) × World → (World → List (List ℕ)) → List (List ℕ)
  next_message (none, w) more = []
  next_message (some (ptr, len), w) more = load w.0.memory ptr len ∷ more w

  unfoldable pub read_messages : ℕ → World → List (List ℕ)
  unfolding next_message
  read_messages zero w = []
  read_messages (suc k) w = next_message (lnsocket_read ext w) (read_messages k)

  -- What the side in state `s` sends for a run of messages.
  abbrev pub packets : CryptoState → List (List ℕ) → List ℕ
  packets s [] = []
  packets s (msg ∷ msgs) = packet ext.aead s msg ++ packets (sent ext.hkdf s) msgs

  -- Room in the buffer, counted from the start.
  abbrev pub Fits : Lnsocket → List ℕ → Type 0
  Fits ln msg = IsU16 (length msg) × (ln.msgbuf.start + 2 * length msg + 16 ≤ ln.msgbuf.end)

  pub Fits-same :
      (ln ln' : Lnsocket) (msgs : List (List ℕ))
      → ln'.msgbuf.start ≡ ln.msgbuf.start
      → ln'.msgbuf.end ≡ ln.msgbuf.end
      → All (Fits ln) msgs
      → All (Fits ln') msgs
  Fits-same ln ln' [] a b h = tt
  Fits-same ln ln' (msg ∷ msgs) a b h =
      ((h.0.0, omega (arith, h.0.1)), Fits-same ln ln' msgs a b h.1)

  -- A run of messages that each fit the buffer, sent by the side that this socket mirrors and cut
  -- into pieces anyhow, comes out of as many calls of `lnsocket_read`, complete and in order, with
  -- the keys rotated on both sides as often as the run asks for.
  pub read_messages-packets :
      (laws : AeadLaws ext.aead) (s : CryptoState) (ln : Lnsocket) (net : Net)
      (msgs : List (List ℕ)) (rest : List ℕ)
      → Mirrors s ln.crypto_state
      → All (Fits ln) msgs
      → Carries net.events (packets s msgs ++ rest)
      → read_messages (length msgs) (ln, net) ≡ msgs
  unfolding read_messages
  read_messages-packets laws s ln net [] rest v fits c = refl
  read_messages-packets laws s ln net (msg ∷ msgs) rest v fits c =
      let (ptr, ln', net', done, text, v', c', same_start, same_end) =
        read_delivers ext laws s ln net msg (packets (sent ext.hkdf s) msgs ++ rest) v fits.0.0
          (omega (arith, fits.0.1)) (rw append_assoc at c) in
      ap (λ r. next_message r (read_messages (length msgs))) done
      ∙ ap₂ (λ (x : List ℕ) (y : List (List ℕ)). x ∷ y) text
          (read_messages-packets laws (sent ext.hkdf s) ln' net' msgs rest v'
            (Fits-same ln ln' msgs same_start same_end fits.1) c')
