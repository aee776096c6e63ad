-- ===== src/Conversation/Queue.antt =====
-- One direction of a conversation, as a queue of messages.
use lnsocket.Prelude.{
  ℕ, ◌≡◌, refl, sym, ap, ◌∙◌, List, [], ◌∷◌, ◌++◌, append_assoc, append-nil, arith, All,
}
use lnsocket.Primitives.{Externals, Aead, Hkdf}
use lnsocket.Crypto.{CryptoState, rotate_sender, maybe_rotate_key}
use lnsocket.Crypto.Transport.{Mirrors, packet, sent}
use lnsocket.Net.{Event}
use lnsocket.Net.Stream.{Carries}
use lnsocket.Receive.Messages.{Fits, Fits-same, packets}
use lnsocket.Conversation.{Talk, bytes_left}

-- The sending halves are the same.
pub record SendsAs (a b : CryptoState) : Type 0 where
  pub sn : a.sn ≡ b.sn
  pub sk : a.sk ≡ b.sk
  pub s_ck : a.s_ck ≡ b.s_ck

pub packet-SendsAs :
    (aead : Aead) (a b : CryptoState) (msg : List ℕ)
    → SendsAs a b
    → packet aead a msg ≡ packet aead b msg
packet-SendsAs aead a b msg s = rw (s.sn, s.sk) refl

pub sent-SendsAs :
    (kdf : Hkdf) (a b : CryptoState) → SendsAs a b → SendsAs (sent kdf a) (sent kdf b)
unfolding rotate_sender maybe_rotate_key
sent-SendsAs kdf a b s = let x = s.sn in let y = s.sk in let z = s.s_ck in ground arith

pub bytes_left-Carries :
    {events : List Event} {bs : List ℕ} → Carries events bs → bytes_left events ≡ bs
bytes_left-Carries Carries.end = refl
bytes_left-Carries (Carries.more b front c) =
    ap (λ (bs : List ℕ). (b ∷ front) ++ bs) (bytes_left-Carries c)
bytes_left-Carries (Carries.again c) = bytes_left-Carries c

module _ (ext : Externals) where
  -- The state behind a run of messages.
  unfoldable pub sent_all : CryptoState → List (List ℕ) → CryptoState
  sent_all s [] = s
  sent_all s (msg ∷ msgs) = sent_all (sent ext.hkdf s) msgs

  pub sent_all-append :
      (s : CryptoState) (msgs : List (List ℕ)) (msg : List ℕ)
      → sent_all s (msgs ++ msg ∷ []) ≡ sent ext.hkdf (sent_all s msgs)
  unfolding sent_all
  sent_all-append s [] msg = refl
  sent_all-append s (m ∷ msgs) msg = sent_all-append (sent ext.hkdf s) msgs msg

  pub packets-append :
      (s : CryptoState) (msgs : List (List ℕ)) (msg : List ℕ)
      → packets ext s (msgs ++ msg ∷ [])
        ≡ packets ext s msgs ++ packet ext.aead (sent_all s msgs) msg
  unfolding sent_all
  packets-append s [] msg = append-nil (packet ext.aead s msg)
  packets-append s (m ∷ msgs) msg =
      ap (λ (bs : List ℕ). packet ext.aead s m ++ bs) (packets-append (sent ext.hkdf s) msgs msg)
      ∙ sym (
          append_assoc (packet ext.aead s m) (packets ext (sent ext.hkdf s) msgs)
            (packet ext.aead (sent_all (sent ext.hkdf s) msgs) msg))

  -- The left end has sent what the right end has got and what is still waiting, whose packets are
  -- the bytes under way. `from` is the state that the first of them was sent in.
  pub record Linked (t : Talk) : Type 0 where
    pub waiting : List (List ℕ)
    pub from : CryptoState
    pub order : t.left_sent ≡ t.right_got ++ waiting
    pub under_way : t.rightward ≡ packets ext from waiting
    pub mirrors : Mirrors from t.right.crypto_state
    pub sends_as : SendsAs t.left.crypto_state (sent_all from waiting)
    pub fits : All (Fits ext t.right) waiting

  -- What a direction depends on is the same in both.
  pub record Unmoved (t u : Talk) : Type 0 where
    pub rightward : u.rightward ≡ t.rightward
    pub left_sent : u.left_sent ≡ t.left_sent
    pub right_got : u.right_got ≡ t.right_got
    pub sends_as : SendsAs u.left.crypto_state t.left.crypto_state
    pub rn : u.right.crypto_state.rn ≡ t.right.crypto_state.rn
    pub rk : u.right.crypto_state.rk ≡ t.right.crypto_state.rk
    pub r_ck : u.right.crypto_state.r_ck ≡ t.right.crypto_state.r_ck
    pub start : u.right.msgbuf.start ≡ t.right.msgbuf.start
    pub end : u.right.msgbuf.end ≡ t.right.msgbuf.end

  pub Linked-Unmoved : (t u : Talk) → Unmoved t u → Linked t → Linked u
  Linked-Unmoved t u m l = record {
    waiting = l.waiting;
    from = l.from;
    order =
        m.left_sent ∙ l.order ∙ ap (λ (got : List (List ℕ)). got ++ l.waiting) (sym m.right_got);
    under_way = m.rightward ∙ l.under_way;
    mirrors = record {
      nonce = l.mirrors.nonce ∙ sym m.rn;
      key = l.mirrors.key ∙ sym m.rk;
      chaining_key = l.mirrors.chaining_key ∙ sym m.r_ck;
    };
    sends_as = record {
      sn = m.sends_as.sn ∙ l.sends_as.sn;
      sk = m.sends_as.sk ∙ l.sends_as.sk;
      s_ck = m.sends_as.s_ck ∙ l.sends_as.s_ck;
    };
    fits = Fits-same ext t.right u.right l.waiting m.start m.end l.fits;
  }
