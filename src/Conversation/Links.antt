-- ===== src/Conversation/Links.antt =====
-- A write and a read of lnsocket.c, and both directions of a conversation.
use lnsocket.Prelude.{
  ℕ, ◌≡◌, ◌≢◌, refl, sym, ap, ◌∙◌, List, [], ◌∷◌, ◌++◌, append_assoc, All, All-append,
}
use mathlib.Core.Path.{ap₂}
use lnsocket.Memory.{Ptr, load}
use lnsocket.Primitives.{Externals, AeadLaws}
use lnsocket.Crypto.{CryptoState, rotate_sender, rotate_receiver}
use lnsocket.Crypto.Transport.{sent, received-Mirrors}
use lnsocket.Net.{Event}
use lnsocket.Net.Stream.{Carries}
use lnsocket.Receive.Messages.{Fits, Fits-same, packets}
use lnsocket.Conversation.{Talk, turned, left_writes, right_reads, Fair}
use lnsocket.Conversation.Moves.{Read, left_writes-Written, right_reads-Read}
use lnsocket.Conversation.Queue.{
  packet-SendsAs, sent-SendsAs, sent_all, sent_all-append, packets-append, Linked, Linked-Unmoved,
}

module _ (ext : Externals) (laws : AeadLaws ext.aead) where
  pub left_writes-Linked :
      (t : Talk) (msg : Ptr) (len : ℕ)
      → Fair ext laws t msg len
      → Linked ext t
      → Linked ext (left_writes ext msg len t)
  left_writes-Linked t msg len f l =
      let m : List ℕ = load t.left.memory msg len in
      let w = left_writes-Written ext laws t msg len f in
      rw w.is (record {
        waiting = l.waiting ++ m ∷ [];
        from = l.from;
        order =
            ap (λ (s : List (List ℕ)). s ++ m ∷ []) l.order
            ∙ append_assoc t.right_got l.waiting (m ∷ []);
        under_way =
            ap₂ (λ (x y : List ℕ). x ++ y) l.under_way
              (packet-SendsAs ext.aead t.left.crypto_state (sent_all ext l.from l.waiting) m
                l.sends_as)
            ∙ sym (packets-append ext l.from l.waiting m);
        mirrors = l.mirrors;
        sends_as =
            rw (w.crypto_state, sent_all-append ext l.from l.waiting m)
              (sent-SendsAs ext.hkdf t.left.crypto_state (sent_all ext l.from l.waiting)
                l.sends_as);
        fits = All-append (Fits ext t.right) l.waiting (m ∷ []) l.fits (f.fits, tt);
      })

  -- Of the other direction a write changes nothing.
  pub turned-left_writes-Linked :
      (t : Talk) (msg : Ptr) (len : ℕ)
      → Fair ext laws t msg len
      → Linked ext (turned t)
      → Linked ext (turned (left_writes ext msg len t))
  unfolding rotate_sender
  turned-left_writes-Linked t msg len f l =
      let w = left_writes-Written ext laws t msg len f in
      rw w.is (
        Linked-Unmoved ext (turned t) _
          (record {
            rightward = refl;
            left_sent = refl;
            right_got = refl;
            sends_as = record { sn = refl; sk = refl; s_ck = refl };
            rn = rw w.crypto_state refl;
            rk = rw w.crypto_state refl;
            r_ck = rw w.crypto_state refl;
            start = w.start;
            end = w.end;
          })
          l)

  some_waits :
      (from : CryptoState) (waiting : List (List ℕ))
      → packets ext from waiting ≢ []
      → (msg : List ℕ) × (more : List (List ℕ)) × (waiting ≡ msg ∷ more)
  some_waits from [] h = absurd (h refl)
  some_waits from (msg ∷ more) h = (msg, more, refl)

  -- The first message that waits, and what a read of it does.
  pub record First (t : Talk) (l : Linked ext t) (u : Talk) : Type 0 where
    pub msg : List ℕ
    pub more : List (List ℕ)
    pub split : l.waiting ≡ msg ∷ more
    pub fits : All (Fits ext t.right) (msg ∷ more)
    pub read : Read ext laws t l.from msg (packets ext (sent ext.hkdf l.from) more) u

  pub right_reads-First :
      (t : Talk) (events : List Event) (l : Linked ext t)
      → Carries events t.rightward
      → t.rightward ≢ []
      → First t l (right_reads ext events t)
  right_reads-First t events l c come =
      let (msg, more, split) = some_waits l.from l.waiting (λ e. come (l.under_way ∙ e)) in
      let fits : All (Fits ext t.right) (msg ∷ more) = rw split at l.fits in
      record {
        msg = msg;
        more = more;
        split = split;
        fits = fits;
        read =
            right_reads-Read ext laws t l.from msg (packets ext (sent ext.hkdf l.from) more) events
              l.mirrors fits.0 (rw (l.under_way, split) at c);
      }

  pub right_reads-Linked :
      (t : Talk) (events : List Event)
      → Carries events t.rightward
      → t.rightward ≢ []
      → Linked ext t
      → Linked ext (right_reads ext events t)
  unfolding sent_all
  right_reads-Linked t events c come l =
      let f = right_reads-First t events l c come in
      let r = f.read in
      rw r.is (record {
        waiting = f.more;
        from = sent ext.hkdf l.from;
        order =
            l.order
            ∙ ap (λ (w : List (List ℕ)). t.right_got ++ w) f.split
            ∙ sym (append_assoc t.right_got (f.msg ∷ []) f.more);
        under_way = refl;
        mirrors =
            rw r.crypto_state (received-Mirrors ext.hkdf l.from t.right.crypto_state l.mirrors);
        sends_as = rw f.split at l.sends_as;
        fits = Fits-same ext t.right r.ln f.more r.start r.end f.fits.1;
      })

  pub turned-right_reads-Linked :
      (t : Talk) (events : List Event)
      → Carries events t.rightward
      → t.rightward ≢ []
      → Linked ext t
      → Linked ext (turned t)
      → Linked ext (turned (right_reads ext events t))
  unfolding rotate_receiver
  turned-right_reads-Linked t events c come l back =
      let f = right_reads-First t events l c come in
      let r = f.read in
      rw r.is (
        Linked-Unmoved ext (turned t) _
          (record {
            rightward = refl;
            left_sent = refl;
            right_got = refl;
            sends_as = record {
              sn = rw r.crypto_state refl;
              sk = rw r.crypto_state refl;
              s_ck = rw r.crypto_state refl;
            };
            rn = refl;
            rk = refl;
            r_ck = refl;
            start = refl;
            end = refl;
          })
          back)
