-- ===== src/Conversation/Order.antt =====
-- The order of the messages of a conversation.
use lnsocket.Prelude.{
  ℕ, ◌≡◌, ◌≢◌, refl, sym, ap, ◌∙◌, List, [], ◌∷◌, ◌++◌, append-nil, arith, length, length-append,
}
use lnsocket.Memory.{Memory}
use lnsocket.Primitives.{Externals, AeadLaws}
use lnsocket.Crypto.{CryptoState}
use lnsocket.Crypto.Transport.{Mirrors, packet, length-packet, sent}
use lnsocket.Net.{Event}
use lnsocket.Net.Stream.{Carries}
use lnsocket.Receive.Messages.{packets}
use lnsocket.Conversation.{
  Talk, IsFresh, turned, right_reads, Step, left_stores, right_stores, writes_left, writes_right,
  reads_right, reads_left, Reach, here, next,
}
use lnsocket.Conversation.Links.{
  left_writes-Linked, turned-left_writes-Linked, right_reads-First, right_reads-Linked,
  turned-right_reads-Linked,
}
use lnsocket.Conversation.Queue.{sent_all, Linked, Linked-Unmoved}

module _ (ext : Externals) (laws : AeadLaws ext.aead) where
  -- What an owner of an end stores changes nothing.
  stores-Linked :
      (t : Talk) (left right : Memory)
      → Linked ext t
      → Linked ext (record t {
        left = record t.left { memory = left };
        right = record t.right { memory = right };
      })
  stores-Linked t left right l =
      Linked-Unmoved ext t _
        (record {
          rightward = refl;
          left_sent = refl;
          right_got = refl;
          sends_as = record { sn = refl; sk = refl; s_ck = refl };
          rn = refl;
          rk = refl;
          r_ck = refl;
          start = refl;
          end = refl;
        })
        l

  abbrev BothLinked : Talk → Type 0
  BothLinked t = Linked ext t × Linked ext (turned t)

  Step-BothLinked : {t u : Talk} → Step ext laws t u → BothLinked t → BothLinked u
  Step-BothLinked {t} (left_stores m e) (there, back) =
      rw e (stores-Linked t m t.right.memory there, stores-Linked (turned t) t.right.memory m back)
  Step-BothLinked {t} (right_stores m e) (there, back) =
      rw e (stores-Linked t t.left.memory m there, stores-Linked (turned t) m t.left.memory back)
  Step-BothLinked {t} (writes_left msg len f e) (there, back) = rw e (
    left_writes-Linked ext laws t msg len f there,
    turned-left_writes-Linked ext laws t msg len f back,
  )
  Step-BothLinked {t} (writes_right msg len f e) (there, back) = rw e (
    turned-left_writes-Linked ext laws (turned t) msg len f there,
    left_writes-Linked ext laws (turned t) msg len f back,
  )
  Step-BothLinked {t} (reads_right events c come e) (there, back) = rw e (
    right_reads-Linked ext laws t events c come there,
    turned-right_reads-Linked ext laws t events c come there back,
  )
  Step-BothLinked {t} (reads_left events c come e) (there, back) = rw e (
    turned-right_reads-Linked ext laws (turned t) events c come back there,
    right_reads-Linked ext laws (turned t) events c come back,
  )

  Reach-BothLinked : {s t : Talk} → BothLinked s → Reach ext laws s t → BothLinked t
  Reach-BothLinked l here = l
  Reach-BothLinked l (next r step) = Step-BothLinked step (Reach-BothLinked l r)

  -- The direction from left to right is a queue: what the left end has sent is what the right end has
  -- got with what waits behind it, nothing waits when no byte is under way, and otherwise a read,
  -- however the bytes come in pieces, gives the first message that waits.
  pub record IsQueue (t : Talk) : Type 0 where
    pub waiting : List (List ℕ)
    pub order : t.left_sent ≡ t.right_got ++ waiting
    pub complete : t.rightward ≡ [] → waiting ≡ []
    pub serves :
        (events : List Event)
        → Carries events t.rightward
        → t.rightward ≢ []
        → (msg : List ℕ) × (more : List (List ℕ)) × (waiting ≡ msg ∷ more)
          × ((right_reads ext events t).right_got ≡ t.right_got ++ msg ∷ [])

  packets_empty :
      (from : CryptoState) (waiting : List (List ℕ)) → packets ext from waiting ≡ [] → waiting ≡ []
  packets_empty from [] h = refl
  packets_empty from (msg ∷ more) h = absurd (
      omega (
        arith,
        ap length h,
        length-append (packet ext.aead from msg) (packets ext (sent ext.hkdf from) more),
        length-packet ext.aead laws ext.hkdf from msg,
      ))

  Linked-IsQueue : (t : Talk) → Linked ext t → IsQueue t
  Linked-IsQueue t l = record {
    waiting = l.waiting;
    order = l.order;
    complete = λ h. packets_empty l.from l.waiting (sym l.under_way ∙ h);
    serves = λ events c come.
        let f = right_reads-First ext laws t events l c come in
        (f.msg, f.more, f.split, ap (λ (u : Talk). u.right_got) f.read.is);
  }

  fresh :
      (t : Talk)
      → Mirrors t.left.crypto_state t.right.crypto_state
      → t.rightward ≡ []
      → t.left_sent ≡ t.right_got
      → Linked ext t
  unfolding sent_all
  fresh t v empty logs = record {
    waiting = [];
    from = t.left.crypto_state;
    order = logs ∙ sym (append-nil t.right_got);
    under_way = empty;
    mirrors = v;
    sends_as = record { sn = refl; sk = refl; s_ck = refl };
    fits = tt;
  }

  pub Reach-IsQueue : {s t : Talk} → IsFresh s → Reach ext laws s t → IsQueue t × IsQueue (turned t)
  Reach-IsQueue {s} {t} f r =
      let (there, back) =
        Reach-BothLinked
          (fresh s f.there f.rightward f.left_sent, fresh (turned s) f.back f.leftward f.right_sent)
          r in
      (Linked-IsQueue t there, Linked-IsQueue (turned t) back)
