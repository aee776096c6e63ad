-- ===== src/Handshake/Connection.antt =====
-- The handshake over a connection.
use lnsocket.Prelude.{ℕ, ◌≡◌, refl, ap, ◌∙◌, Option, none, some, List, [], ◌∷◌, ◌++◌}
use lnsocket.Primitives.{Pubkey, Externals, AeadLaws, SecpLaws}
use lnsocket.Crypto.{CryptoState}
use lnsocket.Crypto.Transport.{Mirrors}
use lnsocket.Net.{Net, Event}
use lnsocket.State.{Keypair, ActOne, ActThree, Lnsocket}
use lnsocket.Io.{World, ◌>>◌, >>=-eq_some}
use lnsocket.Handshake.{
  act_one_bytes, act_three_bytes, act_one_initiator_prep, act_one_initiator, lnsocket_act_two,
}
use lnsocket.Handshake.Responder.{Progress, bind, read_act_one, write_act_two, read_act_three}
use lnsocket.Handshake.Agreement.{
  IsKeypair, Agreed, prepared, past_two, act_two, past_act_one, past_act_three, prep-prepared,
  read_act_one-past, write_act_two-past, act_two-past, read_act_three-past, agree,
}
use lnsocket.Handshake.Steps.{act_one-steps}

-- The second act, as the bytes that a responder answers with; none where it does not answer.
act_bytes : Option (ActOne × Progress) → List ℕ
act_bytes none = []
act_bytes (some (act2, s)) = act_one_bytes act2

module _ (ext : Externals) where
  unfoldable pub reply_to : Keypair → Keypair → ActOne → List ℕ
  unfolding act_bytes
  reply_to static ephemeral act1 =
      act_bytes (bind (read_act_one ext static act1) (λ r. write_act_two ext ephemeral r.0 r.1))

  -- The first act that the socket makes.
  unfoldable pub first_act : Keypair → World → ActOne
  first_act e w = (act_one_initiator_prep ext e w).1.0.handshake.act1

  -- What a responder concludes from act one and act three.
  unfoldable pub concluded : Keypair → Keypair → ActOne → ActThree → Option (Pubkey × CryptoState)
  concluded static ephemeral act1 act3 =
      bind (bind (read_act_one ext static act1) (λ r. write_act_two ext ephemeral r.0 r.1))
        (λ s. read_act_three ext ephemeral act3 s.1)

  -- A connection on which nothing happens.
  abbrev idle : Net
  idle = record { events = []; limits = []; sent = [] }

  -- The third act that the socket makes of the second.
  unfoldable pub third_act : Keypair → Lnsocket → ActOne → Option ActThree
  third_act e l act2 = ((act_one_initiator_prep ext e >> lnsocket_act_two ext act2) (l, idle)).0

  -- The transport state of the node behind the three acts, with the static key that it learns: the
  -- socket `l` is asked for act one and, given the answer, for act three.
  unfoldable pub node_state : Keypair → Keypair → Keypair → Lnsocket → Option (Pubkey × CryptoState)
  unfolding first_act concluded third_act
  node_state static ephemeral e l =
      let act1 = first_act e (l, idle) in
      bind
        (bind (bind (read_act_one ext static act1) (λ r. write_act_two ext ephemeral r.0 r.1))
          (λ s. third_act e l s.0))
        (concluded static ephemeral act1)

  module _ (aead : AeadLaws ext.aead) (secp : SecpLaws ext.secp) (static e ephemeral : Keypair)
      (es ee se : List ℕ) (ln : Lnsocket) where
    first_act-past :
        (net : Net)
        → Agreed ext e static es
        → first_act e (prepared ext ln static.public, net)
          ≡ (past_act_one ext static e ephemeral es ee se ln).handshake.act1
    unfolding first_act
    first_act-past net a1 =
        ap (λ (t : Option (Unit {0}) × World). t.1.0.handshake.act1)
          (prep-prepared ext static e ephemeral es ee se ln aead secp net a1)

    third_act-past :
        IsKeypair ext ephemeral
        → Agreed ext e static es
        → Agreed ext e ephemeral ee
        → Agreed ext ln.key ephemeral se
        → third_act e (prepared ext ln static.public) (act_two ext static e ephemeral es ee se ln)
          ≡ some (past_act_three ext static e ephemeral es ee se ln).handshake.act3
    unfolding third_act
    third_act-past hf a1 a2 a3 =
        ap (λ (r : Option ActThree × World). r.0)
          (>>=-eq_some (act_one_initiator_prep ext e)
              (λ _. lnsocket_act_two ext (act_two ext static e ephemeral es ee se ln))
              (prep-prepared ext static e ephemeral es ee se ln aead secp idle a1)
            ∙ act_two-past ext static e ephemeral es ee se ln aead secp idle hf a2 a3)

    module _ (r : CryptoState) (he : IsKeypair ext e) (a1 : Agreed ext e static es)
        (a2 : Agreed ext e ephemeral ee)
        (reads : read_act_three ext ephemeral
            (past_act_three ext static e ephemeral es ee se ln).handshake.act3
            (past_two ext static e ephemeral es ee se ln)
          ≡ some (ln.key.public, r)) where
      concluded-past :
          concluded static ephemeral
            (past_act_one ext static e ephemeral es ee se ln).handshake.act1
            (past_act_three ext static e ephemeral es ee se ln).handshake.act3
          ≡ some (ln.key.public, r)
      unfolding concluded
      concluded-past =
          rw
            (
              read_act_one-past ext static e ephemeral es ee se ln aead secp he a1,
              write_act_two-past ext static e ephemeral es ee se ln aead secp a2,
              reads,
            )
            refl

      node_state-past :
          IsKeypair ext ephemeral
          → Agreed ext ln.key ephemeral se
          → node_state static ephemeral e (prepared ext ln static.public) ≡ some (ln.key.public, r)
      unfolding node_state
      node_state-past hf a3 =
          rw
            (
              first_act-past idle a1,
              read_act_one-past ext static e ephemeral es ee se ln aead secp he a1,
              write_act_two-past ext static e ephemeral es ee se ln aead secp a2,
              third_act-past hf a1 a2 a3,
            )
            concluded-past

  -- A run of the three acts that ends with both sides in agreement: `ln` is the socket before it,
  -- `first` its act one, and of the events `rest` are left.
  pub record Handshaken (static ephemeral e : Keypair) (first : ActOne) (ln : Lnsocket) (net : Net)
      (rest : List Event) (run : Option (Unit {0}) × World) : Type 0 where
    pub over : Lnsocket
    pub node : CryptoState
    pub runs : run ≡ (
      some tt,
      (
        over,
        record net {
          events = rest;
          sent = (net.sent ++ act_one_bytes first) ++ act_three_bytes over.handshake.act3;
        },
      ),
    )
    pub concludes :
        concluded static ephemeral first over.handshake.act3 ≡ some (ln.key.public, node)
    pub expected :
        node_state static ephemeral e (prepared ext ln static.public) ≡ some (ln.key.public, node)
    pub to_node : Mirrors over.crypto_state node
    pub from_node : Mirrors node over.crypto_state
    pub socket : over.socket ≡ ln.socket
    pub msgbuf : over.msgbuf ≡ ln.msgbuf

  -- A socket with a valid key, prepared for the node with the static key `static`, runs the three
  -- acts over a connection that takes all bytes and on which, in one piece, the answer of a BOLT 8
  -- responder to the socket's act one comes. It succeeds: it has sent act one and act three and read the
  -- answer and no more, the responder accepts both acts and learns the socket's static key, the two
  -- end with transport states that mirror each other in both directions, and the descriptor and the
  -- message buffer are as before.
  pub act_one_initiator-Handshaken :
      AeadLaws ext.aead
      → SecpLaws ext.secp
      → (static e ephemeral : Keypair) (ln : Lnsocket) (net : Net) (rest : List Event)
      → IsKeypair ext static
      → IsKeypair ext e
      → IsKeypair ext ephemeral
      → IsKeypair ext ln.key
      → net.limits ≡ []
      → net.events
        ≡ Event.chunk (reply_to static ephemeral (first_act e (prepared ext ln static.public, net)))
          ∷ rest
      → Handshaken static ephemeral e
          (first_act e (prepared ext ln static.public, net))
          ln
          net
          rest
          (act_one_initiator ext e (prepared ext ln static.public, net))
  unfolding reply_to act_bytes
  act_one_initiator-Handshaken aead secp static e ephemeral ln net rest hs he hf hk free answer =
      let (es, a1) = agree ext aead secp e static he hs in
      let (ee, a2) = agree ext aead secp e ephemeral he hf in
      let (se, a3) = agree ext aead secp ln.key ephemeral hk hf in
      let (r, reads, there, back) =
        read_act_three-past ext static e ephemeral es ee se ln aead secp hk a3 in
      let first = first_act-past aead secp static e ephemeral es ee se ln net a1 in
      let one = read_act_one-past ext static e ephemeral es ee se ln aead secp he a1 in
      let two = write_act_two-past ext static e ephemeral es ee se ln aead secp a2 in
      let whole : reply_to static ephemeral (first_act e (prepared ext ln static.public, net))
          ≡ act_one_bytes (act_two ext static e ephemeral es ee se ln) =
        rw (first, one, two) refl in
      let (ln2, runs, same) =
        act_one-steps ext aead secp static e ephemeral es ee se ln net rest he hf hk a1 a2 a3 free
          (answer ∙ ap (λ (t : List ℕ). Event.chunk t ∷ rest) whole) in
      record {
        over = ln2;
        node = r;
        runs = rw (first, same.act3) runs;
        concludes =
            rw (first, same.act3)
              (concluded-past aead secp static e ephemeral es ee se ln r he a1 a2 reads);
        expected = node_state-past aead secp static e ephemeral es ee se ln r he a1 a2 reads hf a3;
        to_node = rw same.crypto_state there;
        from_node = rw same.crypto_state back;
        socket = same.socket;
        msgbuf = same.msgbuf;
      }
