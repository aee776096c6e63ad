-- ===== src/Handshake/Steps.antt =====
-- The initiator's side of the handshake over a connection.
use lnsocket.Prelude.{
  ℕ, ◌≡◌, refl, ap, ◌∙◌, true, some, List, [], ◌∷◌, ◌++◌, ◌==◌, ==_iff, arith, length,
  length-append, take, drop, take-append, drop-append, append-nil, le→ltb,
}
use lnsocket.Primitives.{Externals, AeadLaws, SecpLaws}
use lnsocket.Net.{Net, Event, read, read_event, write}
use lnsocket.Net.Stream.{write_free}
use lnsocket.State.{Keypair, ActOne, Lnsocket}
use lnsocket.Handshake.{
  act_one_bytes, act_three_bytes, act_one_initiator, act_two_initiator, new_handshake,
  with_handshake, handshake_success, finish_act_three, encrypt_static, derive_step, encrypt_ad,
  build_act_one, mix_ephemeral, derive_keys, lnsocket_act_two, send_act, act_sent, receive_act_two,
  act_two_received,
}
use lnsocket.Handshake.Agreement.{
  IsKeypair, Agreed, prepared, act_two, past_act_one, past_act_three, prep-prepared, act_two-past,
}

take_all : (n : ℕ) (xs : List ℕ) → length xs ≡ n → take n xs ≡ xs
take_all n xs e = rw (e, append-nil) at (take-append xs [])

-- What later steps use of the socket behind act three.
pub record Resumes (l ln ln2 : Lnsocket) : Type 0 where
  pub crypto_state : ln2.crypto_state ≡ l.crypto_state
  pub act3 : ln2.handshake.act3 ≡ l.handshake.act3
  pub socket : ln2.socket ≡ ln.socket
  pub msgbuf : ln2.msgbuf ≡ ln.msgbuf

module _ (ext : Externals) where
  send_act-free :
      (bytes : Lnsocket → List ℕ) (size : ℕ) (ln : Lnsocket) (net : Net)
      → length (bytes ln) ≡ size
      → net.limits ≡ []
      → send_act ext bytes size (ln, net)
        ≡ (some tt, (ln, record net { sent = net.sent ++ bytes ln }))
  unfolding send_act act_sent
  send_act-free bytes size ln net n free =
      let whole : (size == size) ≡ true = (==_iff _ _).1 refl in
      ap (λ (t : List ℕ). act_sent ext ln size (write net t)) (take_all size (bytes ln) n)
      ∙ ap (act_sent ext ln size) (write_free net (bytes ln) free)
      ∙ rw (n, whole)

  receive_act_two-chunk :
      (ln : Lnsocket) (net : Net) (act2 : ActOne) (rest : List Event)
      → net.events ≡ Event.chunk (act_one_bytes act2) ∷ rest
      → length act2.pubkey ≡ 33
      → length act2.tag ≡ 16
      → receive_act_two ext (ln, net) ≡ (
        some act2,
        (with_handshake ln (record ln.handshake { act2 = act2 }), record net { events = rest }),
      )
  unfolding receive_act_two act_two_received read read_event
  receive_act_two-chunk ln net act2 rest e k t =
      let n : length (act_one_bytes act2) ≡ 50 =
        omega (arith, length-append act2.pubkey act2.tag, k, t) in
      let front : take 33 (act2.pubkey ++ act2.tag) ≡ act2.pubkey =
        rw k at (take-append act2.pubkey act2.tag) in
      let back : drop 33 (act2.pubkey ++ act2.tag) ≡ act2.tag =
        rw k at (drop-append act2.pubkey act2.tag) in
      rw (e, le→ltb 50 (length (act_one_bytes act2)) (omega (arith, n)), n, front, back) refl

  module _ (aead : AeadLaws ext.aead) (secp : SecpLaws ext.secp)
      (static e ephemeral : Keypair) where
    module _ (es ee se : List ℕ) (ln : Lnsocket) where
      length-first :
          IsKeypair ext e
          → length (act_one_bytes (past_act_one ext static e ephemeral es ee se ln).handshake.act1)
            ≡ 50
      unfolding build_act_one mix_ephemeral derive_keys
      length-first valid = omega (
        arith,
        length-append (past_act_one ext static e ephemeral es ee se ln).handshake.act1.pubkey
            (past_act_one ext static e ephemeral es ee se ln).handshake.act1.tag,
        secp.length-serialize e.priv e.public valid,
        aead.length-encrypt _ _ _ [],
      )

      length-third :
          IsKeypair ext ln.key
          → length
              (act_three_bytes (past_act_three ext static e ephemeral es ee se ln).handshake.act3)
            ≡ 66
      unfolding handshake_success finish_act_three encrypt_static derive_step build_act_one
          mix_ephemeral derive_keys encrypt_ad
      length-third valid = omega (
        arith,
        length-append (past_act_three ext static e ephemeral es ee se ln).handshake.act3.ciphertext
            (past_act_three ext static e ephemeral es ee se ln).handshake.act3.tag,
        secp.length-serialize ln.key.priv ln.key.public valid,
        aead.length-encrypt _ _ _ (ext.secp.pubkey_serialize ln.key.public),
        aead.length-encrypt _ _ _ [],
      )

      -- The socket that has received act two.
      abbrev holding : ActOne → Lnsocket
      holding act2 = with_handshake ln (record ln.handshake { act2 = act2 })

      act_two-holding :
          (net : Net)
          → IsKeypair ext ephemeral
          → Agreed ext e ephemeral ee
          → Agreed ext ln.key ephemeral se
          → (ln2 : Lnsocket) × (lnsocket_act_two ext (act_two ext static e ephemeral es ee se ln) (
            with_handshake
                (past_act_one ext static e ephemeral es ee se ln)
                (record (past_act_one ext static e ephemeral es ee se ln).handshake {
                  act2 = act_two ext static e ephemeral es ee se ln;
                }),
            net,
          )
              ≡ (
                some (past_act_three ext static e ephemeral es ee se ln).handshake.act3,
                (ln2, net),
              ))
            × Resumes (past_act_three ext static e ephemeral es ee se ln) ln ln2
      unfolding build_act_one mix_ephemeral derive_keys new_handshake derive_step encrypt_static
          finish_act_three handshake_success
      act_two-holding net hf a2 a3 = (
        past_act_three ext static e ephemeral es ee se
            (holding (act_two ext static e ephemeral es ee se ln)),
        act_two-past ext static e ephemeral es ee se
            (holding (act_two ext static e ephemeral es ee se ln)) aead secp net hf a2 a3,
        record { crypto_state = refl; act3 = refl; socket = refl; msgbuf = refl },
      )

      -- The steps of the initiator over a connection that answers with act two in one chunk.
      pub act_one-steps :
          (net : Net) (rest : List Event)
          → IsKeypair ext e
          → IsKeypair ext ephemeral
          → IsKeypair ext ln.key
          → Agreed ext e static es
          → Agreed ext e ephemeral ee
          → Agreed ext ln.key ephemeral se
          → net.limits ≡ []
          → net.events
            ≡ Event.chunk (act_one_bytes (act_two ext static e ephemeral es ee se ln)) ∷ rest
          → (ln2 : Lnsocket) × (act_one_initiator ext e (prepared ext ln static.public, net) ≡ (
            some tt,
            (
              ln2,
              record net {
                events = rest;
                sent =
                    (net.sent
                      ++ act_one_bytes
                          (past_act_one ext static e ephemeral es ee se ln).handshake.act1)
                    ++ act_three_bytes
                        (past_act_three ext static e ephemeral es ee se ln).handshake.act3;
              },
            ),
          ))
            × Resumes (past_act_three ext static e ephemeral es ee se ln) ln ln2
      unfolding act_one_initiator act_two_initiator
      act_one-steps net rest he hf hk a1 a2 a3 free answer =
          let one = past_act_one ext static e ephemeral es ee se ln in
          let two = act_two ext static e ephemeral es ee se ln in
          let net1 : Net = record net { sent = net.sent ++ act_one_bytes one.handshake.act1 } in
          let net2 : Net = record net1 { events = rest } in
          let act3 = (past_act_three ext static e ephemeral es ee se ln).handshake.act3 in
          let (ln2, past, same) = act_two-holding net2 hf a2 a3 in
          (
            ln2,
            rw
                (
                  prep-prepared ext static e ephemeral es ee se ln aead secp net a1,
                  send_act-free (λ l. act_one_bytes l.handshake.act1) 50 one net (length-first he)
                      free,
                  receive_act_two-chunk one net1 two rest answer (secp.length-serialize _ _ hf)
                      (aead.length-encrypt _ _ _ []),
                  past,
                  send_act-free (λ _. act_three_bytes act3) 66 ln2 net2 (length-third hk) free,
                )
                refl,
            same,
          )
