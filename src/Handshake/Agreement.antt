-- ===== src/Handshake/Agreement.antt =====
-- The handshake with a responder that follows BOLT 8.
use lnsocket.Prelude.{ℕ, ◌≡◌, refl, some, List, [], ◌++◌}
use lnsocket.Primitives.{Pubkey, Externals, AeadLaws, SecpLaws}
use lnsocket.Crypto.{CryptoState, hkdf_two_keys}
use lnsocket.Crypto.Transport.{Mirrors}
use lnsocket.Net.{Net}
use lnsocket.State.{Keypair, ActOne, ActThree, Side, Lnsocket}
use lnsocket.Handshake.{
  new_handshake, act_one_initiator_prep, lnsocket_act_two, with_handshake, sha_mix_in, share,
  shared, sha_mix_in_key, encrypt_ad, decrypt, derive_keys, mix_ephemeral, build_act_one,
  derive_step, encrypt_static, finish_act_three, handshake_success, build_act_three, check_version,
  parse_remote, parsed, check_tag, tag_checked, act_three_built,
}
use lnsocket.Handshake.Responder.{
  Progress, mix, mix_secret, seal, started, read_act_one, write_act_two, read_act_three,
}

module _ (ext : Externals) where
  -- A pair of a valid secret and its point.
  abbrev pub IsKeypair : Keypair → Type 0
  IsKeypair k = ext.secp.pubkey_create k.priv ≡ some k.public

  -- What one side computes, and the other computes as well.
  pub record Agreed (a b : Keypair) (z : List ℕ) : Type 0 where
    pub here : ext.secp.ecdh b.public a.priv ≡ some z
    pub there : ext.secp.ecdh a.public b.priv ≡ some z

  -- The socket before act one.
  abbrev pub prepared : Lnsocket → Pubkey → Lnsocket
  prepared ln their_id = with_handshake ln (record (new_handshake ext ln.handshake their_id) {
    their_id = their_id;
    side = Side.initiator;
  })

  abbrev pub with_secret : List ℕ → Lnsocket → Lnsocket
  with_secret z ln = with_handshake ln (record ln.handshake { ss = z })

  module _ (static e ephemeral : Keypair) (es ee se : List ℕ) (ln : Lnsocket) where
    -- The responder's progress up to the tag of act one, and behind it.
    abbrev pub opened_one : Progress
    opened_one =
        mix_secret ext es (mix ext (ext.secp.pubkey_serialize e.public) (started ext static.public))

    abbrev pub past_one : Progress
    past_one = mix ext (seal ext 0 [] opened_one) opened_one

    abbrev pub opened_two : Progress
    opened_two = mix_secret ext ee (mix ext (ext.secp.pubkey_serialize ephemeral.public) past_one)

    abbrev pub past_two : Progress
    past_two = mix ext (seal ext 0 [] opened_two) opened_two

    abbrev pub act_two : ActOne
    act_two = record {
      v = 0;
      pubkey = ext.secp.pubkey_serialize ephemeral.public;
      tag = seal ext 0 [] opened_two;
    }

    abbrev opened_three : Progress
    opened_three =
        mix_secret ext se
          (mix ext (seal ext 1 (ext.secp.pubkey_serialize ln.key.public) past_two) past_two)

    -- The socket behind act one, and behind act three.
    abbrev pub past_act_one : Lnsocket
    past_act_one =
        build_act_one ext (with_secret es (mix_ephemeral ext e (prepared ln static.public)))

    abbrev pub remote_mixed : Lnsocket → Lnsocket
    unfolding sha_mix_in_key
    remote_mixed l = with_handshake l (record l.handshake {
      re = ephemeral.public;
      h = sha_mix_in_key ext.sha256 ext.secp l.handshake.h ephemeral.public;
    })

    abbrev pub tag_mixed : Lnsocket → Lnsocket
    tag_mixed l =
        with_handshake l
          (record l.handshake { h = ext.sha256 (l.handshake.h ++ seal ext 0 [] opened_two) })

    abbrev pub past_act_three : Lnsocket
    past_act_three = handshake_success ext (
        finish_act_three ext (
          with_secret se (
            encrypt_static ext
              (tag_mixed (derive_step ext (with_secret ee (remote_mixed past_act_one)))))))

    module _ (aead : AeadLaws ext.aead) (secp : SecpLaws ext.secp) where
      pub prep-prepared :
          (net : Net)
          → Agreed e static es
          → act_one_initiator_prep ext e (prepared ln static.public, net)
            ≡ (some tt, (past_act_one, net))
      unfolding act_one_initiator_prep mix_ephemeral share shared
      prep-prepared net agreed = rw agreed.here

      pub read_act_one-past :
          IsKeypair e
          → Agreed e static es
          → read_act_one ext static past_act_one.handshake.act1 ≡ some (e.public, past_one)
      unfolding read_act_one build_act_one mix_ephemeral derive_keys sha_mix_in encrypt_ad
          hkdf_two_keys new_handshake sha_mix_in_key
      read_act_one-past valid agreed =
          rw (secp.parse-serialize e.priv e.public valid, agreed.there, aead.decrypt-encrypt) refl

      pub write_act_two-past :
          Agreed e ephemeral ee
          → write_act_two ext ephemeral e.public past_one ≡ some (act_two, past_two)
      unfolding write_act_two
      write_act_two-past agreed = rw agreed.there refl

      pub act_two-past :
          (net : Net)
          → IsKeypair ephemeral
          → Agreed e ephemeral ee
          → Agreed ln.key ephemeral se
          → lnsocket_act_two ext act_two (past_act_one, net)
            ≡ (some past_act_three.handshake.act3, (past_act_three, net))
      unfolding lnsocket_act_two check_version parse_remote parsed share shared check_tag
          tag_checked derive_step encrypt_static finish_act_three handshake_success build_act_three
          act_three_built mix_ephemeral build_act_one derive_keys sha_mix_in encrypt_ad
          hkdf_two_keys new_handshake sha_mix_in_key decrypt
      act_two-past net valid agreed agreed3 =
          rw
            (
              secp.parse-serialize ephemeral.priv ephemeral.public valid,
              agreed.here,
              aead.decrypt-encrypt,
              agreed3.here,
            )
            refl

      pub read_act_three-past :
          IsKeypair ln.key
          → Agreed ln.key ephemeral se
          → (r : CryptoState) × (read_act_three ext ephemeral past_act_three.handshake.act3 past_two
              ≡ some (ln.key.public, r))
            × Mirrors past_act_three.crypto_state r
            × Mirrors r past_act_three.crypto_state
      unfolding read_act_three encrypt_static finish_act_three handshake_success mix_ephemeral
          build_act_one derive_keys derive_step sha_mix_in encrypt_ad hkdf_two_keys new_handshake
          sha_mix_in_key
      read_act_three-past valid agreed = (
        _,
        rw
            (
              aead.decrypt-encrypt,
              secp.parse-serialize ln.key.priv ln.key.public valid,
              agreed.there,
              aead.decrypt-encrypt,
            )
            refl,
        record { nonce = refl; key = refl; chaining_key = refl },
        record { nonce = refl; key = refl; chaining_key = refl },
      )

  module _ (aead : AeadLaws ext.aead) (secp : SecpLaws ext.secp) where
    pub agree : (a b : Keypair) → IsKeypair a → IsKeypair b → (z : List ℕ) × Agreed a b z
    agree a b ha hb =
        let (z, there, here) = secp.ecdh_agree a.priv b.priv a.public b.public ha hb in
        (z, record { here = here; there = there })

    -- A socket with a valid key, prepared for the node with the static key `static`, and a responder
    -- with this key that follows BOLT 8, each with a valid ephemeral key, complete the handshake:
    -- each side accepts the acts of the other, the responder learns the static key of the socket, and
    -- the two end with transport states that mirror each other in both directions.
    pub act_one_two_three_agree :
        (static e ephemeral : Keypair) (ln : Lnsocket) (net : Net)
        → IsKeypair static
        → IsKeypair e
        → IsKeypair ephemeral
        → IsKeypair ln.key
        → (ln1 ln2 : Lnsocket) × (act2 : ActOne) × (act3 : ActThree) × (past_one
            past_two : Progress)
          × (r : CryptoState) × (act_one_initiator_prep ext e (prepared ln static.public, net)
              ≡ (some tt, (ln1, net)))
          × (read_act_one ext static ln1.handshake.act1 ≡ some (e.public, past_one))
          × (write_act_two ext ephemeral e.public past_one ≡ some (act2, past_two))
          × (lnsocket_act_two ext act2 (ln1, net) ≡ (some act3, (ln2, net)))
          × (read_act_three ext ephemeral act3 past_two ≡ some (ln.key.public, r))
          × Mirrors ln2.crypto_state r
          × Mirrors r ln2.crypto_state
    act_one_two_three_agree static e ephemeral ln net hs he hf hk =
        let (es, a1) = agree e static he hs in
        let (ee, a2) = agree e ephemeral he hf in
        let (se, a3) = agree ln.key ephemeral hk hf in
        let (r, read, there, back) =
          read_act_three-past static e ephemeral es ee se ln aead secp hk a3 in
        (
          _,
          _,
          _,
          _,
          _,
          _,
          r,
          prep-prepared static e ephemeral es ee se ln aead secp net a1,
          read_act_one-past static e ephemeral es ee se ln aead secp he a1,
          write_act_two-past static e ephemeral es ee se ln aead secp a2,
          act_two-past static e ephemeral es ee se ln aead secp net hf a2 a3,
          read,
          there,
          back,
        )
