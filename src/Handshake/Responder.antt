-- ===== src/Handshake/Responder.antt =====
-- The responder of the handshake as BOLT 8 describes it, which lnsocket does not implement.
use lnsocket.Prelude.{ℕ, ◌==◌, Option, none, some, List, [], ◌++◌, if◌then◌else◌, take, drop}
use lnsocket.Primitives.{Pubkey, Externals}
use lnsocket.Crypto.{Secret, CryptoState, le64_nonce}
use lnsocket.State.{Keypair, ActOne, ActThree}
use lnsocket.Handshake.{protocol_name, prologue}

-- The chaining key, the last temporary key and the handshake hash.
pub record Progress : Type 0 where
  pub ck : Secret
  pub temp_k : Secret
  pub h : List ℕ

abbrev pub bind : {A B : Type 0} → Option A → (A → Option B) → Option B
bind none f = none
bind (some a) f = f a

module _ (ext : Externals) where
  abbrev pub mix : List ℕ → Progress → Progress
  mix bytes s = record s { h = ext.sha256 (s.h ++ bytes) }

  -- The shared secret is mixed into the chaining key.
  abbrev pub mix_secret : List ℕ → Progress → Progress
  mix_secret z s =
      let okm = ext.hkdf 64 s.ck z [] in
      record s { ck = take 32 okm; temp_k = take 32 (drop 32 okm) }

  abbrev pub seal : ℕ → List ℕ → Progress → List ℕ
  seal n plain s = ext.aead.encrypt s.temp_k (le64_nonce n) s.h plain

  abbrev pub unseal : ℕ → List ℕ → Progress → Option (List ℕ)
  unseal n sealed s = ext.aead.decrypt s.temp_k (le64_nonce n) s.h sealed

  abbrev pub started : Pubkey → Progress
  started static =
      let name = ext.sha256 protocol_name in
      mix (ext.secp.pubkey_serialize static)
        (mix prologue (record { ck = name; temp_k = []; h = name }))

  -- Act one, read: the initiator's ephemeral key, and where this leads.
  unfoldable pub read_act_one : Keypair → ActOne → Option (Pubkey × Progress)
  read_act_one static m =
      if m.v == 0
      then bind (ext.secp.pubkey_parse m.pubkey) (λ re. bind (ext.secp.ecdh re static.priv) (λ es.
        let s = mix_secret es (mix (ext.secp.pubkey_serialize re) (started static.public)) in
        bind (unseal 0 m.tag s) (λ _. some (re, mix m.tag s))))
      else none

  -- Act two, written with the ephemeral key.
  unfoldable pub write_act_two : Keypair → Pubkey → Progress → Option (ActOne × Progress)
  write_act_two e re s0 = bind (ext.secp.ecdh re e.priv) (λ ee.
      let s = mix_secret ee (mix (ext.secp.pubkey_serialize e.public) s0) in
      let tag = seal 0 [] s in
      some (record { v = 0; pubkey = ext.secp.pubkey_serialize e.public; tag = tag }, mix tag s))

  -- Act three, read: the initiator's static key, and the transport state.
  unfoldable pub read_act_three : Keypair → ActThree → Progress → Option (Pubkey × CryptoState)
  read_act_three e m s0 =
      if m.v == 0
      then bind (unseal 1 m.ciphertext s0) (λ bytes. bind (ext.secp.pubkey_parse bytes) (λ rs.
        bind (ext.secp.ecdh rs e.priv) (λ se.
          let s = mix_secret se (mix m.ciphertext s0) in
          bind (unseal 0 m.tag s) (λ _.
            let okm = ext.hkdf 64 s.ck [] [] in
            some (
              rs,
              record {
                rn = 0;
                sn = 0;
                rk = take 32 okm;
                sk = take 32 (drop 32 okm);
                s_ck = s.ck;
                r_ck = s.ck;
              },
            )))))
      else none
