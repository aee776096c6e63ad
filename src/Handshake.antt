-- ===== src/Handshake.antt =====
-- handshake.c and handshake.h: the initiator's side of the BOLT 8 handshake. An output of a library
-- call that failed, which nothing reads before it is set again, is left as it was.
pub mod Confined
pub mod Responder
pub mod Agreement
pub mod Rejection
pub mod Connection
pub mod Steps
use lnsocket.Prelude.{
  ℕ, ◌==◌, Bool, true, false, Option, none, some, List, [], ◌∷◌, ◌++◌, if◌then◌else◌, length, take,
  drop,
}
use lnsocket.Errors.{Note}
use lnsocket.Primitives.{Aead, Pubkey, Secp, Externals}
use lnsocket.Crypto.{Secret, CryptoState, le64_nonce, hkdf_two_keys}
use lnsocket.Net.{Net, read, write}
use lnsocket.State.{Keypair, ActOne, ActThree, Side, initiator, responder, Handshake, Lnsocket}
use lnsocket.Io.{World, Io, and_then, ◌>>=◌, ◌>>◌, pure, modify, fail}

-- "Noise_XK_secp256k1_ChaChaPoly_SHA256"
abbrev pub protocol_name : List ℕ
protocol_name =
    78 ∷ 111 ∷ 105 ∷ 115 ∷ 101 ∷ 95 ∷ 88 ∷ 75 ∷ 95 ∷ 115 ∷ 101 ∷ 99 ∷ 112 ∷ 50 ∷ 53 ∷ 54 ∷ 107 ∷ 49
    ∷ 95 ∷ 67 ∷ 104 ∷ 97 ∷ 67 ∷ 104 ∷ 97 ∷ 80 ∷ 111 ∷ 108 ∷ 121 ∷ 95 ∷ 83 ∷ 72 ∷ 65 ∷ 50 ∷ 53 ∷ 54
    ∷ []

-- "lightning"
abbrev pub prologue : List ℕ
prologue = 108 ∷ 105 ∷ 103 ∷ 104 ∷ 116 ∷ 110 ∷ 105 ∷ 110 ∷ 103 ∷ []

-- The draws are what the successive calls of `randombytes_buf` give; `none` where none of them is a
-- valid secret, and the loop goes on.
unfoldable pub generate_key : Secp → List Secret → Option Keypair
generate_key c [] = none
generate_key c (x ∷ draws) =
    let rest = generate_key c draws in
    elim (c.pubkey_create x) [ none ↦ rest | some p ↦ some (record { public = p; priv = x }) ]

unfoldable pub sha_mix_in : (List ℕ → List ℕ) → List ℕ → List ℕ → List ℕ
sha_mix_in sha256 h bytes = sha256 (h ++ bytes)

unfoldable pub sha_mix_in_key : (List ℕ → List ℕ) → Secp → List ℕ → Pubkey → List ℕ
unfolding sha_mix_in
sha_mix_in_key sha256 c h key = sha_mix_in sha256 h (c.pubkey_serialize key)

unfoldable pub encrypt_ad : Aead → Secret → ℕ → List ℕ → List ℕ → List ℕ
encrypt_ad a k nonce additional_data plaintext =
    a.encrypt k (le64_nonce nonce) additional_data plaintext

unfoldable pub decrypt : Aead → Secret → ℕ → List ℕ → List ℕ → Option (List ℕ)
decrypt a k nonce additional_data ciphertext =
    a.decrypt k (le64_nonce nonce) additional_data ciphertext

-- The layout of the structs, which has no padding.
abbrev pub act_one_bytes : ActOne → List ℕ
act_one_bytes a = a.v ∷ a.pubkey ++ a.tag

abbrev pub act_three_bytes : ActThree → List ℕ
act_three_bytes a = a.v ∷ a.ciphertext ++ a.tag

-- 50 bytes that are read into a struct act_two.
abbrev pub act_two_of : List ℕ → ActOne
act_two_of [] = record { v = 0; pubkey = []; tag = [] }
act_two_of (v ∷ bytes) = record { v = v; pubkey = take 33 bytes; tag = drop 33 bytes }

abbrev pub with_handshake : Lnsocket → Handshake → Lnsocket
with_handshake ln h = record ln { handshake = h }

module _ (ext : Externals) where
  unfoldable pub new_handshake : Handshake → Pubkey → Handshake
  unfolding sha_mix_in sha_mix_in_key
  new_handshake hs responder_id =
      let h = ext.sha256 protocol_name in
      record hs {
        ck = h;
        h = sha_mix_in_key ext.sha256 ext.secp (sha_mix_in ext.sha256 h prologue) responder_id;
      }

  unfoldable pub shared : Note → Lnsocket → Net → Option (List ℕ) → Option (Unit {0}) × World
  shared n ln net none = fail ext n (ln, net)
  shared n ln net (some ss) = (some tt, (with_handshake ln (record ln.handshake { ss = ss }), net))

  -- `secp256k1_ecdh` into `ss`.
  unfoldable pub share : (Lnsocket → Pubkey) → (Lnsocket → Secret) → Note → Io (Unit {0})
  unfolding shared
  share point secret n (ln, net) = shared n ln net (ext.secp.ecdh (point ln) (secret ln))

  -- `ck` and `temp_k` from `ck` and `ss`.
  unfoldable pub derive_keys : Handshake → Handshake
  unfolding hkdf_two_keys
  derive_keys h =
      let (ck, temp_k) = hkdf_two_keys ext.hkdf h.ck (some h.ss) in
      record h { ck = ck; temp_k = temp_k }

  unfoldable pub mix_ephemeral : Keypair → Lnsocket → Lnsocket
  unfolding sha_mix_in_key
  mix_ephemeral e ln = with_handshake ln (record ln.handshake {
    e = e;
    h = sha_mix_in_key ext.sha256 ext.secp ln.handshake.h e.public;
  })

  unfoldable pub build_act_one : Lnsocket → Lnsocket
  unfolding derive_keys sha_mix_in encrypt_ad
  build_act_one ln =
      let h = derive_keys ln.handshake in
      let tag = encrypt_ad ext.aead h.temp_k 0 h.h [] in
      with_handshake ln (record h {
        h = sha_mix_in ext.sha256 h.h tag;
        act1 = record { v = 0; pubkey = ext.secp.pubkey_serialize h.e.public; tag = tag };
      })

  -- `e` is what `generate_key` gives.
  unfoldable pub act_one_initiator_prep : Keypair → Io (Unit {0})
  unfolding mix_ephemeral build_act_one share
  act_one_initiator_prep e = do
    modify (mix_ephemeral e)
    share (λ ln. ln.handshake.their_id) (λ ln. ln.handshake.e.priv) Note.act1_ecdh_failed
    modify build_act_one

  unfoldable pub handshake_success : Lnsocket → Lnsocket
  unfolding hkdf_two_keys
  handshake_success ln =
      let h = ln.handshake in
      let (k1, k2) = hkdf_two_keys ext.hkdf h.ck none in
      let (sk, rk) = elim (h.side) as (λ _. Secret × Secret) [
        | initiator ↦ (k1, k2)
        | responder ↦ (k2, k1)
      ] in
      record ln {
        crypto_state = record { rn = 0; sn = 0; sk = sk; rk = rk; s_ck = h.ck; r_ck = h.ck };
      }

  unfoldable pub encrypt_static : Lnsocket → Lnsocket
  unfolding sha_mix_in encrypt_ad
  encrypt_static ln =
      let h = ln.handshake in
      let ciphertext =
        encrypt_ad ext.aead h.temp_k 1 h.h (ext.secp.pubkey_serialize ln.key.public) in
      with_handshake ln (record h {
        h = sha_mix_in ext.sha256 h.h ciphertext;
        act3 = record h.act3 { ciphertext = ciphertext };
      })

  unfoldable pub finish_act_three : Lnsocket → Lnsocket
  unfolding derive_keys encrypt_ad
  finish_act_three ln =
      let h = derive_keys ln.handshake in
      with_handshake ln
        (record h { act3 = record h.act3 { v = 0; tag = encrypt_ad ext.aead h.temp_k 0 h.h [] } })

  unfoldable pub act_three_built : Io ActThree
  act_three_built (ln, net) = (some ln.handshake.act3, (ln, net))

  unfoldable pub build_act_three : Io ActThree
  unfolding encrypt_static share finish_act_three handshake_success act_three_built
  build_act_three = do
    modify encrypt_static
    share (λ ln. ln.handshake.re) (λ ln. ln.key.priv) Note.act3_ecdh_failed
    modify finish_act_three
    modify handshake_success
    act_three_built

  unfoldable pub check_version : ActOne → Io (Unit {0})
  check_version act2 (ln, net) =
      if act2.v == 0 then (some tt, (ln, net)) else fail ext Note.unrecognized_version (ln, net)

  unfoldable pub parsed : Lnsocket → Net → Option Pubkey → Option (Unit {0}) × World
  unfolding sha_mix_in_key
  parsed ln net none = fail ext Note.failed_parse_remote (ln, net)
  parsed ln net (some re) = (
    some tt,
    (
      with_handshake ln (record ln.handshake {
        re = re;
        h = sha_mix_in_key ext.sha256 ext.secp ln.handshake.h re;
      }),
      net,
    ),
  )

  unfoldable pub parse_remote : ActOne → Io (Unit {0})
  unfolding parsed
  parse_remote act2 (ln, net) = parsed ln net (ext.secp.pubkey_parse act2.pubkey)

  unfoldable pub tag_checked : ActOne → Lnsocket → Net → Option (List ℕ) → Option (Unit {0}) × World
  unfolding sha_mix_in
  tag_checked act2 ln net none = fail ext Note.handshake_decrypt_failed (ln, net)
  tag_checked act2 ln net (some _) = (
    some tt,
    (
      with_handshake ln (record ln.handshake { h = sha_mix_in ext.sha256 ln.handshake.h act2.tag }),
      net,
    ),
  )

  unfoldable pub check_tag : ActOne → Io (Unit {0})
  unfolding tag_checked decrypt
  check_tag act2 (ln, net) =
      tag_checked act2 ln net (decrypt ext.aead ln.handshake.temp_k 0 ln.handshake.h act2.tag)

  unfoldable pub derive_step : Lnsocket → Lnsocket
  unfolding derive_keys
  derive_step ln = with_handshake ln (derive_keys ln.handshake)

  unfoldable pub lnsocket_act_two : ActOne → Io ActThree
  unfolding check_version parse_remote share derive_step check_tag build_act_three
  lnsocket_act_two act2 = do
    check_version act2
    parse_remote act2
    share (λ ln. ln.handshake.re) (λ ln. ln.handshake.e.priv) Note.act2_ecdh_failed
    modify derive_step
    check_tag act2
    build_act_three

  -- A single call of `read` for the 50 bytes.
  unfoldable pub act_two_received : Lnsocket → Option (List ℕ) × Net → Option ActOne × World
  act_two_received ln (none, net) = fail ext Note.act_two_read_failed (ln, net)
  act_two_received ln (some bytes, net) =
      if length bytes == 50
      then (
        some (act_two_of bytes),
        (with_handshake ln (record ln.handshake { act2 = act_two_of bytes }), net),
      )
      else fail ext Note.act_two_read_failed (ln, net)

  unfoldable pub receive_act_two : Io ActOne
  unfolding act_two_received
  receive_act_two (ln, net) = act_two_received ln (read net 50)

  unfoldable pub act_sent : Lnsocket → ℕ → Option ℕ × Net → Option (Unit {0}) × World
  act_sent ln size (none, net) = fail ext Note.initial_send_failed (ln, net)
  act_sent ln size (some n, net) =
      if n == size then (some tt, (ln, net)) else fail ext Note.initial_send_failed (ln, net)

  unfoldable pub send_act : (Lnsocket → List ℕ) → ℕ → Io (Unit {0})
  unfolding act_sent
  send_act bytes size (ln, net) = act_sent ln size (write net (take size (bytes ln)))

  unfoldable pub act_two_initiator : Io (Unit {0})
  unfolding receive_act_two lnsocket_act_two send_act
  act_two_initiator = do
    act2 ← receive_act_two
    act3 ← lnsocket_act_two act2
    send_act (λ ln. act_three_bytes act3) 66

  unfoldable pub act_one_initiator : Keypair → Io (Unit {0})
  unfolding act_one_initiator_prep send_act act_two_initiator
  act_one_initiator e = do
    act_one_initiator_prep e
    send_act (λ ln. act_one_bytes ln.handshake.act1) 50
    act_two_initiator
