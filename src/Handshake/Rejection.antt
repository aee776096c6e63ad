-- ===== src/Handshake/Rejection.antt =====
-- What the initiator does not accept, and what it keeps then.
use lnsocket.Prelude.{
  Option-cases, ℕ, ◌≡◌, refl, ◌∙◌, Option, none, some, List, ◌++◌, ◌==◌, Bool-cases, inl, inr,
  ==_iff,
}
use lnsocket.Errors.{Note}
use lnsocket.Primitives.{Pubkey, Externals}
use lnsocket.Crypto.{hkdf_two_keys, le64_nonce}
use lnsocket.Net.{Net}
use lnsocket.State.{ActOne, ActThree, Lnsocket, note}
use lnsocket.Io.{World, Io, ◌>>=◌, ◌>>◌, and_then, modify}
use lnsocket.Handshake.{
  share, shared, derive_step, derive_keys, encrypt_static, finish_act_three, handshake_success,
  act_three_built, build_act_three, check_version, parse_remote, parsed, check_tag, tag_checked,
  lnsocket_act_two, sha_mix_in_key, sha_mix_in, decrypt,
}

-- The steps that never touch the transport state, and those that do not where they fail.
abbrev Keeps : {A : Type 0} → Io A → Type 0
Keeps m = (w : World) → (m w).1.0.crypto_state ≡ w.0.crypto_state

record Safe {A : Type 0} (m : Io A) : Type 0 where
  safe : (w : World) → (m w).0 ≡ none → (m w).1.0.crypto_state ≡ w.0.crypto_state

module _ {A B : Type 0} where
  and_then-Safe :
      (r : Option A × World) (f : A → Io B)
      → ((a : A) → Safe (f a))
      → (and_then r f).0 ≡ none
      → (and_then r f).1.0.crypto_state ≡ r.1.0.crypto_state
  and_then-Safe (none, w) f s h = refl
  and_then-Safe (some a, w) f s h = (s a).safe w h

  Safe-bind : (m : Io A) (f : A → Io B) → Keeps m → ((a : A) → Safe (f a)) → Safe (m >>= f)
  Safe-bind m f k s = record { safe = λ w h. and_then-Safe (m w) f s h ∙ k w }

module _ (ext : Externals) where
  shared-Keeps :
      (n : Note) (ln : Lnsocket) (net : Net) (z : Option (List ℕ))
      → (shared ext n ln net z).1.0.crypto_state ≡ ln.crypto_state
  unfolding shared note
  shared-Keeps n ln net none = refl
  shared-Keeps n ln net (some z) = refl

  parsed-Keeps :
      (ln : Lnsocket) (net : Net) (p : Option Pubkey)
      → (parsed ext ln net p).1.0.crypto_state ≡ ln.crypto_state
  unfolding parsed note
  parsed-Keeps ln net none = refl
  parsed-Keeps ln net (some p) = refl

  tag_checked-Keeps :
      (act2 : ActOne) (ln : Lnsocket) (net : Net) (p : Option (List ℕ))
      → (tag_checked ext act2 ln net p).1.0.crypto_state ≡ ln.crypto_state
  unfolding tag_checked note
  tag_checked-Keeps act2 ln net none = refl
  tag_checked-Keeps act2 ln net (some p) = refl

  check_version-Keeps : (act2 : ActOne) → Keeps (check_version ext act2)
  unfolding check_version note
  check_version-Keeps act2 (ln, net) = elim (Bool-cases (act2.v == 0)) [
    | inl zero ↦ rw zero
    | inr other ↦ rw other
  ]

  share-Keeps :
      (point : Lnsocket → Pubkey) (secret : Lnsocket → List ℕ) (n : Note)
      → Keeps (share ext point secret n)
  unfolding share
  share-Keeps point secret n (ln, net) =
      shared-Keeps n ln net (ext.secp.ecdh (point ln) (secret ln))

  finish-Safe :
      Safe
        (modify (finish_act_three ext) >> (modify (handshake_success ext) >> act_three_built ext))
  unfolding act_three_built
  finish-Safe = record { safe = λ w h. absurd (cc) }

  build_act_three-Safe : Safe (build_act_three ext)
  unfolding build_act_three encrypt_static
  build_act_three-Safe =
      Safe-bind (modify (encrypt_static ext)) _ (λ w. refl)
        (λ _.
          Safe-bind (share ext (λ ln. ln.handshake.re) (λ ln. ln.key.priv) Note.act3_ecdh_failed) _
            (share-Keeps _ _ Note.act3_ecdh_failed) (λ _. finish-Safe))

  parse_remote-Keeps : (act2 : ActOne) → Keeps (parse_remote ext act2)
  unfolding parse_remote
  parse_remote-Keeps act2 (ln, net) = parsed-Keeps ln net (ext.secp.pubkey_parse act2.pubkey)

  check_tag-Keeps : (act2 : ActOne) → Keeps (check_tag ext act2)
  unfolding check_tag
  check_tag-Keeps act2 (ln, net) = tag_checked-Keeps act2 ln net _

  act_two-Safe : (act2 : ActOne) → Safe (lnsocket_act_two ext act2)
  unfolding lnsocket_act_two derive_step
  act_two-Safe act2 = Safe-bind (check_version ext act2) _ (check_version-Keeps act2) (λ _.
      Safe-bind (parse_remote ext act2) _ (parse_remote-Keeps act2) (λ _.
        Safe-bind
          (share ext (λ ln. ln.handshake.re) (λ ln. ln.handshake.e.priv) Note.act2_ecdh_failed) _
          (share-Keeps _ _ Note.act2_ecdh_failed)
          (λ _.
            Safe-bind (modify (derive_step ext)) _ (λ w. refl)
              (λ _.
                Safe-bind (check_tag ext act2) _ (check_tag-Keeps act2)
                  (λ _. build_act_three-Safe)))))

  -- A second act that is not accepted leaves the transport state as it was.
  pub act_two_failed :
      (act2 : ActOne) (ln : Lnsocket) (net : Net)
      → (lnsocket_act_two ext act2 (ln, net)).0 ≡ none
      → (lnsocket_act_two ext act2 (ln, net)).1.0.crypto_state ≡ ln.crypto_state
  act_two_failed act2 ln net h = (act_two-Safe act2).safe (ln, net) h

  -- The key that the tag of the second act is made with, and its additional data.
  abbrev pub tag_key : Lnsocket → List ℕ → List ℕ
  unfolding hkdf_two_keys
  tag_key ln ee = (hkdf_two_keys ext.hkdf ln.handshake.ck (some ee)).1

  abbrev pub tag_data : Lnsocket → Pubkey → List ℕ
  tag_data ln re = ext.sha256 (ln.handshake.h ++ ext.secp.pubkey_serialize re)

  -- Whatever second act is accepted has the version 0, a public key, and a tag that opens under the
  -- key derived from the secret that this public key shares with the ephemeral one, with the
  -- transcript of the handshake as additional data.
  pub act_two_authentic :
      (act2 : ActOne) (ln : Lnsocket) (net : Net) (act3 : ActThree) (v : World)
      → lnsocket_act_two ext act2 (ln, net) ≡ (some act3, v)
      → (act2.v ≡ 0)
        × (re : Pubkey) × (ee plain : List ℕ) × (ext.secp.pubkey_parse act2.pubkey ≡ some re)
        × (ext.secp.ecdh re ln.handshake.e.priv ≡ some ee)
        × (ext.aead.decrypt (tag_key ln ee) (le64_nonce 0) (tag_data ln re) act2.tag ≡ some plain)
  unfolding lnsocket_act_two check_version parse_remote parsed share shared derive_step derive_keys
      check_tag tag_checked decrypt sha_mix_in_key sha_mix_in hkdf_two_keys
  act_two_authentic act2 ln net act3 v h = elim (Bool-cases (act2.v == 0)) [
    | inr other ↦ absurd (let g = rw other at h in cc)
    | inl zero ↦ elim (Option-cases (ext.secp.pubkey_parse act2.pubkey)) [
      | inl p ↦ absurd (let g = rw (zero, p) at h in cc)
      | inr (re, p) ↦ elim (Option-cases (ext.secp.ecdh re ln.handshake.e.priv)) [
        | inl q ↦ absurd (let g = rw (zero, p, q) at h in cc)
        | inr (ee, q) ↦
            elim (Option-cases
              (ext.aead.decrypt (tag_key ln ee) (le64_nonce 0) (tag_data ln re) act2.tag)) [
                | inl d ↦ absurd (let g = rw (zero, p, q, d) at h in cc)
                | inr (plain, d) ↦ ((==_iff act2.v 0).0 zero, re, ee, plain, p, q, d)
              ]
      ]
    ]
  ]
