-- ===== src/Crypto/Rotation.antt =====
-- The schedule of nonces and keys over a run of messages.
use lnsocket.Prelude.{
  ℕ, zero, suc, ◌+◌, ◌*◌, ◌/◌, ◌%◌, ◌≤◌, ◌<◌, ◌≡◌, refl, ap, some, List, [], ◌∷◌, arith, length,
  All, Bool-cases, ◌==◌, ltb, false, inl, inr,
}
use lnsocket.Primitives.{Aead, Hkdf}
use lnsocket.Memory.{Memory, Ptr}
use lnsocket.Crypto.{
  Secret, CryptoState, Encrypted, next_nonce, maybe_rotate_key, rotate_sender,
  cryptomsg_encrypt_msg, hkdf_two_keys,
}
use lnsocket.Crypto.Transport.{sent, encrypt_fits}

module _ (kdf : Hkdf) where
  -- The chaining key and the key, after `j` rotations.
  abbrev pub rotated : ℕ → Secret × Secret → Secret × Secret
  rotated zero keys = keys
  rotated (suc j) keys = let (ck, k) = rotated j keys in hkdf_two_keys kdf ck (some k)

  -- The sender's side after `j` messages, counted from a fresh key.
  abbrev pub AfterMessages : Secret × Secret → ℕ → CryptoState → Type 0
  AfterMessages keys j cs =
      (cs.sn ≡ 2 * (j % 500))
      × (◌≡◌ {A = Secret × Secret} (cs.s_ck, cs.sk) (rotated (j / 500) keys))

  sent-AfterMessages :
      (keys : Secret × Secret) (j : ℕ) (cs : CryptoState)
      → AfterMessages keys j cs
      → AfterMessages keys (suc j) (sent kdf cs)
  unfolding rotate_sender maybe_rotate_key
  sent-AfterMessages keys j cs h = elim (Bool-cases (ltb (j % 500) 499)) [
    | inl more ↦
        let n : next_nonce (next_nonce cs.sn) ≡ 2 * (suc j % 500) = ground arith in
        let e : suc j / 500 ≡ j / 500 = ground arith in
        let stays : (2 * (suc j % 500) == 1000) ≡ false = ground arith in
        rw (n, e, stays) (refl, h.1)
    | inr last ↦
        let n : next_nonce (next_nonce cs.sn) ≡ 1000 = ground arith in
        let e : suc j / 500 ≡ suc (j / 500) = ground arith in
        let z : suc j % 500 ≡ 0 = ground arith in
        rw (n, e, z)
          (refl, ap (λ (keys : Secret × Secret). hkdf_two_keys kdf keys.0 (some keys.1)) h.1)
  ]

  module _ (aead : Aead) (out : Ptr) (outcap : ℕ) where
    -- The state after a run of messages, each encrypted to `out` from where it stands.
    unfoldable pub send_all : CryptoState → Memory → List (Ptr × ℕ) → CryptoState
    send_all cs m [] = cs
    send_all cs m ((msg, mlen) ∷ msgs) =
        let e = cryptomsg_encrypt_msg aead kdf cs m msg mlen out outcap in
        send_all e.state e.mem msgs

    send_all_step :
        (cs : CryptoState) (m : Memory) (msg : Ptr) (mlen : ℕ) (msgs : List (Ptr × ℕ))
        → mlen ≤ outcap
        → (w : Memory) × (send_all cs m ((msg, mlen) ∷ msgs) ≡ send_all (sent kdf cs) w msgs)
    unfolding send_all
    send_all_step cs m msg mlen msgs fits = (
      _,
      ap (λ (e : Encrypted). send_all e.state e.mem msgs)
          (encrypt_fits aead kdf cs m msg mlen out outcap fits),
    )

    send_all-AfterMessages :
        (keys : Secret × Secret) (j : ℕ) (cs : CryptoState) (m : Memory) (msgs : List (Ptr × ℕ))
        → All (λ p. p.1 ≤ outcap) msgs
        → AfterMessages keys j cs
        → AfterMessages keys (j + length msgs) (send_all cs m msgs)
    send_all-AfterMessages keys j cs m [] fits h =
        let e : j + 0 ≡ j = omega arith in unfold send_all in rw e h
    send_all-AfterMessages keys j cs m ((msg, mlen) ∷ msgs) fits h =
        let e : j + suc (length msgs) ≡ suc j + length msgs = omega arith in
        let (w, step) = send_all_step cs m msg mlen msgs fits.0 in
        rw (e, step)
          (send_all-AfterMessages keys (suc j) (sent kdf cs) w msgs fits.1
            (sent-AfterMessages keys j cs h))

    -- From a fresh key on, after any run of messages that fit, the next nonce is twice the number
    -- of messages modulo 500, so it stays below 1000, and the keys are those that the key rotation
    -- gives once for every 500 messages.
    pub send_all_schedule :
        (cs : CryptoState) (m : Memory) (msgs : List (Ptr × ℕ))
        → cs.sn ≡ 0
        → All (λ p. p.1 ≤ outcap) msgs
        → let after = send_all cs m msgs in
          (after.sn ≡ 2 * (length msgs % 500))
          × (after.sn < 1000)
          × (◌≡◌ {A = Secret × Secret}
              (after.s_ck, after.sk)
              (rotated (length msgs / 500) (cs.s_ck, cs.sk)))
    send_all_schedule cs m msgs fresh fits =
        let h =
          send_all-AfterMessages (cs.s_ck, cs.sk) 0 cs m msgs fits (omega (arith, fresh), refl) in
        let e : 0 + length msgs ≡ length msgs = omega arith in
        let t = rw e at h in (t.0, omega (arith, t.0), t.1)
