-- ===== src/Crypto/Transport.antt =====
-- The two sides of the transport encryption of crypto.c.
use lnsocket.Prelude.{
  ℕ, ◌+◌, ◌-◌, ◌≤◌, ◌≡◌, refl, sym, ap, ◌∙◌, some, List, [], ◌++◌, arith, length, length-append,
  take, drop, take-append, drop-append, le→ltb, true, ◌⊎◌, inl, inr, Bool-cases, leb, ◌==◌, ==_iff,
  le→leb,
}
use lnsocket.Prelude.Bytes.{IsU16, be16_bytes, be16_round}
use lnsocket.Memory.{
  Memory, Ptr, store, load, store-append, length-load, load-store, load_same, load_split,
  store_below, store_above,
}
use lnsocket.Primitives.{Aead, AeadLaws, Hkdf}
use lnsocket.Crypto.{
  CryptoState, Encrypted, next_nonce, le64_nonce, maybe_rotate_key, rotate_receiver, rotate_sender,
  cryptomsg_decrypt_header, cryptomsg_decrypt_body, separate, encrypt_at, cryptomsg_encrypt_msg,
}

-- The receiver `r` expects what the sender `s` sends next.
pub record Mirrors (s r : CryptoState) : Type 0 where
  pub nonce : s.sn ≡ r.rn
  pub key : s.sk ≡ r.rk
  pub chaining_key : s.s_ck ≡ r.r_ck

rotate-Mirrors :
    (kdf : Hkdf) (s r : CryptoState)
    → Mirrors s r
    → Mirrors (rotate_sender kdf s) (rotate_receiver kdf r)
unfolding rotate_sender rotate_receiver maybe_rotate_key
rotate-Mirrors kdf s r v =
    let e = v.nonce in let k = v.key in let c = v.chaining_key in ground arith

-- The receiver behind the header.
abbrev pub halfway : CryptoState → CryptoState
halfway cs = record cs { rn = next_nonce cs.rn }

-- A message that stands apart from its packet at `out`, or exactly where its ciphertext goes.
abbrev pub Apart : Ptr → ℕ → Ptr → Type 0
Apart msg mlen out = (msg + mlen ≤ out) ⊎ ((msg ≡ out + 18) ⊎ (out + (mlen + 34) ≤ msg))

module _ (kdf : Hkdf) where
  -- The two sides behind a whole message.
  abbrev pub sent : CryptoState → CryptoState
  sent cs = rotate_sender kdf (record cs { sn = next_nonce (next_nonce cs.sn) })

  abbrev pub received : CryptoState → CryptoState
  received cs = rotate_receiver kdf (record cs { rn = next_nonce (next_nonce cs.rn) })

  pub received-Mirrors : (s r : CryptoState) → Mirrors s r → Mirrors (sent s) (received r)
  received-Mirrors s r v =
      rotate-Mirrors kdf _ _
        (record { nonce = rw v.nonce; key = v.key; chaining_key = v.chaining_key })

module _ (aead : Aead) where
  -- The two ciphertexts of a message.
  abbrev pub header_of : CryptoState → List ℕ → List ℕ
  header_of cs msg = aead.encrypt cs.sk (le64_nonce cs.sn) [] (be16_bytes (length msg))

  abbrev pub body_of : CryptoState → List ℕ → List ℕ
  body_of cs msg = aead.encrypt cs.sk (le64_nonce (next_nonce cs.sn)) [] msg

  -- What a message is sent as: 34 bytes more than its own.
  abbrev pub packet : CryptoState → List ℕ → List ℕ
  packet cs msg = header_of cs msg ++ body_of cs msg

  -- The memory behind the length that the encryption writes first.
  abbrev pub header_stored : CryptoState → Memory → ℕ → Ptr → Memory
  header_stored cs m mlen out =
      store m out (aead.encrypt cs.sk (le64_nonce cs.sn) [] (be16_bytes mlen))

  -- What is written at `out`: the body is read behind the first write.
  abbrev pub output : CryptoState → Memory → Ptr → ℕ → Ptr → List ℕ
  output cs m msg mlen out =
      let header = aead.encrypt cs.sk (le64_nonce cs.sn) [] (be16_bytes mlen) in
      header
      ++ encrypt_at aead cs.sk (le64_nonce (next_nonce cs.sn)) (header_stored cs m mlen out) msg
          mlen (out + length header)

  pub encrypt_fits :
      (kdf : Hkdf) (s : CryptoState) (m : Memory) (msg : Ptr) (mlen : ℕ) (out : Ptr) (outcap : ℕ)
      → mlen ≤ outcap
      → cryptomsg_encrypt_msg aead kdf s m msg mlen out outcap ≡ record {
        done = true;
        outlen = 2 + 16 + mlen + 16;
        mem = store m out (output s m msg mlen out);
        state = sent kdf s;
      }
  unfolding cryptomsg_encrypt_msg
  encrypt_fits kdf s m msg mlen out outcap fits = rw (le→ltb outcap mlen fits) (
      ap
        (λ (w : Memory).
          let e : Encrypted = record {
            done = true;
            outlen = 2 + 16 + mlen + 16;
            mem = w;
            state = sent kdf s;
          } in
          e)
        (sym (store-append m out _ _)))

module _ (aead : Aead) (laws : AeadLaws aead) (kdf : Hkdf) where
  pub decrypt_header_of :
      (s r : CryptoState) (msg : List ℕ)
      → Mirrors s r
      → IsU16 (length msg)
      → cryptomsg_decrypt_header aead r (header_of aead s msg) ≡ (some (length msg), halfway r)
  unfolding cryptomsg_decrypt_header
  decrypt_header_of s r msg v short =
      rw (← v.nonce, ← v.key, laws.decrypt-encrypt, be16_round (length msg) short)

  pub decrypt_body_of :
      (s r : CryptoState) (msg : List ℕ) (incap : ℕ)
      → Mirrors s r
      → length msg ≤ incap
      → cryptomsg_decrypt_body aead kdf (halfway r) (body_of aead s msg) incap
        ≡ (some msg, received kdf r)
  unfolding cryptomsg_decrypt_body
  decrypt_body_of s r msg incap v room =
      let n : length (body_of aead s msg) ≡ length msg + 16 = laws.length-encrypt _ _ _ _ in
      let d : aead.decrypt r.rk (le64_nonce (next_nonce r.rn)) [] (body_of aead s msg) ≡ some msg =
        rw (← v.nonce, ← v.key) (laws.decrypt-encrypt _ _ _ _) in
      rw
        (
          n,
          d,
          le→ltb (length msg + 16) 16 (omega arith),
          le→ltb incap (length msg + 16 - 16) (omega arith),
        )
        refl

  pub length-packet :
      (cs : CryptoState) (msg : List ℕ) → length (packet aead cs msg) ≡ length msg + 34
  length-packet cs msg = omega (
    arith,
    length-append (header_of aead cs msg) (body_of aead cs msg),
    laws.length-encrypt cs.sk (le64_nonce cs.sn) [] (be16_bytes (length msg)),
    laws.length-encrypt cs.sk (le64_nonce (next_nonce cs.sn)) [] msg,
  )

  take-packet :
      (cs : CryptoState) (msg : List ℕ) → take 18 (packet aead cs msg) ≡ header_of aead cs msg
  take-packet cs msg =
      let n : length (header_of aead cs msg) ≡ 18 = laws.length-encrypt _ _ _ _ in
      rw n at (take-append (header_of aead cs msg) (body_of aead cs msg))

  drop-packet :
      (cs : CryptoState) (msg : List ℕ) → drop 18 (packet aead cs msg) ≡ body_of aead cs msg
  drop-packet cs msg =
      let n : length (header_of aead cs msg) ≡ 18 = laws.length-encrypt _ _ _ _ in
      rw n at (drop-append (header_of aead cs msg) (body_of aead cs msg))

  take-packet-load :
      (m : Memory) (out : Ptr) (cs : CryptoState) (msg : List ℕ)
      → (load (store m out (packet aead cs msg)) out 18 ≡ header_of aead cs msg)
        × (load (store m out (packet aead cs msg)) (out + 18) (length msg + 16)
            ≡ body_of aead cs msg)
  take-packet-load m out cs msg =
      let n : length (header_of aead cs msg) ≡ 18 = laws.length-encrypt _ _ _ _ in
      let k : length (body_of aead cs msg) ≡ length msg + 16 = laws.length-encrypt _ _ _ _ in
      let (front, back) =
        load_split (store m out (packet aead cs msg)) out (header_of aead cs msg)
          (body_of aead cs msg) (load-store m out (packet aead cs msg)) in
      (rw n at front, rw k at (rw n at back))

  -- The message is not changed by the header that is written in front of it.
  pub header_spares :
      (s : CryptoState) (m : Memory) (msg : Ptr) (mlen : ℕ) (out : Ptr)
      → Apart msg mlen out
      → load (header_stored aead s m mlen out) msg mlen ≡ load m msg mlen
  header_spares s m msg mlen out apart =
      let n = laws.length-encrypt s.sk (le64_nonce s.sn) [] (be16_bytes mlen) in
      load_same m _ msg mlen (λ x lo hi. elim apart [
        | inl before ↦ store_below m out _ x (omega arith)
        | inr (inl at) ↦ store_above m out _ x (omega (arith, n, at))
        | inr (inr behind) ↦ store_above m out _ x (omega (arith, n))
      ])

  pub length-output :
      (s : CryptoState) (m : Memory) (msg : Ptr) (mlen : ℕ) (out : Ptr)
      → length (output aead s m msg mlen out) ≡ mlen + 34
  unfolding encrypt_at
  length-output s m msg mlen out =
      let lc : List ℕ = aead.encrypt s.sk (le64_nonce s.sn) [] (be16_bytes mlen) in
      let w = header_stored aead s m mlen out in
      let second = le64_nonce (next_nonce s.sn) in
      let n : length lc ≡ 18 = laws.length-encrypt _ _ _ _ in
      let k : length (encrypt_at aead s.sk second w msg mlen (out + length lc)) ≡ mlen + 16 =
        elim (Bool-cases (separate msg mlen (out + length lc))) [
          | inl apart ↦
              rw apart
                (laws.length-encrypt _ _ _ _ ∙ ap (λ (j : ℕ). j + 16) (length-load w msg mlen))
          | inr not_apart ↦ rw not_apart (laws.length-overlapped _ _ _ _ _ _)
        ] in
      omega
        (arith, length-append lc (encrypt_at aead s.sk second w msg mlen (out + length lc)), n, k)

  separate_out :
      (msg : Ptr) (mlen : ℕ) (out out' : Ptr)
      → out' ≡ out + 18
      → Apart msg mlen out
      → separate msg mlen out' ≡ true
  unfolding separate
  separate_out msg mlen out out' e apart = elim apart [
    | inl before ↦ rw (le→leb (msg + mlen) out' (omega (arith, e, before))) refl
    | inr (inl at) ↦ elim (Bool-cases (leb (msg + mlen) out')) [
      | inl below ↦ rw below refl
      | inr above ↦ rw (above, (==_iff msg out').1 (at ∙ sym e)) refl
    ]
    | inr (inr behind) ↦ elim (Bool-cases (leb (msg + mlen) out')) [
      | inl below ↦ rw below refl
      | inr above ↦ elim (Bool-cases (msg == out')) [
        | inl at ↦ rw (above, at) refl
        | inr off ↦ rw (above, off) (le→leb (out' + (mlen + 16)) msg (omega (arith, e, behind)))
      ]
    ]
  ]

  -- Of a message that stands apart, the packet is written.
  pub output-packet :
      (s : CryptoState) (m : Memory) (msg : Ptr) (mlen : ℕ) (out : Ptr)
      → Apart msg mlen out
      → output aead s m msg mlen out ≡ packet aead s (load m msg mlen)
  unfolding encrypt_at
  output-packet s m msg mlen out apart =
      let lc : List ℕ = aead.encrypt s.sk (le64_nonce s.sn) [] (be16_bytes mlen) in
      let n : length lc ≡ 18 = laws.length-encrypt _ _ _ _ in
      let k : length (load m msg mlen) ≡ mlen = length-load m msg mlen in
      let same = header_spares s m msg mlen out apart in
      rw (separate_out msg mlen out (out + length lc) (omega (arith, n)) apart, same)
        (ap
          (λ (j : ℕ).
            aead.encrypt s.sk (le64_nonce s.sn) [] (be16_bytes j)
            ++ body_of aead s (load m msg mlen))
          (sym k))

  -- A message of at most 65535 bytes that fits the two capacities is encrypted to `mlen + 34` bytes
  -- at `out`. If it stands apart from these, or at the 18th where its ciphertext goes, a receiver that
  -- mirrors the sender decrypts the first 18 to its length and the rest to the message, and the two
  -- sides stay in step.
  pub decrypt-encrypt :
      (s r : CryptoState) (m : Memory) (msg : Ptr) (mlen : ℕ) (out : Ptr) (outcap incap : ℕ)
      → Mirrors s r
      → IsU16 mlen
      → mlen ≤ outcap
      → mlen ≤ incap
      → Apart msg mlen out
      → let e = cryptomsg_encrypt_msg aead kdf s m msg mlen out outcap in
        (mid : CryptoState) × (end : CryptoState) × (e.done ≡ true)
        × (e.outlen ≡ mlen + 34)
        × (cryptomsg_decrypt_header aead r (load e.mem out 18) ≡ (some mlen, mid))
        × (cryptomsg_decrypt_body aead kdf mid (load e.mem (out + 18) (mlen + 16)) incap
            ≡ (some (load m msg mlen), end))
        × Mirrors e.state end
  decrypt-encrypt s r m msg mlen out outcap incap v short fits room apart =
      let text : List ℕ = load m msg mlen in
      let n : length text ≡ mlen = length-load m msg mlen in
      let same = output-packet s m msg mlen out apart in
      let (front, back) = take-packet-load m out s text in
      rw (encrypt_fits aead kdf s m msg mlen out outcap fits, same)
        (
          halfway r,
          received kdf r,
          refl,
          omega arith,
          rw front (rw n at (decrypt_header_of s r text v (rw n short))),
          rw (rw n at back) (decrypt_body_of s r text incap v (rw n room)),
          received-Mirrors kdf s r v,
        )
