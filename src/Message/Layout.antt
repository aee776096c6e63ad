-- ===== src/Message/Layout.antt =====
-- Messages byte by byte: what a builder that pushes given bytes returns and leaves in memory.
use lnsocket.Prelude.{
  ℕ, zero, suc, ◌+◌, ◌-◌, ◌≤◌, ◌<◌, ◌≡◌, ◌⊎◌, inl, inr, refl, Bool, true, false, List, [], ◌∷◌,
  ◌++◌, arith, length, replicate, length-replicate, Bool-cases, ltb, le→ltb, lt→ltb,
}
use native.Mathlib.Decide.{dec_lt}
use lnsocket.Memory.{Memory, Ptr, store}
use lnsocket.Cursor.{Buffer, make_cursor}
use lnsocket.Cursor.Push.{
  Within-refl, Within-written, Pushes, &&>-Pushes, cursor_push-Pushes, cursor_push_byte-Pushes,
}
use lnsocket.Bigsize.{bigsize_put, cursor_push_bigsize}
use lnsocket.Message.{
  Tlv, over, message_length, cursor_push_tlv, cursor_push_tlvs, pong_zeros, push_zeros,
}

module _ {f : Buffer → Bool × Buffer} {bs : List ℕ} {slack : ℕ} (pf : Pushes f bs slack)
    (m : Memory) (buf : Ptr) (buflen : ℕ) where
  pub message_fits :
      length bs + slack ≤ buflen
      → message_length (f (over m buf buflen)) ≡ (length bs, store m buf bs)
  unfolding make_cursor
  message_fits h =
      let n : buf + length bs - buf ≡ length bs = omega arith in
      rw (pf.fits (over m buf buflen) (omega arith)) (rw n)

  failed : (r : Bool × Buffer) → r.0 ≡ false → (message_length r).0 ≡ 0
  failed (true, b) h = cc
  failed (false, b) h = refl

  pub message_full : buflen < length bs + slack → (message_length (f (over m buf buflen))).0 ≡ 0
  unfolding make_cursor
  message_full h = failed _ (pf.full (over m buf buflen) (omega arith) (omega arith))

  same_memory : (r : Bool × Buffer) → (message_length r).1 ≡ r.1.mem
  same_memory (true, b) = refl
  same_memory (false, b) = refl

  pub message_safe :
      (x : Ptr)
      → (x < buf) ⊎ (buf + buflen ≤ x)
      → (message_length (f (over m buf buflen))).1 x ≡ m x
  unfolding make_cursor
  message_safe x out =
      let v = pf.safe (over m buf buflen) (omega arith) in
      rw (same_memory (f (over m buf buflen)))
        (elim out [ inl lo ↦ v.below x lo | inr hi ↦ v.above x hi ])

-- What a builder that writes `bs` and leaves `slack` bytes free does, all told, with its answer `r`
-- and the byte at `x`.
abbrev pub IsWritten : ℕ × Memory → Memory → Ptr → ℕ → List ℕ → ℕ → Ptr → Type 0
IsWritten r m buf buflen bs slack x =
    (((length bs + slack ≤ buflen) × (r ≡ (length bs, store m buf bs)))
      ⊎ ((buflen < length bs + slack) × (r.0 ≡ 0)))
    × (((buf ≤ x) × (x < buf + buflen)) ⊎ (r.1 x ≡ m x))

pub message-IsWritten :
    {f : Buffer → Bool × Buffer} {bs : List ℕ} {slack : ℕ} (pf : Pushes f bs slack) (m : Memory)
    (buf : Ptr) (buflen : ℕ) (x : Ptr)
    → IsWritten (message_length (f (over m buf buflen))) m buf buflen bs slack x
message-IsWritten {bs = bs} {slack} pf m buf buflen x = (
  elim (dec_lt buflen (length bs + slack)) [
    | yes full ↦ inr (full, message_full pf m buf buflen full)
    | no room ↦ inl (omega arith, message_fits pf m buf buflen (omega arith))
  ],
  elim (dec_lt x buf) [
    | yes below ↦ inr (message_safe pf m buf buflen x (inl below))
    | no from ↦ elim (dec_lt x (buf + buflen)) [
      | yes within ↦ inl (omega arith, within)
      | no above ↦ inr (message_safe pf m buf buflen x (inr (omega arith)))
    ]
  ],
)

pub nothing-Pushes : Pushes (λ b. (true, b)) [] 0
unfolding store
nothing-Pushes = record {
  fits = λ b h. let e : b.cur.p + 0 ≡ b.cur.p = omega arith in rw e;
  full = λ b ok h. absurd (omega arith);
  safe = Within-refl;
}

pub pong_zeros-Pushes : (n : ℕ) → Pushes (pong_zeros n) (replicate n 0) 0
unfolding pong_zeros
pong_zeros-Pushes n =
    let k : length (replicate {A = ℕ} n 0) ≡ n = length-replicate n 0 in
    record {
      fits = λ b h. rw (le→ltb b.cur.end (b.cur.p + n) (omega arith), k);
      full = λ b ok h. rw (lt→ltb b.cur.end (b.cur.p + n) (omega arith));
      safe = λ b h. elim (Bool-cases (ltb b.cur.end (b.cur.p + n))) [
        | inl e ↦ rw e (Within-refl b h)
        | inr e ↦ rw e (rw k at (Within-written b (replicate n 0) (ground arith)))
      ];
    }

pub push_zeros-Pushes : (n : ℕ) → Pushes (push_zeros n) (replicate n 0) 0
unfolding push_zeros
push_zeros-Pushes zero = nothing-Pushes
push_zeros-Pushes (suc n) =
    &&>-Pushes (cursor_push_byte-Pushes 0) (push_zeros-Pushes n) (omega arith)

-- The encoding of a TLV record, and of a list of them.
abbrev pub tlv_bytes : Tlv → List ℕ
tlv_bytes tlv = bigsize_put tlv.type ++ (bigsize_put (length tlv.value) ++ tlv.value)

abbrev pub tlvs_bytes : List Tlv → List ℕ
tlvs_bytes [] = []
tlvs_bytes (tlv ∷ tlvs) = tlv_bytes tlv ++ tlvs_bytes tlvs

pub cursor_push_tlv-Pushes : (tlv : Tlv) → Pushes (cursor_push_tlv tlv) (tlv_bytes tlv) 1
unfolding cursor_push_tlv cursor_push_bigsize
cursor_push_tlv-Pushes tlv =
    &&>-Pushes (cursor_push-Pushes _)
      (&&>-Pushes {u = 1} (cursor_push-Pushes _) (cursor_push-Pushes _) (omega arith)) (omega arith)

abbrev pub tlvs_slack : List Tlv → ℕ
tlvs_slack [] = 0
tlvs_slack (tlv ∷ tlvs) = 1

pub cursor_push_tlvs-Pushes :
    (tlvs : List Tlv) → Pushes (cursor_push_tlvs tlvs) (tlvs_bytes tlvs) (tlvs_slack tlvs)
unfolding cursor_push_tlvs
cursor_push_tlvs-Pushes [] = nothing-Pushes
cursor_push_tlvs-Pushes (tlv ∷ []) =
    &&>-Pushes (cursor_push_tlv-Pushes tlv) nothing-Pushes (omega arith)
cursor_push_tlvs-Pushes (tlv ∷ next ∷ tlvs) =
    &&>-Pushes (cursor_push_tlv-Pushes tlv) (cursor_push_tlvs-Pushes (next ∷ tlvs)) (omega arith)
