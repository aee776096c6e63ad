-- ===== src/Features/Bits.antt =====
-- Where a feature bit is set.
use lnsocket.Prelude.{
  ℕ, zero, suc, ◌+◌, ◌-◌, ◌/◌, ◌%◌, ◌^◌, ◌≤◌, ◌<◌, ◌≡◌, ◌⊎◌, inl, inr, refl, true, false,
  Bool-cases, List, [], ◌∷◌, ◌==◌, arith, tests, ==_iff, ltb, le→ltb, le→leb, lt→leb, length,
  replicate,
}
use native.Mathlib.Decide.{dec_lt}
use native.Mathlib.Nat.{zero-div}
use lnsocket.Memory.{Memory, Ptr, update, load, length-load}
use lnsocket.Features.{highest_loop, highest_byte, max, with_bit, lnsocket_set_feature_bit}

highest_loop_bound :
    (i highest : ℕ) (bytes : List ℕ)
    → highest < i + length bytes
    → highest_loop i highest bytes < i + length bytes
unfolding highest_loop
highest_loop_bound i highest [] h = h
highest_loop_bound i highest (b ∷ bytes) h = elim (Bool-cases (b == 0)) [
  | inl zero_byte ↦
      rw zero_byte
        (let t = highest_loop_bound (suc i) highest bytes (omega (arith, h)) in omega (arith, t))
  | inr used ↦
      rw used (let t = highest_loop_bound (suc i) i bytes (omega arith) in omega (arith, t))
]

highest_loop_zero : (i n : ℕ) → highest_loop i 0 (replicate n 0) ≡ 0
unfolding highest_loop
highest_loop_zero i zero = refl
highest_loop_zero i (suc n) = highest_loop_zero (suc i) n

highest_byte_zero : (n : ℕ) → highest_byte (replicate n 0) ≡ 0
unfolding highest_byte
highest_byte_zero n = highest_loop_zero 0 n

update_at : (m : Memory) (a : Ptr) (v : ℕ) (x : Ptr) → (x ≡ a) ⊎ (update m a v x ≡ m x)
unfolding update
update_at m a v x = elim (Bool-cases (x == a)) [
  | inl same ↦ inl ((==_iff x a).0 same)
  | inr other ↦ inr (rw other)
]

update_same : (m : Memory) (a : Ptr) (v : ℕ) → update m a v a ≡ v
unfolding update
update_same m a v = rw ((==_iff a a).1 refl)

first_zero : (m : Memory) (a : Ptr) (n : ℕ) → 0 < n → load m a n ≡ replicate n 0 → m a ≡ 0
unfolding load
first_zero m a zero some h = absurd (omega arith)
first_zero m a (suc n) some h = cc

max_zero : (n : ℕ) → max 0 (n + 1) ≡ n + 1
unfolding max
max_zero n = rw (le→ltb (n + 1) 0 (omega arith))

with_bit_zero : (k : ℕ) → with_bit 0 k ≡ 2 ^ k
unfolding with_bit
with_bit_zero k = rw (zero-div (2 ^ k)) (omega arith)

highest_byte_bound : (bytes : List ℕ) → 0 < length bytes → highest_byte bytes < length bytes
unfolding highest_byte
highest_byte_bound bytes h =
    let t : highest_loop 0 0 bytes < 0 + length bytes =
      highest_loop_bound 0 0 bytes (omega (arith, h)) in
    omega (arith, t)

-- The length that is set.
len_bound :
    (m : Memory) (buf : Ptr) (buflen bit : ℕ)
    → bit / 8 < buflen
    → (bit / 8 + 1 ≤ max (highest_byte (load m buf buflen)) (bit / 8 + 1))
      × (max (highest_byte (load m buf buflen)) (bit / 8 + 1) ≤ buflen)
unfolding max
len_bound m buf buflen bit room =
    let n = length-load m buf buflen in
    let top = highest_byte_bound (load m buf buflen) (omega (arith, n)) in
    elim (Bool-cases (ltb (bit / 8 + 1) (highest_byte (load m buf buflen)))) [
      | inl more ↦ rw more (grind (tests, more), omega (arith, top, n))
      | inr less ↦ rw less (omega arith, omega (arith, room))
    ]

-- Where the bit lies outside the buffer, `lnsocket_set_feature_bit` fails and changes nothing; otherwise it succeeds, stores a length that holds the bit and does not exceed the buffer,
-- and a byte outside the buffer keeps its value.
pub set_feature_bit_result :
    (m : Memory) (buf : Ptr) (buflen newlen bit : ℕ) (x : Ptr)
    → let r = lnsocket_set_feature_bit m buf buflen newlen bit in
      ((buflen ≤ bit / 8) × (r ≡ record { done = false; newlen = newlen; mem = m }))
      ⊎ ((bit / 8 < buflen)
          × (r.done ≡ true)
          × (bit / 8 < r.newlen)
          × (r.newlen ≤ buflen)
          × (((buf ≤ x) × (x < buf + buflen)) ⊎ (r.mem x ≡ m x)))
unfolding lnsocket_set_feature_bit
set_feature_bit_result m buf buflen newlen bit x = elim (dec_lt (bit / 8) buflen) [
  | no out ↦ inl (omega arith, rw (le→leb buflen (bit / 8) (omega arith)) refl)
  | yes room ↦
      let (low, high) = len_bound m buf buflen bit room in
      inr (
        rw (lt→leb buflen (bit / 8) room) (
          room,
          refl,
          omega (arith, low),
          high,
          elim (update_at m
              (buf + (max (highest_byte (load m buf buflen)) (bit / 8 + 1) - 1 - bit / 8)) _ x) [
                | inl at_place ↦ inl (omega (arith, at_place, low, high))
                | inr other ↦ inr other
              ],
        ))
]

-- In a field of zeros the bit becomes the bit `bit` of the big-endian number that the stored length
-- of bytes make up: the length is `bit / 8 + 1`, the first byte `2 ^ (bit % 8)`, and every other byte
-- keeps its value.
pub set_feature_bit_first :
    (m : Memory) (buf : Ptr) (buflen newlen bit : ℕ) (x : Ptr)
    → load m buf buflen ≡ replicate buflen 0
    → bit / 8 < buflen
    → let r = lnsocket_set_feature_bit m buf buflen newlen bit in
      (r.newlen ≡ bit / 8 + 1) × (r.mem buf ≡ 2 ^ (bit % 8)) × ((x ≡ buf) ⊎ (r.mem x ≡ m x))
unfolding lnsocket_set_feature_bit
set_feature_bit_first m buf buflen newlen bit x zeros room =
    let top : max (highest_byte (load m buf buflen)) (bit / 8 + 1) ≡ bit / 8 + 1 =
      rw (zeros, highest_byte_zero buflen) (max_zero (bit / 8)) in
    let place : buf + (bit / 8 + 1 - 1 - bit / 8) ≡ buf = omega arith in
    let clear : m buf ≡ 0 = first_zero m buf buflen (omega (arith, room)) zeros in
    rw (lt→leb buflen (bit / 8) room, top, place, clear, with_bit_zero (bit % 8))
      (refl, update_same m buf (2 ^ (bit % 8)), update_at m buf (2 ^ (bit % 8)) x)
