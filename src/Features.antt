-- ===== src/Features.antt =====
-- The feature bits of lnsocket.c: `highest_byte` and `lnsocket_set_feature_bit`.
pub mod Bits
use lnsocket.Prelude.{
  ℕ, zero, suc, ◌+◌, ◌-◌, ◌*◌, ◌/◌, ◌%◌, ◌^◌, Bool, true, false, List, [], ◌∷◌, ◌==◌, leb, ltb,
  if◌then◌else◌,
}
use lnsocket.Memory.{Memory, Ptr, update, load}

-- The loop from index `i` on.
unfoldable pub highest_loop : ℕ → ℕ → List ℕ → ℕ
highest_loop i highest [] = highest
highest_loop i highest (b ∷ bytes) = highest_loop (suc i) (if b == 0 then highest else i) bytes

-- The index of the last byte that is not zero, or 0. `bytes` is what stands at `buf`.
unfoldable pub highest_byte : List ℕ → ℕ
unfolding highest_loop
highest_byte bytes = highest_loop 0 0 bytes

unfoldable pub max : ℕ → ℕ → ℕ
max a b = if ltb b a then a else b

-- `byte | (1 << k)`
unfoldable pub with_bit : ℕ → ℕ → ℕ
with_bit byte k = if byte / 2 ^ k % 2 == 0 then byte + 2 ^ k else byte

-- The answer, `*newlen` (as it was where the answer is 0), and the memory.
pub record FeatureSet : Type 0 where
  pub done : Bool
  pub newlen : ℕ
  pub mem : Memory

-- `newlen` is what the pointer of this name leads to; it is no null pointer.
unfoldable pub lnsocket_set_feature_bit : Memory → Ptr → ℕ → ℕ → ℕ → FeatureSet
unfolding highest_byte max with_bit
lnsocket_set_feature_bit m buf buflen newlen bit =
    if leb buflen (bit / 8)
    then record { done = false; newlen = newlen; mem = m }
    else let len = max (highest_byte (load m buf buflen)) (bit / 8 + 1) in
      let at = buf + (len - 1 - bit / 8) in
      record { done = true; newlen = len; mem = update m at (with_bit (m at) (bit % 8)) }
