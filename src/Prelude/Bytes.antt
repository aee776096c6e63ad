-- ===== src/Prelude/Bytes.antt =====
-- Bytes and the byte orders of endian.h: the memory image of a u16 or u64 after `cpu_to_be16`,
-- `cpu_to_be64` and `cpu_to_le64`, and the value that `be16_to_cpu` reads back.
use Prim.Native.Nat.{ℕ, ◌+◌, ◌*◌, ◌/◌, ◌%◌, ◌^◌, ◌<◌}
use mathlib.Core.Path.{◌≡◌}
use mathlib.Core.List.{List, [], ◌∷◌}
use native.Mathlib.Omega.{arith}

abbrev pub IsByte : ℕ → Type 0
IsByte b = b < 256

abbrev pub IsU16 : ℕ → Type 0
IsU16 v = v < 2 ^ 16

abbrev pub IsU64 : ℕ → Type 0
IsU64 v = v < 2 ^ 64

-- The byte of `v` that a shift right by `8 * k` brings to the bottom: `(u8)(v >> 8 * k)`.
abbrev pub byte_of : ℕ → ℕ → ℕ
byte_of k v = v / 2 ^ (8 * k) % 256

abbrev pub be16_bytes : ℕ → List ℕ
be16_bytes v = byte_of 1 v ∷ byte_of 0 v ∷ []

abbrev pub be16_value : ℕ → ℕ → ℕ
be16_value hi lo = hi * 256 + lo

abbrev pub le64_bytes : ℕ → List ℕ
le64_bytes v =
    byte_of 0 v
    ∷ byte_of 1 v
    ∷ byte_of 2 v
    ∷ byte_of 3 v
    ∷ byte_of 4 v
    ∷ byte_of 5 v
    ∷ byte_of 6 v
    ∷ byte_of 7 v
    ∷ []

abbrev pub be64_bytes : ℕ → List ℕ
be64_bytes v =
    byte_of 7 v
    ∷ byte_of 6 v
    ∷ byte_of 5 v
    ∷ byte_of 4 v
    ∷ byte_of 3 v
    ∷ byte_of 2 v
    ∷ byte_of 1 v
    ∷ byte_of 0 v
    ∷ []

pub be16_round : (v : ℕ) → IsU16 v → be16_value (byte_of 1 v) (byte_of 0 v) ≡ v
be16_round v h = omega arith

-- The bytes of a u32 and of a u64 make up the number.
pub join4 :
    (v : ℕ)
    → v < 2 ^ 32
    → byte_of 3 v * 2 ^ 24 + byte_of 2 v * 2 ^ 16 + byte_of 1 v * 2 ^ 8 + byte_of 0 v ≡ v
join4 v h = omega arith

pub join8 :
    (v : ℕ)
    → v < 2 ^ 64
    → byte_of 7 v * 2 ^ 56
        + byte_of 6 v * 2 ^ 48
        + byte_of 5 v * 2 ^ 40
        + byte_of 4 v * 2 ^ 32
        + byte_of 3 v * 2 ^ 24
        + byte_of 2 v * 2 ^ 16
        + byte_of 1 v * 2 ^ 8
        + byte_of 0 v
      ≡ v
join8 v h = omega arith
