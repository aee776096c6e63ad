-- ===== src/Varint.antt =====
-- varint.c: the little-endian sibling of bigsize.c, which accepts every encoding. `varint_put`
-- gives the bytes it writes to `buf`, and what it returns is their number. The int64_t that
-- `varint_get` stores is given as its bit pattern.
pub mod RoundTrip
use lnsocket.Prelude.{ℕ, ◌+◌, ◌*◌, ◌^◌, none, some, List, [], ◌∷◌, ltb, leb, ◌==◌, if◌then◌else◌}
use lnsocket.Prelude.Bytes.{byte_of}
use lnsocket.Memory.{Memory, Ptr}
use lnsocket.Bigsize.{GetResult}

unfoldable pub varint_size : ℕ → ℕ
varint_size v =
    if ltb v 0xfd then 1 else if leb v 0xffff then 3 else if leb v 0xffff_ffff then 5 else 9

unfoldable pub varint_put : ℕ → List ℕ
varint_put v =
    if ltb v 0xfd
    then byte_of 0 v ∷ []
    else if leb v 0xffff
    then 0xfd ∷ byte_of 0 v ∷ byte_of 1 v ∷ []
    else if leb v 0xffff_ffff
    then 0xfe ∷ byte_of 0 v ∷ byte_of 1 v ∷ byte_of 2 v ∷ byte_of 3 v ∷ []
    else 0xff
      ∷ byte_of 0 v
      ∷ byte_of 1 v
      ∷ byte_of 2 v
      ∷ byte_of 3 v
      ∷ byte_of 4 v
      ∷ byte_of 5 v
      ∷ byte_of 6 v
      ∷ byte_of 7 v
      ∷ []

unfoldable pub varint_get : Memory → Ptr → ℕ → GetResult
varint_get m p max =
    if ltb max 1
    then (0, none)
    else if m p == 0xfd
    then if ltb max 3 then (0, none) else (3, some (m (p + 2) * 2 ^ 8 + m (p + 1)))
    else if m p == 0xfe
    then if ltb max 5
      then (0, none)
      else (5, some (m (p + 4) * 2 ^ 24 + m (p + 3) * 2 ^ 16 + m (p + 2) * 2 ^ 8 + m (p + 1)))
    else if m p == 0xff
    then if ltb max 9 then (0, none) else (
      9,
      some (
          m (p + 8) * 2 ^ 56
          + m (p + 7) * 2 ^ 48
          + m (p + 6) * 2 ^ 40
          + m (p + 5) * 2 ^ 32
          + m (p + 4) * 2 ^ 24
          + m (p + 3) * 2 ^ 16
          + m (p + 2) * 2 ^ 8
          + m (p + 1)),
    )
    else (1, some (m p))
