-- ===== src/Bigsize.antt =====
-- bigsize.c: the BigSize integers of the Lightning wire format, one, three, five or nine bytes,
-- big-endian behind the first. `bigsize_put` gives the bytes it writes to `buf`, and what it
-- returns is their number.
pub mod Canonical
pub mod RoundTrip
use lnsocket.Prelude.{
  ℕ, ◌+◌, ◌-◌, ◌*◌, ◌/◌, ◌%◌, ◌^◌, Bool, Option, none, some, List, [], ◌∷◌, ltb, leb, ◌==◌,
  if◌then◌else◌,
}
use lnsocket.Prelude.Bytes.{byte_of}
use lnsocket.Memory.{Memory, Ptr}
use lnsocket.Cursor.{Buffer, cursor_push}

unfoldable pub bigsize_len : ℕ → ℕ
bigsize_len v =
    if ltb v 0xfd then 1 else if leb v 0xffff then 3 else if leb v 0xffff_ffff then 5 else 9

unfoldable pub bigsize_put : ℕ → List ℕ
bigsize_put v =
    if ltb v 0xfd
    then byte_of 0 v ∷ []
    else if leb v 0xffff
    then 0xfd ∷ byte_of 1 v ∷ byte_of 0 v ∷ []
    else if leb v 0xffff_ffff
    then 0xfe ∷ byte_of 3 v ∷ byte_of 2 v ∷ byte_of 1 v ∷ byte_of 0 v ∷ []
    else 0xff
      ∷ byte_of 7 v
      ∷ byte_of 6 v
      ∷ byte_of 5 v
      ∷ byte_of 4 v
      ∷ byte_of 3 v
      ∷ byte_of 2 v
      ∷ byte_of 1 v
      ∷ byte_of 0 v
      ∷ []

-- What is returned, and what stands in `*val` afterwards if it was assigned.
abbrev pub GetResult : Type 0
GetResult = ℕ × Option ℕ

-- `m (p + i)` is `p[i]`.
get_fd : Memory → Ptr → ℕ → GetResult
get_fd m p max =
    if ltb max 3
    then (0, none)
    else let v = m (p + 1) * 2 ^ 8 + m (p + 2) in if ltb v 0xfd then (0, some v) else (3, some v)

get_fe : Memory → Ptr → ℕ → GetResult
get_fe m p max =
    if ltb max 5
    then (0, none)
    else let v = m (p + 1) * 2 ^ 24 + m (p + 2) * 2 ^ 16 + m (p + 3) * 2 ^ 8 + m (p + 4) in
      if v / 2 ^ 16 == 0 then (0, some v) else (5, some v)

get_ff : Memory → Ptr → ℕ → GetResult
get_ff m p max =
    if ltb max 9
    then (0, none)
    else let v =
        m (p + 1) * 2 ^ 56
        + m (p + 2) * 2 ^ 48
        + m (p + 3) * 2 ^ 40
        + m (p + 4) * 2 ^ 32
        + m (p + 5) * 2 ^ 24
        + m (p + 6) * 2 ^ 16
        + m (p + 7) * 2 ^ 8
        + m (p + 8) in
      if v / 2 ^ 32 == 0 then (0, some v) else (9, some v)

unfoldable pub bigsize_get : Memory → Ptr → ℕ → GetResult
unfolding get_fd get_fe get_ff
bigsize_get m p max =
    if ltb max 1
    then (0, none)
    else if m p == 0xfd
    then get_fd m p max
    else if m p == 0xfe
    then get_fe m p max
    else if m p == 0xff
    then get_ff m p max
    else (1, some (m p))

-- It reads at the cursor, which stays where it is.
unfoldable pub cursor_pull_bigsize : Buffer → GetResult × Buffer
cursor_pull_bigsize b = (bigsize_get b.mem b.cur.p (b.cur.end - b.cur.p), b)

unfoldable pub cursor_push_bigsize : ℕ → Buffer → Bool × Buffer
cursor_push_bigsize v = cursor_push (bigsize_put v)
