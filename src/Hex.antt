-- ===== src/Hex.antt =====
-- The hexadecimal node ids of lnsocket.c. A string is given by its bytes before the terminating
-- zero, and what a decoder returns is its answer with the bytes that it wrote.
pub mod RoundTrip
use lnsocket.Prelude.{
  ℕ, zero, suc, ◌+◌, ◌-◌, ◌*◌, ◌&&◌, Bool, true, false, Option, none, some, List, [], ◌∷◌, leb,
  ◌==◌, if◌then◌else◌,
}

unfoldable pub char_to_hex : ℕ → Option ℕ
char_to_hex c =
    if leb 48 c && leb c 57
    then some (c - 48)
    else if leb 97 c && leb c 102
    then some (c - 97 + 10)
    else if leb 65 c && leb c 70
    then some (c - 65 + 10)
    else none

-- The byte `(v1 << 4) | v2` of a digit pair, and the bytes that the rest of the string gives.
unfoldable pub pair_decoded : Option ℕ → Option ℕ → Bool × List ℕ → Bool × List ℕ
pair_decoded none v2 rest = (false, [])
pair_decoded (some v1) none rest = (false, [])
pair_decoded (some v1) (some v2) rest = (rest.0, (16 * v1 + v2) ∷ rest.1)

unfoldable pub hex_decode : List ℕ → ℕ → Bool × List ℕ
unfolding pair_decoded
hex_decode [] bufsize = (bufsize == 0, [])
hex_decode (c ∷ []) bufsize = (false, [])
hex_decode (c1 ∷ c2 ∷ str) zero = (false, [])
hex_decode (c1 ∷ c2 ∷ str) (suc bufsize) =
    let rest = hex_decode str bufsize in pair_decoded (char_to_hex c1) (char_to_hex c2) rest

-- The 33 bytes of a node id.
unfoldable pub parse_node_id : List ℕ → Bool × List ℕ
parse_node_id str = hex_decode str 33
