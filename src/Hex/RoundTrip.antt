-- ===== src/Hex/RoundTrip.antt =====
-- Which strings are decoded, and to what.
use lnsocket.Prelude.{
  ℕ, zero, suc, ◌+◌, ◌*◌, ◌/◌, ◌%◌, ◌<◌, ◌≡◌, refl, ◌&&◌, Bool, true, Option, none, some, List, [],
  ◌∷◌, leb, ltb, if◌then◌else◌, arith, length, All, map,
}
use lnsocket.Prelude.Bytes.{IsByte}
use lnsocket.Hex.{char_to_hex, pair_decoded, hex_decode}

-- The lower-case digit of a number below 16, and the two digits of every byte.
unfoldable pub digit : ℕ → ℕ
digit v = if ltb v 10 then 48 + v else 87 + v

unfoldable pub hex : List ℕ → List ℕ
hex [] = []
hex (b ∷ bs) = digit (b / 16) ∷ digit (b % 16) ∷ hex bs

-- A character with an upper-case letter from A to F made lower-case.
unfoldable pub lower : ℕ → ℕ
lower c = if leb 65 c && leb c 70 then c + 32 else c

char_to_hex-digit : (v : ℕ) → v < 16 → char_to_hex (digit v) ≡ some v
unfolding char_to_hex digit
char_to_hex-digit v h = ground arith

digit-char_to_hex : (c v : ℕ) → char_to_hex c ≡ some v → (lower c ≡ digit v) × (v < 16)
unfolding char_to_hex digit lower
digit-char_to_hex c v h = ground arith

-- The encoding of bytes is decoded to these bytes, into a buffer of just their number.
pub hex_decode-hex : (bs : List ℕ) → All IsByte bs → hex_decode (hex bs) (length bs) ≡ (true, bs)
unfolding hex hex_decode pair_decoded
hex_decode-hex [] h = refl
hex_decode-hex (b ∷ bs) h =
    let e : 16 * (b / 16) + b % 16 ≡ b = omega arith in
    rw (
      char_to_hex-digit (b / 16) (omega (arith, h.0)),
      char_to_hex-digit (b % 16) (omega arith),
      hex_decode-hex bs h.1,
      e,
    )

-- A digit pair that decodes, by its digits.
pair_some :
    (d1 d2 : Option ℕ) (rest : Bool × List ℕ)
    → (pair_decoded d1 d2 rest).0 ≡ true
    → (v1 v2 : ℕ) × (d1 ≡ some v1)
      × (d2 ≡ some v2)
      × (rest.0 ≡ true)
      × ((pair_decoded d1 d2 rest).1 ≡ (16 * v1 + v2) ∷ rest.1)
unfolding pair_decoded
pair_some none d2 rest h = absurd (cc)
pair_some (some v1) none rest h = absurd (cc)
pair_some (some v1) (some v2) rest h = (v1, v2, refl, refl, h, refl)

-- A string that is decoded is, but for the case of its letters, the encoding of the bytes that are
-- written, and these fill the buffer.
pub hex_decode_sound :
    (str : List ℕ) (bufsize : ℕ)
    → (hex_decode str bufsize).0 ≡ true
    → let bs = (hex_decode str bufsize).1 in
      (map lower str ≡ hex bs) × (length bs ≡ bufsize) × All IsByte bs
unfolding hex_decode hex
hex_decode_sound [] bufsize h = (refl, ground arith, tt)
hex_decode_sound (c ∷ []) bufsize h = absurd (cc)
hex_decode_sound (c1 ∷ c2 ∷ str) zero h = absurd (cc)
hex_decode_sound (c1 ∷ c2 ∷ str) (suc n) h =
    let (v1, v2, e1, e2, ok, bytes) =
      pair_some (char_to_hex c1) (char_to_hex c2) (hex_decode str n) h in
    let (text, filled, small) = hex_decode_sound str n ok in
    let (l1, b1) = digit-char_to_hex c1 v1 e1 in
    let (l2, b2) = digit-char_to_hex c2 v2 e2 in
    let hi : (16 * v1 + v2) / 16 ≡ v1 = omega arith in
    let lo : (16 * v1 + v2) % 16 ≡ v2 = omega arith in
    rw (bytes, hi, lo, l1, l2, text) (refl, omega (arith, filled), (omega arith, small))
