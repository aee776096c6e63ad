-- ===== src/Cursor/Print.antt =====
-- What `cursor_print_around` of cursor.h prints, for a range that is not negative: the place of the
-- cursor, the bytes around it, and a caret under the byte that it stands at.
use lnsocket.Prelude.{
  ℕ, zero, suc, ◌+◌, ◌-◌, ◌<◌, ◌≡◌, refl, ap, Bool-cases, inl, inr, List, [], ◌∷◌, ◌++◌, replicate,
  ◌==◌, ==_iff, if◌then◌else◌, arith,
}
use Prim.Native.Nat.{max, min}
use lnsocket.Memory.{Memory, Ptr}
use lnsocket.Cursor.{Buffer}

-- "[%ld/%ld]", "%02x", "^", "  " and a line break.
pub data Printed : Type 0 where
  place : ℕ → ℕ → Printed
  byte : ℕ → Printed
  caret : Printed
  blank : Printed
  newline : Printed

-- The loops over the `n` bytes from `c` on.
unfoldable pub bytes_shown : Memory → Ptr → ℕ → List Printed
bytes_shown m c zero = []
bytes_shown m c (suc n) = Printed.byte (m c) ∷ bytes_shown m (suc c) n

unfoldable pub carets_shown : Ptr → Ptr → ℕ → List Printed
carets_shown p c zero = []
carets_shown p c (suc n) =
    let rest = carets_shown p (suc c) n in
    if c == p then Printed.caret ∷ rest else Printed.blank ∷ rest

unfoldable pub cursor_print_around : ℕ → Buffer → List Printed
cursor_print_around range b =
    let c = max (b.cur.p - range) b.cur.start in
    let n = min b.cur.end (b.cur.p + range) - c in
    Printed.place (b.cur.p - b.cur.start) (b.cur.end - b.cur.start)
      ∷ Printed.newline
      ∷ bytes_shown b.mem c n
    ++ Printed.newline ∷ carets_shown b.cur.p c n
    ++ Printed.newline ∷ []

no_caret : (p c n : ℕ) → p < c → carets_shown p c n ≡ replicate n Printed.blank
unfolding carets_shown
no_caret p c zero h = refl
no_caret p c (suc n) h = elim (Bool-cases (c == p)) [
  | inl e ↦ absurd (omega (arith, (==_iff c p).0 e))
  | inr e ↦ rw e (ap (λ l. Printed.blank ∷ l) (no_caret p (suc c) n (omega arith)))
]

-- The caret stands under the byte at the cursor, and nothing else does.
pub carets_shown_caret :
    (d p c n : ℕ)
    → p ≡ c + d
    → carets_shown p c (d + suc n)
      ≡ replicate d Printed.blank ++ Printed.caret ∷ replicate n Printed.blank
unfolding carets_shown
carets_shown_caret zero p c n h =
    let e : 0 + suc n ≡ suc n = omega arith in
    rw (e, (==_iff c p).1 (omega arith), no_caret p (suc c) n (omega arith)) refl
carets_shown_caret (suc d) p c n h = elim (Bool-cases (c == p)) [
  | inl e ↦ absurd (omega (arith, (==_iff c p).0 e))
  | inr e ↦
      let f : suc d + suc n ≡ suc (d + suc n) = omega arith in
      rw (f, e) (ap (λ l. Printed.blank ∷ l) (carets_shown_caret d p (suc c) n (omega arith)))
]
