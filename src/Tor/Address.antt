-- ===== src/Tor/Address.antt =====
-- The split of an address.
use lnsocket.Prelude.{
  ℕ, ◌≡◌, ◌≢◌, refl, ap, inl, inr, Option, none, some, List, [], ◌∷◌, ◌++◌, ◌==◌, ==_iff, All,
  Bool-cases, arith,
}
use lnsocket.Tor.{parse_port, behind_char}

-- No colon.
abbrev pub IsName : List ℕ → Type 0
IsName host = All (λ c. c ≢ 58) host

-- What `parse_port` makes of `host`: without a colon it is all name, and otherwise the name and the
-- port stand before and behind its first colon.
abbrev pub Splits : List ℕ → List ℕ × Option (List ℕ) → Type 0
Splits host (name, none) = IsName host × (name ≡ host)
Splits host (name, some port) = IsName name × (host ≡ name ++ 58 ∷ port)

Splits-char :
    (c : ℕ) (host : List ℕ) (r : List ℕ × Option (List ℕ))
    → c ≢ 58
    → Splits host r
    → Splits (c ∷ host) (behind_char c r)
Splits-char c host (name, none) ne (h, e) = ((ne, h), ap (λ (t : List ℕ). c ∷ t) e)
Splits-char c host (name, some port) ne (h, e) = ((ne, h), ap (λ (t : List ℕ). c ∷ t) e)

-- `parse_port` splits every address at its first colon.
pub parse_port-Splits : (host : List ℕ) → Splits host (parse_port host)
unfolding parse_port
parse_port-Splits [] = (tt, refl)
parse_port-Splits (c ∷ host) = elim (Bool-cases (c == 58)) [
  | inl colon ↦ rw (colon, (==_iff c 58).0 colon) (tt, refl)
  | inr other ↦
      rw other (Splits-char c host (parse_port host) (ground arith) (parse_port-Splits host))
]
