-- ===== src/Connect/Refusal.antt =====
-- Steps that leave the connection alone, and sequences that fail before they touch it.
use lnsocket.Prelude.{◌≡◌, ◌⊎◌, inl, inr, refl, ◌∙◌, some, none, Option}
use lnsocket.Net.{Net}
use lnsocket.Io.{World, Io, and_then}

module _ {A : Type 0} where
  -- Nothing is read and nothing sent.
  abbrev pub IsQuiet : Io A → Type 0
  IsQuiet m = (w : World) → (m w).1.1 ≡ w.1

  -- It fails, with this connection.
  abbrev pub Refuses : Option A × World → Net → Type 0
  Refuses r net = (r.0 ≡ none) × (r.1.1 ≡ net)

module _ {B : Type 0} where
  weigh :
      {Q : Type 0} (r : Option B × World) (n net : Net) (P : Type 0)
      → n ≡ net
      → P
      → Refuses r n ⊎ Q
      → Refuses r net ⊎ (P × Q)
  weigh r n net P q p (inl h) = inl (h.0, h.1 ∙ q)
  weigh r n net P q p (inr h) = inr (p, h)

module _ {A B : Type 0} where
  -- A quiet step before one that refuses.
  and_then-Refuses :
      (r : Option A × World) (f : A → Io B) (net : Net)
      → r.1.1 ≡ net
      → ((a : A) (v : World) → Refuses (f a v) v.1)
      → Refuses (and_then r f) net
  and_then-Refuses (none, w) f net q h = (refl, q)
  and_then-Refuses (some a, w) f net q h = ((h a w).0, (h a w).1 ∙ q)

  -- A quiet step that succeeds under a condition, before one that refuses or has conditions met.
  pub passed :
      {P Q : Type 0} (r : Option A × World) (f : A → Io B) (net : Net)
      → r.1.1 ≡ net
      → (r.0 ≡ none) ⊎ P
      → ((a : A) (v : World) → r ≡ (some a, v) → Refuses (f a v) v.1 ⊎ Q)
      → Refuses (and_then r f) net ⊎ (P × Q)
  passed (none, w) f net q holds more = inl (refl, q)
  passed (some a, w) f net q (inl h) more = absurd (cc)
  passed {P = P} (some a, w) f net q (inr p) more = weigh (f a w) w.1 net P q p (more a w refl)

  -- A step that refuses or meets a condition, before any.
  pub settled :
      {P : Type 0} (r : Option A × World) (f : A → Io B) (net : Net)
      → Refuses r net ⊎ P
      → Refuses (and_then r f) net ⊎ P
  settled (none, w) f net (inl h) = inl (refl, h.1)
  settled (some a, w) f net (inl h) = absurd (cc)
  settled r f net (inr p) = inr p
