-- ===== src/Io.antt =====
-- Operations on a socket and its connection that can fail: `none` is the answer 0. What was done
-- before a failure stays done.
use lnsocket.Prelude.{◌≡◌, refl, ap, Option, none, some}
use lnsocket.Cursor.{Buffer, reset_cursor}
use lnsocket.Errors.{Note}
use lnsocket.Primitives.{Externals}
use lnsocket.Net.{Net}
use lnsocket.State.{Lnsocket, note}

abbrev pub World : Type 0
World = Lnsocket × Net

abbrev pub Io : Type 0 → Type 0
Io A = World → Option A × World

module _ {A B : Type 0} where
  abbrev pub and_then : Option A × World → (A → Io B) → Option B × World
  and_then (none, w) f = (none, w)
  and_then (some a, w) f = f a w

  infixl 5 ◌>>=◌ ◌>>◌
  abbrev pub ◌>>=◌ : Io A → (A → Io B) → Io B
  ◌>>=◌ m f w = and_then (m w) f

  abbrev pub ◌>>◌ : Io A → Io B → Io B
  m >> k = m >>= λ _. k

  -- A step that succeeds.
  pub >>=-eq_some :
      (m : Io A) (f : A → Io B) {a : A} {w v : World} → m w ≡ (some a, v) → (m >>= f) w ≡ f a v
  >>=-eq_some m f e = ap (λ r. and_then r f) e

  -- A step that fails.
  pub >>=-eq_none :
      (m : Io A) (f : A → Io B) {w v : World} → m w ≡ (none, v) → (m >>= f) w ≡ (none, v)
  >>=-eq_none m f e = ap (λ r. and_then r f) e

module _ {A B : Type 0} where
  and_then_inv :
      (r : Option A × World) (f : A → Io B) {b : B} {v : World}
      → and_then r f ≡ (some b, v)
      → (a : A) × (u : World) × (r ≡ (some a, u)) × (f a u ≡ (some b, v))
  and_then_inv (none, u) f h = absurd (cc)
  and_then_inv (some a, u) f h = (a, u, refl, h)

  -- Where a sequence succeeds, its steps do.
  pub >>=-inv :
      (m : Io A) (f : A → Io B) {b : B} {w v : World}
      → (m >>= f) w ≡ (some b, v)
      → (a : A) × (u : World) × (m w ≡ (some a, u)) × (f a u ≡ (some b, v))
  >>=-inv m f {w = w} h = and_then_inv (m w) f h

abbrev pub pure : {A : Type 0} → A → Io A
pure a w = (some a, w)

abbrev pub modify : (Lnsocket → Lnsocket) → Io (Unit {0})
modify f (ln, net) = (some tt, (f ln, net))

-- The socket after the two cursors are reset.
abbrev pub cleared : Lnsocket → Lnsocket
unfolding reset_cursor
cleared ln = record ln {
  errs = record ln.errs { cur = reset_cursor ln.errs.cur };
  msgbuf = reset_cursor ln.msgbuf;
}

abbrev pub with_buffer : Lnsocket → Buffer → Lnsocket
with_buffer ln b = record ln { memory = b.mem; msgbuf = b.cur }

abbrev pub buffer_of : Lnsocket → Buffer
buffer_of ln = record { mem = ln.memory; cur = ln.msgbuf }

abbrev pub reset_msgbuf : Lnsocket → Lnsocket
unfolding reset_cursor
reset_msgbuf ln = record ln { msgbuf = reset_cursor ln.msgbuf }

module _ (ext : Externals) where
  abbrev pub fail : {A : Type 0} → Note → Io A
  fail n (ln, net) = (none, (note ext n ln, net))
