-- ===== src/Cursor/Push.antt =====
-- Pushing.
use lnsocket.Prelude.{
  ℕ, ◌+◌, ◌-◌, ◌≤◌, ◌<◌, ◌≡◌, refl, ap, Bool, true, false, List, [], ◌∷◌, ◌++◌, arith, length,
  length-append, Bool-cases, inl, inr, leb, ltb, lt→leb, le→leb, lt→ltb, le→ltb,
}
use lnsocket.Memory.{Ptr, store, store-append, store_below, store_above}
use lnsocket.Prelude.Bytes.{be16_bytes, be64_bytes}
use Prim.Native.Nat.{max}
use native.Mathlib.Decide.{dec_le}
use lnsocket.Cursor.{
  Buffer, cursor_push, cursor_push_byte, and_then, ◌&&>◌, cursor_push_str, cursor_push_c_str,
  cursor_push_u16, cursor_push_u64,
}

-- `b` after `bs` were written at its cursor.
abbrev pub written : Buffer → List ℕ → Buffer
written b bs = record {
  mem = store b.mem b.cur.p bs;
  cur = record b.cur { p = b.cur.p + length bs };
}

-- `w` is `b` after operations that kept to the free part of the region.
pub record Within (b w : Buffer) : Type 0 where
  pub same_start : w.cur.start ≡ b.cur.start
  pub same_end : w.cur.end ≡ b.cur.end
  pub forward : b.cur.p ≤ w.cur.p
  pub inside : w.cur.p ≤ b.cur.end
  pub below : (x : Ptr) → x < b.cur.p → w.mem x ≡ b.mem x
  pub above : (x : Ptr) → b.cur.end ≤ x → w.mem x ≡ b.mem x

pub Within-refl : (b : Buffer) → b.cur.p ≤ b.cur.end → Within b b
Within-refl b h = record {
  same_start = refl;
  same_end = refl;
  forward = omega arith;
  inside = h;
  below = λ x _. refl;
  above = λ x _. refl;
}

pub Within-trans : {a b c : Buffer} → Within a b → Within b c → Within a c
Within-trans v w = record {
  same_start = ground arith;
  same_end = ground arith;
  forward = omega arith;
  inside = ground arith;
  below = λ x h. ground (arith, v.below x h, w.below x (omega arith));
  above = λ x h. ground (arith, v.above x h, w.above x (ground arith));
}

pub Within-written :
    (b : Buffer) (bs : List ℕ) → b.cur.p + length bs ≤ b.cur.end → Within b (written b bs)
Within-written b bs h = record {
  same_start = refl;
  same_end = refl;
  forward = omega arith;
  inside = h;
  below = store_below b.mem b.cur.p bs;
  above = λ x g. store_above b.mem b.cur.p bs x (omega arith);
}

-- `f` pushes the bytes `bs` and wants `slack` bytes to stay free behind them: it succeeds exactly
-- where they fit so, it then writes `bs`, and in every case it keeps to the free part.
pub record Pushes (f : Buffer → Bool × Buffer) (bs : List ℕ) (slack : ℕ) : Type 0 where
  pub fits : (b : Buffer) → b.cur.p + length bs + slack ≤ b.cur.end → f b ≡ (true, written b bs)
  pub full :
      (b : Buffer) → b.cur.p ≤ b.cur.end → b.cur.end < b.cur.p + length bs + slack → (f b).0 ≡ false
  pub safe : (b : Buffer) → b.cur.p ≤ b.cur.end → Within b (f b).1

pub cursor_push-Pushes : (bs : List ℕ) → Pushes (cursor_push bs) bs 1
unfolding cursor_push
cursor_push-Pushes bs = record {
  fits = λ b h. rw (lt→leb b.cur.end (b.cur.p + length bs) (omega arith));
  full = λ b _ h. rw (le→leb b.cur.end (b.cur.p + length bs) (omega arith));
  safe = λ b h. elim (Bool-cases (leb b.cur.end (b.cur.p + length bs))) [
    | inl e ↦ rw e (Within-refl b h)
    | inr e ↦ rw e (Within-written b bs (ground arith))
  ];
}

pub cursor_push_byte-Pushes : (c : ℕ) → Pushes (cursor_push_byte c) (c ∷ []) 0
unfolding cursor_push_byte store
cursor_push_byte-Pushes c = record {
  fits = λ b h. rw (le→ltb b.cur.end (b.cur.p + 1) (omega arith));
  full = λ b _ h. rw (lt→ltb b.cur.end (b.cur.p + 1) (omega arith));
  safe = λ b h. elim (Bool-cases (ltb b.cur.end (b.cur.p + 1))) [
    | inl e ↦ rw e (Within-refl b h)
    | inr e ↦ rw e (Within-written b (c ∷ []) (ground arith))
  ];
}

pub written-append :
    (b : Buffer) (xs ys : List ℕ) → written (written b xs) ys ≡ written b (xs ++ ys)
written-append b xs ys =
    let e : b.cur.p + length xs + length ys ≡ b.cur.p + length (xs ++ ys) =
      omega (arith, length-append xs ys) in
    rw (store-append b.mem b.cur.p xs ys, e)

and_then_stop :
    (r : Bool × Buffer) (g : Buffer → Bool × Buffer) → r.0 ≡ false → and_then r g ≡ (false, r.1)
and_then_stop (true, b) g h = cc
and_then_stop (false, b) g h = refl

and_then_safe :
    (b : Buffer) (r : Bool × Buffer) (g : Buffer → Bool × Buffer)
    → Within b r.1
    → ((w : Buffer) → Within b w → Within b (g w).1)
    → Within b (and_then r g).1
and_then_safe b (true, w) g v keep = keep w v
and_then_safe b (false, w) g v keep = v

-- The bytes of operations that run one after another.
module _ {f g : Buffer → Bool × Buffer} {xs ys : List ℕ} {s t u : ℕ} (pf : Pushes f xs s)
    (pg : Pushes g ys t) (slack : u ≡ max t (s - length ys)) where
  &&>-fits :
      (b : Buffer)
      → b.cur.p + length (xs ++ ys) + u ≤ b.cur.end
      → (f &&> g) b ≡ (true, written b (xs ++ ys))
  unfolding ◌&&>◌
  &&>-fits b h = rw (pf.fits b (omega (arith, length-append xs ys))) (
      rw (pg.fits (written b xs) (omega (arith, length-append xs ys)))
        (ap (λ w. (true, w)) (written-append b xs ys)))

  &&>-full :
      (b : Buffer)
      → b.cur.p ≤ b.cur.end
      → b.cur.end < b.cur.p + length (xs ++ ys) + u
      → ((f &&> g) b).0 ≡ false
  unfolding ◌&&>◌
  &&>-full b ok h = elim (dec_le (b.cur.p + length xs + s) b.cur.end) [
    | yes room ↦
        rw (pf.fits b room)
          (pg.full (written b xs) (omega arith) (omega (arith, length-append xs ys)))
    | no none ↦ rw (and_then_stop (f b) g (pf.full b ok (omega arith)))
  ]

  &&>-safe : (b : Buffer) → b.cur.p ≤ b.cur.end → Within b ((f &&> g) b).1
  unfolding ◌&&>◌
  &&>-safe b h =
      and_then_safe b (f b) g (pf.safe b h) λ w v. Within-trans v (pg.safe w (ground arith))

  pub &&>-Pushes : Pushes (f &&> g) (xs ++ ys) u
  &&>-Pushes = record { fits = &&>-fits; full = &&>-full; safe = &&>-safe }

pub cursor_push_c_str-Pushes : (str : List ℕ) → Pushes (cursor_push_c_str str) (str ++ 0 ∷ []) 0
unfolding cursor_push_c_str cursor_push_str
cursor_push_c_str-Pushes str =
    &&>-Pushes (cursor_push-Pushes str) (cursor_push_byte-Pushes 0) (omega arith)

pub cursor_push_u16-Pushes : (v : ℕ) → Pushes (cursor_push_u16 v) (be16_bytes v) 1
unfolding cursor_push_u16
cursor_push_u16-Pushes v = cursor_push-Pushes (be16_bytes v)

pub cursor_push_u64-Pushes : (v : ℕ) → Pushes (cursor_push_u64 v) (be64_bytes v) 1
unfolding cursor_push_u64
cursor_push_u64-Pushes v = cursor_push-Pushes (be64_bytes v)

pub cursor_push_str-Pushes : (str : List ℕ) → Pushes (cursor_push_str str) str 1
unfolding cursor_push_str
cursor_push_str-Pushes str = cursor_push-Pushes str
