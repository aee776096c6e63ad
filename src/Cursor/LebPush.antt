-- ===== src/Cursor/LebPush.antt =====
-- What `push_varint` writes.
use lnsocket.Prelude.{
  ℕ, zero, suc, ◌+◌, ◌*◌, ◌/◌, ◌%◌, ◌≤◌, ◌<◌, ◌≡◌, inl, inr, refl, true, false, ap, ◌∙◌, Bool,
  Bool-cases, List, [], ◌∷◌, ◌==◌, ==_iff, if◌then◌else◌, arith, length,
}
use native.Mathlib.Decide.{dec_le}
use lnsocket.Cursor.{Buffer, cursor_push_byte}
use lnsocket.Cursor.Push.{
  written, written-append, Within, Within-refl, Within-trans, cursor_push_byte-Pushes,
}
use lnsocket.Cursor.Leb.{push_ends, push_continues, push_varint_loop}

-- The bytes of `n`, `k + 1` at most.
unfoldable pub groups : ℕ → ℕ → List ℕ
groups zero n = (n % 128) ∷ []
groups (suc k) n =
    let rest = groups k (n / 128) in if n / 128 == 0 then (n % 128) ∷ [] else (128 + n % 128) ∷ rest

-- `k` groups of seven bits hold the numbers below this.
unfoldable pub capacity : ℕ → ℕ
capacity zero = 1
capacity (suc k) = 128 * capacity k

pub length-groups : (k n : ℕ) → (1 ≤ length (groups k n)) × (length (groups k n) ≤ suc k)
unfolding groups
length-groups zero n = (omega arith, omega arith)
length-groups (suc k) n = elim (Bool-cases (n / 128 == 0)) [
  | inl last ↦ rw (last, length) (omega arith, omega arith)
  | inr more ↦
      rw (more, length)
        (let (lo, hi) = length-groups k (n / 128) in (omega arith, omega (arith, hi)))
]

-- A round of `push_varint`.
module _ (k n len : ℕ) (b : Buffer) where
  push_last :
      (n / 128 == 0) ≡ true
      → push_varint_loop (suc k) n len b ≡ push_ends (len + 1) (cursor_push_byte (n % 128) b)
  unfolding push_varint_loop
  push_last last = rw last refl

  push_more :
      (n / 128 == 0) ≡ false
      → push_varint_loop (suc k) n len b
        ≡ push_continues
            (push_varint_loop k (n / 128) (len + 1))
            (cursor_push_byte (128 + n % 128) b)
  unfolding push_varint_loop
  push_more more = rw more refl

pub groups_last : (k n : ℕ) → (n / 128 == 0) ≡ true → groups k n ≡ (n % 128) ∷ []
unfolding groups
groups_last zero n last = refl
groups_last (suc k) n last = rw last refl

pub groups_more :
    (k n : ℕ) → (n / 128 == 0) ≡ false → groups (suc k) n ≡ (128 + n % 128) ∷ groups k (n / 128)
unfolding groups
groups_more k n more = rw more refl

pub capacity_div : (k n : ℕ) → n < capacity (suc k) → n / 128 < capacity k
unfolding capacity
capacity_div k n h = omega (arith, h)

pub capacity_last : (n : ℕ) → n < capacity 1 → (n / 128 == 0) ≡ true
unfolding capacity
capacity_last n h = (==_iff (n / 128) 0).1 (omega (arith, h))

-- Where the bytes fit, the loop writes them.
shape : (j len : ℕ) {v w : Buffer} → v ≡ w → ◌≡◌ {A = ℕ × Buffer} (len + 1 + j, v) (len + suc j, w)
shape j len {w = w} e = ap (λ u. (len + 1 + j, u)) e ∙ ap (λ (l : ℕ). (l, w)) (omega arith)

push_last_fits :
    (k n len : ℕ) (b : Buffer)
    → (n / 128 == 0) ≡ true
    → b.cur.p + length (groups k n) ≤ b.cur.end
    → push_varint_loop (suc k) n len b ≡ (len + length (groups k n), written b (groups k n))
push_last_fits k n len b last room =
    let g = groups_last k n last in
    rw (push_last k n len b last, g)
      (rw ((cursor_push_byte-Pushes (n % 128)).fits b (omega (arith, rw g at room))) refl)

pub push_varint_loop-fits :
    (k n len : ℕ) (b : Buffer)
    → n < capacity (suc k)
    → b.cur.p + length (groups k n) ≤ b.cur.end
    → push_varint_loop (suc k) n len b ≡ (len + length (groups k n), written b (groups k n))
push_varint_loop-fits zero n len b small room =
    push_last_fits 0 n len b (capacity_last n small) room
push_varint_loop-fits (suc k) n len b small room = elim (Bool-cases (n / 128 == 0)) [
  | inl last ↦ push_last_fits (suc k) n len b last room
  | inr more ↦
      let g = groups_more k n more in
      let fit : b.cur.p + suc (length (groups k (n / 128))) ≤ b.cur.end = rw g at room in
      let c = (128 + n % 128) ∷ [] in
      rw (push_more (suc k) n len b more, g)
        (rw ((cursor_push_byte-Pushes (128 + n % 128)).fits b (omega (arith, fit))) (
          push_varint_loop-fits k (n / 128) (len + 1) (written b c) (capacity_div (suc k) n small)
            (omega (arith, fit))
          ∙ shape (length (groups k (n / 128))) len (written-append b c (groups k (n / 128)))))
]

push_ends_full : (len : ℕ) (r : Bool × Buffer) → r.0 ≡ false → (push_ends len r).0 ≡ 0
push_ends_full len (true, w) h = cc
push_ends_full len (false, w) h = refl

push_continues_full :
    (go : Buffer → ℕ × Buffer) (r : Bool × Buffer) → r.0 ≡ false → (push_continues go r).0 ≡ 0
push_continues_full go (true, w) h = cc
push_continues_full go (false, w) h = refl

push_last_full :
    (k n len : ℕ) (b : Buffer)
    → (n / 128 == 0) ≡ true
    → b.cur.p ≤ b.cur.end
    → b.cur.end < b.cur.p + length (groups k n)
    → (push_varint_loop (suc k) n len b).0 ≡ 0
push_last_full k n len b last ok full =
    let g = groups_last k n last in
    rw (push_last k n len b last) (
      push_ends_full (len + 1) (cursor_push_byte (n % 128) b)
        ((cursor_push_byte-Pushes (n % 128)).full b ok (omega (arith, rw g at full))))

-- Where the bytes do not fit, the loop fails.
pub push_varint_loop-full :
    (k n len : ℕ) (b : Buffer)
    → n < capacity (suc k)
    → b.cur.p ≤ b.cur.end
    → b.cur.end < b.cur.p + length (groups k n)
    → (push_varint_loop (suc k) n len b).0 ≡ 0
push_varint_loop-full zero n len b small ok full =
    push_last_full 0 n len b (capacity_last n small) ok full
push_varint_loop-full (suc k) n len b small ok full = elim (Bool-cases (n / 128 == 0)) [
  | inl last ↦ push_last_full (suc k) n len b last ok full
  | inr more ↦
      let g = groups_more k n more in
      let out : b.cur.end < b.cur.p + suc (length (groups k (n / 128))) = rw g at full in
      let c = (128 + n % 128) ∷ [] in
      let go = push_varint_loop (suc k) (n / 128) (len + 1) in
      rw (push_more (suc k) n len b more) (elim (dec_le (b.cur.p + 1) b.cur.end) [
        | yes room ↦ rw ((cursor_push_byte-Pushes (128 + n % 128)).fits b (omega arith)) (
            push_varint_loop-full k (n / 128) (len + 1) (written b c) (capacity_div (suc k) n small)
              room (omega (arith, out)))
        | no short ↦
            push_continues_full go (cursor_push_byte (128 + n % 128) b)
              ((cursor_push_byte-Pushes (128 + n % 128)).full b ok (omega arith))
      ])
]

push_ends_safe :
    (b : Buffer) (len : ℕ) (r : Bool × Buffer) → Within b r.1 → Within b (push_ends len r).1
push_ends_safe b len (true, w) v = v
push_ends_safe b len (false, w) v = v

push_continues_safe :
    (b : Buffer) (go : Buffer → ℕ × Buffer) (r : Bool × Buffer)
    → Within b r.1
    → ((w : Buffer) → Within b w → Within b (go w).1)
    → Within b (push_continues go r).1
push_continues_safe b go (true, w) v keep = keep w v
push_continues_safe b go (false, w) v keep = v

-- The loop keeps to the free part of the region.
pub push_varint_loop-safe :
    (k n len : ℕ) (b : Buffer) → b.cur.p ≤ b.cur.end → Within b (push_varint_loop k n len b).1
unfolding push_varint_loop
push_varint_loop-safe zero n len b ok = Within-refl b ok
push_varint_loop-safe (suc k) n len b ok = elim (Bool-cases (n / 128 == 0)) [
  | inl last ↦ rw (push_last k n len b last) (
      push_ends_safe b (len + 1) (cursor_push_byte (n % 128) b)
        ((cursor_push_byte-Pushes (n % 128)).safe b ok))
  | inr more ↦ rw (push_more k n len b more) (
      push_continues_safe b (push_varint_loop k (n / 128) (len + 1))
        (cursor_push_byte (128 + n % 128) b) ((cursor_push_byte-Pushes (128 + n % 128)).safe b ok)
        λ w v. Within-trans v (
          push_varint_loop-safe k (n / 128) (len + 1) w
            (omega (arith, v.inside, ap (λ (x : ℕ). x) v.same_end))))
]
