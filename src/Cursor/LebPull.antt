-- ===== src/Cursor/LebPull.antt =====
-- What `pull_varint` reads where the bytes of an `int` stand.
use lnsocket.Prelude.{
  ℕ, zero, suc, ◌+◌, ◌*◌, ◌/◌, ◌%◌, ◌^◌, ◌≤◌, ◌<◌, ◌≡◌, inl, inr, refl, true, ap, ◌∙◌, Bool-cases,
  some, List, [], ◌∷◌, ◌==◌, ==_iff, arith, le→ltb, lt→ltb, length,
}
use native.Mathlib.Nat.{add-mul, mul_assoc, div-add-mod', mod-eq_of_lt, two-pow-succ}
use lnsocket.Memory.{Memory, load}
use lnsocket.Cursor.{Buffer, pull_byte}
use lnsocket.Cursor.Push.{written}
use lnsocket.Cursor.Leb.{push_varint, pull_varint_loop, pull_varint}
use lnsocket.Cursor.LebPush.{
  groups, capacity, groups_last, groups_more, capacity_div, capacity_last, push_varint_loop-fits,
  push_varint_loop-full,
}

-- The shift by seven more bits, and how the groups add up.
two-pow_seven : (x : ℕ) → 2 ^ (suc (suc (suc (suc (suc (suc (suc x))))))) ≡ 128 * 2 ^ x
two-pow_seven x = omega (
  arith,
  two-pow-succ x,
  two-pow-succ (suc x),
  two-pow-succ (suc (suc x)),
  two-pow-succ (suc (suc (suc x))),
  two-pow-succ (suc (suc (suc (suc x)))),
  two-pow-succ (suc (suc (suc (suc (suc x))))),
  two-pow-succ (suc (suc (suc (suc (suc (suc x)))))),
)

shift_suc : (i : ℕ) → 2 ^ ((i + 1) * 7) ≡ 128 * 2 ^ (i * 7)
shift_suc i =
    let e : (i + 1) * 7 ≡ suc (suc (suc (suc (suc (suc (suc (i * 7))))))) = omega arith in
    rw e (two-pow_seven (i * 7))

group_sum : (n x : ℕ) → n / 128 * (128 * x) + n % 128 * x ≡ n * x
group_sum n x =
    let a : n / 128 * 128 * x ≡ n / 128 * (128 * x) = mul_assoc (n / 128) 128 x in
    let b : (n / 128 * 128 + n % 128) * x ≡ n / 128 * 128 * x + n % 128 * x =
      add-mul (n / 128 * 128) (n % 128) x in
    let c : n / 128 * 128 + n % 128 ≡ n = div-add-mod' n 128 in
    let d : (n / 128 * 128 + n % 128) * x ≡ n * x = ap (λ (t : ℕ). t * x) c in
    omega (arith, a, b, d)

-- The cursor `n` bytes further.
abbrev pub moved : Buffer → ℕ → Buffer
moved b n = record b { cur = record b.cur { p = b.cur.p + n } }

pull_byte_fits :
    (b : Buffer) → b.cur.p + 1 ≤ b.cur.end → pull_byte b ≡ (some (b.mem b.cur.p), moved b 1)
unfolding pull_byte
pull_byte_fits b h = rw (le→ltb b.cur.end (b.cur.p + 1) h) refl

-- What the bits of one byte add.
added :
    (c n x acc : ℕ)
    → c % 128 ≡ n % 128
    → acc + n * x < 2 ^ 32
    → (c % 128 * x) % 2 ^ 32 ≡ n % 128 * x
added c n x acc same small = rw same (mod-eq_of_lt (omega (arith, group_sum n x)))

load_head :
    (m : Memory) (p c n : ℕ) (bs : List ℕ)
    → load m p (suc n) ≡ c ∷ bs
    → (m p ≡ c) × (load m (p + 1) n ≡ bs)
unfolding load
load_head m p c n bs e = ground arith

-- A round of `pull_varint`.
module _ (k i n acc : ℕ) (b : Buffer) (room : b.cur.p + 1 ≤ b.cur.end)
    (small : acc + n * 2 ^ (i * 7) < 2 ^ 32) where
  pull_last :
      b.mem b.cur.p ≡ n % 128
      → n < 128
      → pull_varint_loop (suc k) i acc b ≡ ((i + 1, acc + n * 2 ^ (i * 7)), moved b 1)
  unfolding pull_varint_loop
  pull_last at_p less =
      let m : n % 128 ≡ n = omega (arith, less) in
      rw
        (
          pull_byte_fits b room,
          at_p,
          lt→ltb (n % 128) 128 (omega arith),
          added (n % 128) n (2 ^ (i * 7)) acc (omega arith) small,
          m,
        )
        refl

  pull_more :
      b.mem b.cur.p ≡ 128 + n % 128
      → pull_varint_loop (suc k) i acc b
        ≡ pull_varint_loop k (i + 1) (acc + n % 128 * 2 ^ (i * 7)) (moved b 1)
  unfolding pull_varint_loop
  pull_more at_p =
      rw
        (
          pull_byte_fits b room,
          at_p,
          le→ltb (128 + n % 128) 128 (omega arith),
          added (128 + n % 128) n (2 ^ (i * 7)) acc (omega arith) small,
        )
        refl

-- What is left of `n` behind the first group, one round later.
later :
    (i n acc : ℕ)
    → acc + n % 128 * 2 ^ (i * 7) + n / 128 * 2 ^ ((i + 1) * 7) ≡ acc + n * 2 ^ (i * 7)
later i n acc = rw (shift_suc i) (omega (arith, group_sum n (2 ^ (i * 7))))

-- Where the loop ends.
ends_at :
    (i j : ℕ) {m n : ℕ} (b : Buffer)
    → m ≡ n
    → ◌≡◌ {A = (ℕ × ℕ) × Buffer}
        ((i + 1 + j, m), moved (moved b 1) j)
        ((i + suc j, n), moved b (suc j))
ends_at i j b e =
    let f : i + 1 + j ≡ i + suc j = omega arith in
    let g : b.cur.p + 1 + j ≡ b.cur.p + suc j = omega arith in rw (f, g, e) refl

pull_last_load :
    (k i n acc : ℕ) (b : Buffer)
    → (n / 128 == 0) ≡ true
    → acc + n * 2 ^ (i * 7) < 2 ^ 32
    → b.cur.p + length (groups k n) ≤ b.cur.end
    → load b.mem b.cur.p (length (groups k n)) ≡ groups k n
    → pull_varint_loop (suc k) i acc b
      ≡ ((i + length (groups k n), acc + n * 2 ^ (i * 7)), moved b (length (groups k n)))
pull_last_load k i n acc b last small room l =
    let g = groups_last k n last in
    let zero_rest = (==_iff (n / 128) 0).0 last in
    let at_p = load_head b.mem b.cur.p (n % 128) 0 [] (rw g at l) in
    rw g
      (pull_last k i n acc b (omega (arith, rw g at room)) small at_p.0 (omega (arith, zero_rest)))

-- Where the bytes of `n` stand at the cursor, the loop reads them.
pull_varint_loop-load :
    (k i n acc : ℕ) (b : Buffer)
    → n < capacity (suc k)
    → acc + n * 2 ^ (i * 7) < 2 ^ 32
    → b.cur.p + length (groups k n) ≤ b.cur.end
    → load b.mem b.cur.p (length (groups k n)) ≡ groups k n
    → pull_varint_loop (suc k) i acc b
      ≡ ((i + length (groups k n), acc + n * 2 ^ (i * 7)), moved b (length (groups k n)))
pull_varint_loop-load zero i n acc b few small room l =
    pull_last_load 0 i n acc b (capacity_last n few) small room l
pull_varint_loop-load (suc k) i n acc b few small room l = elim (Bool-cases (n / 128 == 0)) [
  | inl last ↦ pull_last_load (suc k) i n acc b last small room l
  | inr more ↦
      let g = groups_more k n more in
      let j = length (groups k (n / 128)) in
      let fit : b.cur.p + suc j ≤ b.cur.end = rw g at room in
      let (at_p, behind) =
        load_head b.mem b.cur.p (128 + n % 128) j (groups k (n / 128)) (rw g at l) in
      let sum = later i n acc in
      rw g (
        pull_more (suc k) i n acc b (omega (arith, fit)) small at_p
        ∙ pull_varint_loop-load k (i + 1) (n / 128) (acc + n % 128 * 2 ^ (i * 7)) (moved b 1)
            (capacity_div (suc k) n few) (omega (arith, sum)) (omega (arith, fit)) behind
        ∙ ends_at i j b sum)
]

-- An `int` that is not negative fits in five groups.
int_capacity : (n : ℕ) → n < 2 ^ 31 → n < capacity 5
unfolding capacity
int_capacity n h = omega arith

-- What `push_varint` writes for an `int` that is not negative.
abbrev pub varint_bytes : ℕ → List ℕ
varint_bytes n = groups 4 n

pub push_varint-fits :
    (n : ℕ) (b : Buffer)
    → n < 2 ^ 31
    → b.cur.p + length (varint_bytes n) ≤ b.cur.end
    → push_varint n b ≡ (length (varint_bytes n), written b (varint_bytes n))
unfolding push_varint
push_varint-fits n b small room =
    push_varint_loop-fits 4 n 0 b (int_capacity n small) room
    ∙ ap (λ (l : ℕ). (l, written b (varint_bytes n))) (omega arith)

pub push_varint-full :
    (n : ℕ) (b : Buffer)
    → n < 2 ^ 31
    → b.cur.p ≤ b.cur.end
    → b.cur.end < b.cur.p + length (varint_bytes n)
    → (push_varint n b).0 ≡ 0
unfolding push_varint
push_varint-full n b small ok = push_varint_loop-full 4 n 0 b (int_capacity n small) ok

-- Where the bytes of an `int` stand at the cursor, `pull_varint` reads them.
pub pull_varint-load :
    (n : ℕ) (b : Buffer)
    → n < 2 ^ 31
    → b.cur.p + length (varint_bytes n) ≤ b.cur.end
    → load b.mem b.cur.p (length (varint_bytes n)) ≡ varint_bytes n
    → pull_varint b ≡ ((length (varint_bytes n), n), moved b (length (varint_bytes n)))
unfolding pull_varint
pull_varint-load n b small room l =
    pull_varint_loop-load 4 0 n 0 b (int_capacity n small) (omega arith) room l
    ∙ (let e : 0 + length (varint_bytes n) ≡ length (varint_bytes n) = omega arith in
        let f : 0 + n * 2 ^ (0 * 7) ≡ n = omega arith in rw (e, f) refl)
