-- ===== src/Cursor/Pull.antt =====
-- Pulling: what the pull operations read back of what was pushed.
use lnsocket.Prelude.{
  ℕ, zero, suc, ◌+◌, ◌-◌, ◌≤◌, ◌<◌, ◌≡◌, ◌≢◌, ap, ◌∙◌, true, some, none, List, [], ◌∷◌, ◌++◌, arith,
  length, length-append, All, le→ltb, lt→ltb, Bool-cases, inl, inr, refl, Option, ltb,
}
use lnsocket.Prelude.Bytes.{be16_bytes, IsU16, be16_round}
use lnsocket.Memory.{Memory, Ptr, load, load-store}
use lnsocket.Cursor.{
  Buffer, cursor_pull, cursor_pull_u16, pulled_u16, cursor_push_u16, pull_c_str_loop,
  cursor_pull_c_str, cursor_push_c_str,
}
use lnsocket.Cursor.Push.{written, cursor_push-Pushes, cursor_push_c_str-Pushes}

-- The loop stops behind the first zero byte.
pull_c_str_loop-load :
    (m : Memory) (p : Ptr) (n : ℕ) (str : List ℕ)
    → All (λ c. c ≢ 0) str
    → length str < n
    → load m p (suc (length str)) ≡ str ++ 0 ∷ []
    → pull_c_str_loop m p n ≡ (some str, p + suc (length str))
unfolding pull_c_str_loop load
pull_c_str_loop-load m p zero str ne lt e = absurd (omega arith)
pull_c_str_loop-load m p (suc n) [] ne lt e = ground arith
pull_c_str_loop-load m p (suc n) (c ∷ str) ne lt e =
    ground (arith, pull_c_str_loop-load m (suc p) n str ne.1)

-- Where a string with no zero byte and its terminator stand at the cursor, `cursor_pull_c_str`
-- gives the string and steps behind the terminator.
pub cursor_pull_c_str-load :
    (b : Buffer) (str : List ℕ)
    → All (λ c. c ≢ 0) str
    → b.cur.p + suc (length str) ≤ b.cur.end
    → load b.mem b.cur.p (suc (length str)) ≡ str ++ 0 ∷ []
    → cursor_pull_c_str b
      ≡ (some str, record b { cur = record b.cur { p = b.cur.p + suc (length str) } })
unfolding cursor_pull_c_str
cursor_pull_c_str-load b str ne room e =
    rw (pull_c_str_loop-load b.mem b.cur.p (b.cur.end - b.cur.p) str ne (omega arith) e)

-- Where a string without a zero byte and its terminator fit, what `cursor_push_c_str` wrote is read
-- back by `cursor_pull_c_str` from the same place, and both leave the cursor behind the terminator.
pub pull-push_c_str :
    (b : Buffer) (str : List ℕ)
    → All (λ c. c ≢ 0) str
    → b.cur.p + suc (length str) ≤ b.cur.end
    → cursor_pull_c_str (record (cursor_push_c_str str b).1 { cur = b.cur })
      ≡ (some str, (cursor_push_c_str str b).1)
pull-push_c_str b str ne room =
    let n : length (str ++ 0 ∷ []) ≡ suc (length str) = omega (arith, length-append str (0 ∷ [])) in
    let pushed : cursor_push_c_str str b ≡ (true, written b (str ++ 0 ∷ [])) =
      (cursor_push_c_str-Pushes str).fits b (omega arith) in
    rw (pushed, n)
      (cursor_pull_c_str-load (record (written b (str ++ 0 ∷ [])) { cur = b.cur }) str ne room
        (rw (← n) (load-store b.mem b.cur.p (str ++ 0 ∷ []))))

-- Two bytes at the cursor that are a big-endian u16 are read as that number.
pub cursor_pull_u16-load :
    (b : Buffer) (v : ℕ)
    → IsU16 v
    → b.cur.p + 2 ≤ b.cur.end
    → load b.mem b.cur.p 2 ≡ be16_bytes v
    → cursor_pull_u16 b ≡ (some v, record b { cur = record b.cur { p = b.cur.p + 2 } })
unfolding cursor_pull_u16 cursor_pull
cursor_pull_u16-load b v h room l =
    let whole : cursor_pull 2 b
        ≡ (some (be16_bytes v), record b { cur = record b.cur { p = b.cur.p + 2 } }) =
      rw (le→ltb b.cur.end (b.cur.p + 2) room, l) in
    ap pulled_u16 whole ∙ rw (be16_round v h)

pub cursor_pull_u16_short : (b : Buffer) → b.cur.end < b.cur.p + 2 → cursor_pull_u16 b ≡ (none, b)
unfolding cursor_pull_u16 cursor_pull
cursor_pull_u16_short b h =
    let whole : cursor_pull 2 b ≡ (none, b) = rw (lt→ltb b.cur.end (b.cur.p + 2) h) in
    ap pulled_u16 whole

-- Where two bytes and one more are free, a u16 that `cursor_push_u16` wrote is read back by
-- `cursor_pull_u16` from the same place, and both leave the cursor behind it.
pub pull-push_u16 :
    (b : Buffer) (v : ℕ)
    → IsU16 v
    → b.cur.p + 2 < b.cur.end
    → cursor_pull_u16 (record (cursor_push_u16 v b).1 { cur = b.cur })
      ≡ (some v, (cursor_push_u16 v b).1)
unfolding cursor_push_u16
pull-push_u16 b v h room = rw ((cursor_push-Pushes (be16_bytes v)).fits b (omega arith)) (
    cursor_pull_u16-load (record (written b (be16_bytes v)) { cur = b.cur }) v h (omega arith)
      (load-store b.mem b.cur.p (be16_bytes v)))

-- A pull keeps the end of the region and does not go back.
pub record Forward (b : Buffer) (r : Option ℕ × Buffer) : Type 0 where
  pub same_end : r.1.cur.end ≡ b.cur.end
  pub forward : b.cur.p ≤ r.1.cur.p

pub cursor_pull_u16-Forward : (b : Buffer) → Forward b (cursor_pull_u16 b)
unfolding cursor_pull_u16 cursor_pull
cursor_pull_u16-Forward b = elim (Bool-cases (ltb b.cur.end (b.cur.p + 2))) [
  | inl short ↦ rw (short, pulled_u16) (record { same_end = refl; forward = omega arith })
  | inr room ↦ rw (room, pulled_u16) (record { same_end = refl; forward = omega arith })
]
