-- ===== src/Cursor/LebRoundTrip.antt =====
-- `push_varint` and `pull_varint` of cursor.h together.
use lnsocket.Prelude.{ℕ, ◌+◌, ◌^◌, ◌≤◌, ◌<◌, ◌≡◌, ◌⊎◌, inl, inr, arith, length}
use native.Mathlib.Decide.{dec_le}
use lnsocket.Memory.{load-store}
use lnsocket.Cursor.{Buffer}
use lnsocket.Cursor.Push.{written, Within}
use lnsocket.Cursor.Leb.{push_varint, pull_varint}
use lnsocket.Cursor.LebPush.{length-groups, push_varint_loop-safe}
use lnsocket.Cursor.LebPull.{varint_bytes, push_varint-fits, push_varint-full, pull_varint-load}

-- `push_varint` of an `int` that is not negative keeps to the free part of the region. It answers 0
-- where its bytes do not fit, which takes fewer than five free bytes; otherwise it answers their
-- number, from 1 to 5, and `pull_varint` reads them back from the same place: it answers
-- the same number, stores `n`, and leaves the cursor where `push_varint` did.
pub push_varint_result :
    (n : ℕ) (b : Buffer)
    → n < 2 ^ 31
    → b.cur.p ≤ b.cur.end
    → let (len, w) = push_varint n b in
      Within b w
      × (((len ≡ 0) × (b.cur.end < b.cur.p + 5))
          ⊎ ((1 ≤ len) × (len ≤ 5) × (pull_varint (record w { cur = b.cur }) ≡ ((len, n), w))))
unfolding push_varint
push_varint_result n b small ok =
    let (lo, hi) = length-groups 4 n in
    (
      push_varint_loop-safe 5 n 0 b ok,
      elim (dec_le (b.cur.p + length (varint_bytes n)) b.cur.end) [
        | no short ↦ inl (push_varint-full n b small ok (omega arith), omega (arith, hi))
        | yes room ↦ rw (push_varint-fits n b small room) (
            inr (
              omega (arith, lo),
              omega (arith, hi),
              pull_varint-load n (record (written b (varint_bytes n)) { cur = b.cur }) small room
                  (load-store b.mem b.cur.p (varint_bytes n)),
            ))
      ],
    )
