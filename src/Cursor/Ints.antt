-- ===== src/Cursor/Ints.antt =====
-- An `int` that is pushed on a cursor.
use lnsocket.Prelude.{ℕ, ◌+◌, ◌-◌, ◌^◌, ◌≤◌, ◌<◌, ◌≡◌, refl, ap, ◌∙◌, true, some, arith, le→ltb}
use lnsocket.Prelude.Bytes.{join4}
use lnsocket.Memory.{load, load-store}
use lnsocket.Cursor.{Buffer, cursor_pull, cursor_top}
use lnsocket.Cursor.Push.{written, cursor_push-Pushes}
use lnsocket.Cursor.Copy.{
  int_bytes, int_value, top_int, cursor_push_int, cursor_pull_int, cursor_top_int,
}

int_round : (i : ℕ) → i < 2 ^ 32 → int_value (int_bytes i) ≡ i
int_round i h = join4 i h

-- Where four bytes and one more are free, `cursor_push_int` succeeds, `cursor_top_int` gives the `int`
-- that it pushed, and `cursor_pull_int` reads it back from the same place and leaves the cursor behind it.
pub push_int_result :
    (i : ℕ) (b : Buffer)
    → i < 2 ^ 32
    → b.cur.start ≤ b.cur.p
    → b.cur.p + 4 < b.cur.end
    → let (done, w) = cursor_push_int i b in
      (done ≡ true)
      × (cursor_top_int w ≡ some i)
      × (cursor_pull_int (record w { cur = b.cur }) ≡ (some i, w))
unfolding cursor_push_int cursor_top_int cursor_top cursor_pull_int cursor_pull
push_int_result i b small ok room =
    let l : load (written b (int_bytes i)).mem b.cur.p 4 ≡ int_bytes i =
      load-store b.mem b.cur.p (int_bytes i) in
    let w : Buffer = written b (int_bytes i) in
    let back : b.cur.p + 4 - 4 ≡ b.cur.p = omega arith in
    let top : cursor_top 4 w.cur ≡ some b.cur.p =
      rw (le→ltb (b.cur.p + 4) (b.cur.start + 4) (omega arith), back) refl in
    let top_int_of : cursor_top_int w ≡ some i =
      ap (top_int w.mem) top
      ∙ ap (λ bytes. some (int_value bytes)) l
      ∙ ap some (int_round i small) in
    rw ((cursor_push-Pushes (int_bytes i)).fits b (omega arith)) (
      refl,
      top_int_of,
      rw (le→ltb b.cur.end (b.cur.p + 4) (omega arith), l)
          (ap (λ (v : ℕ). (some v, written b (int_bytes i))) (int_round i small)),
    )
