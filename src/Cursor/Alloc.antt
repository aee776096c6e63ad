-- ===== src/Cursor/Alloc.antt =====
-- Allocation from the region of a cursor.
use lnsocket.Prelude.{
  ℕ, ◌+◌, ◌≤◌, ◌<◌, ◌≡◌, ◌⊎◌, inl, inr, refl, none, some, arith, length, length-replicate,
  replicate, le→ltb, lt→ltb,
}
use native.Mathlib.Decide.{dec_lt}
use lnsocket.Memory.{Ptr, store, load, load-store, store_below, store_above}
use lnsocket.Cursor.{Buffer, cursor_slice}

-- What `cursor_slice` leaves where the `size` bytes fit: they are zeroed.
abbrev pub after_slice : Buffer → ℕ → Buffer
after_slice b size = record {
  mem = store b.mem b.cur.p (replicate size 0);
  cur = record b.cur { p = b.cur.p + size };
}

pub slice-after_slice :
    (b : Buffer) (size : ℕ)
    → b.cur.p + size ≤ b.cur.end
    → cursor_slice b size
      ≡ (some (record { start = b.cur.p; p = b.cur.p; end = b.cur.p + size }), after_slice b size)
unfolding cursor_slice
slice-after_slice b size room = rw (le→ltb b.cur.end (b.cur.p + size) room)

-- Where `size` bytes fit, `cursor_slice` gives a fresh cursor over exactly the next `size` bytes,
-- these are zero then, the cursor that it allocates from stands behind them and keeps its ends, and
-- a byte outside them is what it was.
pub cursor_slice_fits :
    (b : Buffer) (size : ℕ) (x : Ptr)
    → b.cur.p + size ≤ b.cur.end
    → (x < b.cur.p) ⊎ (b.cur.p + size ≤ x)
    → let (c, w) = cursor_slice b size in
      (c ≡ some (record { start = b.cur.p; p = b.cur.p; end = b.cur.p + size }))
      × (load w.mem b.cur.p size ≡ replicate size 0)
      × (w.cur ≡ record b.cur { p = b.cur.p + size })
      × (w.mem x ≡ b.mem x)
cursor_slice_fits b size x room outside =
    let n : length (replicate {A = ℕ} size 0) ≡ size = length-replicate size 0 in
    rw (slice-after_slice b size room) (
      refl,
      rw n at (load-store b.mem b.cur.p (replicate size 0)),
      refl,
      elim outside [
        | inl below ↦ store_below b.mem b.cur.p (replicate size 0) x below
        | inr above ↦ store_above b.mem b.cur.p (replicate size 0) x (omega arith)
      ],
    )

-- Where `size` bytes do not fit, `cursor_slice` answers 0 and changes nothing.
pub cursor_slice_full :
    (b : Buffer) (size : ℕ) → b.cur.end < b.cur.p + size → cursor_slice b size ≡ (none, b)
unfolding cursor_slice
cursor_slice_full b size h = rw (lt→ltb b.cur.end (b.cur.p + size) h)

-- Where `size` bytes fit, `cursor_slice` gives a fresh cursor over exactly the next `size` bytes,
-- these are zero then, the cursor that it allocates from stands behind them and keeps its ends, and
-- a byte outside them is what it was; where they do not fit, it answers 0 and changes nothing.
pub cursor_slice_result :
    (b : Buffer) (size : ℕ) (x : Ptr)
    → ((b.cur.p + size ≤ b.cur.end)
        × ((cursor_slice b size).0
            ≡ some (record { start = b.cur.p; p = b.cur.p; end = b.cur.p + size }))
        × (load (cursor_slice b size).1.mem b.cur.p size ≡ replicate size 0)
        × ((cursor_slice b size).1.cur ≡ record b.cur { p = b.cur.p + size })
        × (((b.cur.p ≤ x) × (x < b.cur.p + size)) ⊎ ((cursor_slice b size).1.mem x ≡ b.mem x)))
      ⊎ ((b.cur.end < b.cur.p + size) × (cursor_slice b size ≡ (none, b)))
cursor_slice_result b size x = elim (dec_lt b.cur.end (b.cur.p + size)) [
  | yes full ↦ inr (full, cursor_slice_full b size full)
  | no room ↦
      let fits : b.cur.p + size ≤ b.cur.end = omega arith in
      let n : length (replicate {A = ℕ} size 0) ≡ size = length-replicate size 0 in
      let at_x : ((b.cur.p ≤ x) × (x < b.cur.p + size))
          ⊎ ((cursor_slice b size).1.mem x ≡ b.mem x) =
        elim (dec_lt x b.cur.p) [
          | yes below ↦ inr (cursor_slice_fits b size x fits (inl below)).3
          | no from ↦ elim (dec_lt x (b.cur.p + size)) [
            | yes within ↦ inl (omega arith, within)
            | no above ↦ inr (cursor_slice_fits b size x fits (inr (omega arith))).3
          ]
        ] in
      let outside : Ptr = b.cur.p + size in
      let r = cursor_slice_fits b size outside fits (inr (omega arith)) in
      inl (fits, r.0, r.1, r.2, at_x)
]
