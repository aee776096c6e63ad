-- ===== src/Tests/Cursors.antt =====
-- The integers of cursor.h at concrete inputs.
use lnsocket.Prelude.{ℕ, List, length, true, ◌+◌, ◌≤◌, ◌<◌, ◌≡◌, ◌⊎◌, refl, [], ◌∷◌, arith}
use lnsocket.Memory.{zeroed, load, update}
use lnsocket.Cursor.{Buffer, cursor_push_byte, pull_byte}
use lnsocket.Cursor.Push.{Within}
use lnsocket.Cursor.Leb.{push_varint, pull_varint, push_varint_loop, pull_varint_loop}
use lnsocket.Cursor.LebRoundTrip.{push_varint_result}
use lnsocket.Cursor.{Cursor}
use lnsocket.Cursor.Leb.{push_prefixed_str}
use lnsocket.Cursor.Copy.{Prefixed, pull_prefixed_str, pull_negative}
use lnsocket.Cursor.Prefixed.{at_text, pulled, pull-push_prefixed_str}

abbrev region : Buffer
region = record { mem = zeroed; cur = record { start = 100; p = 100; end = 110 } }

push_varint_result_example :
    let (len, w) = push_varint 300 region in
    Within region w
    × (((len ≡ 0) × (region.cur.end < region.cur.p + 5))
        ⊎ ((1 ≤ len) × (len ≤ 5) × (pull_varint (record w { cur = region.cur }) ≡ ((len, 300), w))))
push_varint_result_example = push_varint_result 300 region (omega arith) (omega arith)

-- 300 is 44 + 2 * 128.
two_groups : load (push_varint 300 region).1.mem 100 3 ≡ 172 ∷ 2 ∷ 0 ∷ []
unfolding push_varint push_varint_loop cursor_push_byte load update
two_groups = refl

-- The shift of a fifth byte leaves the 32 bits of an `int`.
fifth_byte :
    (pull_varint (record {
      mem = lnsocket.Memory.store zeroed 100 (255 ∷ 255 ∷ 255 ∷ 255 ∷ 127 ∷ []);
      cur = record { start = 100; p = 100; end = 105 };
    })).0
    ≡ (5, 4294967295)
unfolding pull_varint pull_varint_loop pull_byte update lnsocket.Memory.store
fifth_byte = refl

-- A destination of four bytes.
abbrev scratch : Cursor
scratch = record { start = 200; p = 200; end = 204 }

abbrev hey : List ℕ
hey = 104 ∷ 101 ∷ 121 ∷ []

hey_fits : (push_prefixed_str hey region).0 ≡ true
unfolding push_prefixed_str push_varint push_varint_loop cursor_push_byte
    lnsocket.Cursor.push_sized_str lnsocket.Cursor.cursor_push
hey_fits = refl

pull-push_prefixed_str_example :
    let w = (push_prefixed_str hey region).1 in
    let got = pull_prefixed_str (record { mem = w.mem; cur = region.cur; dest = scratch }) in
    let s = at_text hey region scratch in
    (((scratch.p + length hey < scratch.end)
        × (got ≡ Prefixed.string scratch.p (pulled hey (0 ∷ []) s)))
      ⊎ (((scratch.p + length hey ≡ scratch.end)
            × (got ≡ Prefixed.string scratch.p (pulled hey [] s)))
          ⊎ ((scratch.end < scratch.p + length hey) × (got ≡ Prefixed.refused s))))
    × ((pulled hey [] s).cur ≡ w.cur)
pull-push_prefixed_str_example =
    pull-push_prefixed_str hey region scratch (omega arith) (omega arith) hey_fits

-- A length of -1 passes every test.
negative_length :
    pull_prefixed_str (record {
      mem = lnsocket.Memory.store zeroed 100 (255 ∷ 255 ∷ 255 ∷ 255 ∷ 15 ∷ []);
      cur = record { start = 100; p = 100; end = 110 };
      dest = scratch;
    })
    ≡ Prefixed.overrun
unfolding pull_prefixed_str pull_negative pull_varint pull_varint_loop pull_byte update
    lnsocket.Memory.store
negative_length = refl
