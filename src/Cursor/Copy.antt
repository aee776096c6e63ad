-- ===== src/Cursor/Copy.antt =====
-- What cursor.h reads from one cursor into the region of another, and its `int`s as bytes. The two
-- cursors walk one memory, and the bytes that are copied do not overlap their new place. An `int` is
-- given as its 32 bits, and its bytes in memory are those of a little-endian machine.
use lnsocket.Prelude.{
  ℕ, ◌+◌, ◌-◌, ◌*◌, ◌^◌, Bool, Option, none, some, List, [], ◌∷◌, ltb, ◌==◌, if◌then◌else◌,
}
use lnsocket.Prelude.Bytes.{byte_of}
use lnsocket.Memory.{Memory, Ptr, store, load}
use lnsocket.Cursor.{
  Cursor, Buffer, make_cursor, cursor_push, cursor_push_byte, cursor_pull, cursor_top,
}
use lnsocket.Cursor.Leb.{pull_varint}

-- A cursor over elements of one size.
pub record Array : Type 0 where
  pub cur : Cursor
  pub elem_size : ℕ

unfoldable pub make_array : Ptr → Ptr → ℕ → Array
make_array start end elem_size = record { cur = make_cursor start end; elem_size = elem_size }

abbrev pub int_bytes : ℕ → List ℕ
int_bytes i = byte_of 0 i ∷ byte_of 1 i ∷ byte_of 2 i ∷ byte_of 3 i ∷ []

abbrev pub int_value : List ℕ → ℕ
int_value (a ∷ b ∷ c ∷ d ∷ _) = d * 2 ^ 24 + c * 2 ^ 16 + b * 2 ^ 8 + a
int_value _ = 0

unfoldable pub cursor_push_int : ℕ → Buffer → Bool × Buffer
cursor_push_int i = cursor_push (int_bytes i)

abbrev pub pulled_int : Option (List ℕ) × Buffer → Option ℕ × Buffer
pulled_int (none, b) = (none, b)
pulled_int (some bytes, b) = (some (int_value bytes), b)

unfoldable pub cursor_pull_int : Buffer → Option ℕ × Buffer
cursor_pull_int b = pulled_int (cursor_pull 4 b)

abbrev pub top_int : Memory → Option Ptr → Option ℕ
top_int m none = none
top_int m (some p) = some (int_value (load m p 4))

unfoldable pub cursor_top_int : Buffer → Option ℕ
cursor_top_int b = top_int b.mem (cursor_top 4 b.cur)

-- The cursor that is read, `dest`, and the memory of both.
pub record Copying : Type 0 where
  pub mem : Memory
  pub cur : Cursor
  pub dest : Cursor

-- What `pull_data_into_cursor` answers: 0 behind the line "not enough room in dest buffer", 0 alone,
-- or 1 with `*data`.
pub data Pulled : Type 0 where
  no_room : Pulled
  too_short : Pulled
  data_at : Ptr → Pulled

-- `cursor_pull` copies to where `dest` stands.
abbrev pub copied : ℕ → Copying → Option (List ℕ) × Buffer → Pulled × Copying
copied len s (none, b) = (Pulled.too_short, s)
copied len s (some bytes, b) = (
  Pulled.data_at s.dest.p,
  record {
    mem = store s.mem s.dest.p bytes;
    cur = b.cur;
    dest = record s.dest { p = s.dest.p + len };
  },
)

unfoldable pub pull_data_into_cursor : ℕ → Copying → Pulled × Copying
pull_data_into_cursor len s =
    if ltb s.dest.end (s.dest.p + len)
    then (Pulled.no_room, s)
    else copied len s (cursor_pull len (record { mem = s.mem; cur = s.cur }))

-- What `pull_prefixed_str` does: it answers 0, it answers 1 with `*str`, or it has `memcpy` copy a
-- negative number of bytes, which is a huge one as `size_t`.
pub data Prefixed : Type 0 where
  refused : Copying → Prefixed
  string : Ptr → Copying → Prefixed
  overrun : Prefixed

-- The terminator behind the text; whether it had room is not looked at.
abbrev pub terminated : Pulled × Copying → Prefixed
terminated (data_at str, s) =
    let w = (cursor_push_byte 0 (record { mem = s.mem; cur = s.dest })).1 in
    Prefixed.string str (record { mem = w.mem; cur = s.cur; dest = w.cur })
terminated (_, s) = Prefixed.refused s

unfoldable pub pull_text : ℕ → Copying → Prefixed
pull_text len s =
    if ltb s.dest.end (s.dest.p + len)
    then Prefixed.refused s
    else terminated (pull_data_into_cursor len s)

-- The same where the length is `m` below 0.
unfoldable pub pull_negative : ℕ → Copying → Prefixed
pull_negative m s =
    if ltb (s.dest.end + m) s.dest.p
    then Prefixed.refused s
    else if ltb (s.cur.end + m) s.cur.p
    then Prefixed.refused s
    else Prefixed.overrun

abbrev pub pull_behind_length : (ℕ × ℕ) × Buffer → Copying → Prefixed
pull_behind_length ((ok, len), b) s =
    let s' = record s { cur = b.cur } in
    if ok == 0
    then Prefixed.refused s'
    else if ltb len (2 ^ 31)
    then pull_text len s'
    else pull_negative (2 ^ 32 - len) s'

unfoldable pub pull_prefixed_str : Copying → Prefixed
pull_prefixed_str s = pull_behind_length (pull_varint (record { mem = s.mem; cur = s.cur })) s
