-- ===== src/Cursor.antt =====
-- cursor.h and the cursor functions of endian.h: a cursor walks a region of memory from `start`
-- to `end`, and `p` is where it stands. A length argument of type `int` is one that is not
-- negative, and address arithmetic does not wrap. What an operation reads through a pointer
-- into an object of its own (a local variable, a string literal) is given as the bytes there.
pub mod Alloc
pub mod Push
pub mod Pull
pub mod Leb
pub mod LebPush
pub mod LebPull
pub mod LebRoundTrip
pub mod Copy
pub mod Ints
pub mod Prefixed
pub mod Print
use lnsocket.Prelude.{
  ℕ, zero, suc, ◌+◌, ◌-◌, ◌*◌, ◌/◌, Bool, true, false, Option, none, some, List, [], ◌∷◌, ltb, leb,
  ◌==◌, if◌then◌else◌, length, replicate,
}
use lnsocket.Prelude.Bytes.{be16_bytes, be16_value, be64_bytes}
use lnsocket.Memory.{Memory, Ptr, update, store, load}

pub record Cursor : Type 0 where
  pub start : Ptr
  pub p : Ptr
  pub end : Ptr

-- A cursor with the memory that it walks.
pub record Buffer : Type 0 where
  pub mem : Memory
  pub cur : Cursor

unfoldable pub reset_cursor : Cursor → Cursor
reset_cursor c = record c { p = c.start }

unfoldable pub wipe_cursor : Buffer → Buffer
unfolding reset_cursor
wipe_cursor b = record {
  mem = store b.mem b.cur.start (replicate (b.cur.end - b.cur.start) 0);
  cur = reset_cursor b.cur;
}

unfoldable pub make_cursor : Ptr → Ptr → Cursor
make_cursor start end = record { start = start; p = start; end = end }

unfoldable pub copy_cursor : Cursor → Cursor
copy_cursor src = record { start = src.start; p = src.p; end = src.end }

unfoldable pub cursor_eof : Cursor → Bool
cursor_eof c = c.p == c.end

-- `none` is the null pointer.
unfoldable pub cursor_malloc : Cursor → ℕ → Option Ptr × Cursor
cursor_malloc mem size =
    if ltb mem.end (mem.p + size)
    then (none, mem)
    else (some mem.p, record mem { p = mem.p + size })

-- The region that `cursor_malloc` gave is zeroed.
cleared : Memory → ℕ → Option Ptr × Cursor → Option Ptr × Buffer
cleared m size (none, c) = (none, record { mem = m; cur = c })
cleared m size (some ret, c) = (some ret, record { mem = store m ret (replicate size 0); cur = c })

unfoldable pub cursor_alloc : Buffer → ℕ → Option Ptr × Buffer
unfolding cursor_malloc cleared
cursor_alloc b size = cleared b.mem size (cursor_malloc b.cur size)

sliced : Option Ptr × Buffer → Option Cursor × Buffer
unfolding make_cursor
sliced (none, b) = (none, b)
sliced (some p, b) = (some (make_cursor p b.cur.p), b)

-- `none` is the answer 0, with the slice not written.
unfoldable pub cursor_slice : Buffer → ℕ → Option Cursor × Buffer
unfolding cursor_alloc sliced
cursor_slice b size = sliced (cursor_alloc b size)

unfoldable pub pull_byte : Buffer → Option ℕ × Buffer
pull_byte b =
    if ltb b.cur.end (b.cur.p + 1)
    then (none, b)
    else (some (b.mem b.cur.p), record b { cur = record b.cur { p = b.cur.p + 1 } })

-- The loop of `cursor_pull_c_str` over the `n` bytes that are left: the text before the zero
-- byte, or `none`, and where `p` ends.
pull_c_str_loop : Memory → Ptr → ℕ → Option (List ℕ) × Ptr
pull_c_str_loop m p zero = (none, p)
pull_c_str_loop m p (suc n) =
    let rest = pull_c_str_loop m (suc p) n in
    if m p == 0
    then (some [], suc p)
    else (elim (rest.0) [ none ↦ none | some str ↦ some (m p ∷ str) ], rest.1)

unfoldable pub cursor_pull_c_str : Buffer → Option (List ℕ) × Buffer
unfolding pull_c_str_loop
cursor_pull_c_str b =
    let (str, p) = pull_c_str_loop b.mem b.cur.p (b.cur.end - b.cur.p) in
    (str, record b { cur = record b.cur { p = p } })

unfoldable pub cursor_push_byte : ℕ → Buffer → Bool × Buffer
cursor_push_byte c b =
    if ltb b.cur.end (b.cur.p + 1)
    then (false, b)
    else (true, record { mem = update b.mem b.cur.p c; cur = record b.cur { p = b.cur.p + 1 } })

unfoldable pub cursor_pull : ℕ → Buffer → Option (List ℕ) × Buffer
cursor_pull len b =
    if ltb b.cur.end (b.cur.p + len)
    then (none, b)
    else (some (load b.mem b.cur.p len), record b { cur = record b.cur { p = b.cur.p + len } })

-- `size * n` bytes are taken back.
unfoldable pub cursor_dropn : ℕ → ℕ → Cursor → Bool × Cursor
cursor_dropn size n c =
    if n == 0
    then (true, c)
    else if ltb c.p (c.start + size * n)
    then (false, c)
    else (true, record c { p = c.p - size * n })

unfoldable pub cursor_drop : ℕ → Cursor → Bool × Cursor
unfolding cursor_dropn
cursor_drop size = cursor_dropn size 1

unfoldable pub cursor_topn : ℕ → ℕ → Cursor → Option Ptr
cursor_topn len n c = if ltb c.p (c.start + len * (n + 1)) then none else some (c.p - len * (n + 1))

unfoldable pub cursor_top : ℕ → Cursor → Option Ptr
cursor_top len c = if ltb c.p (c.start + len) then none else some (c.p - len)

unfoldable pub cursor_pop : ℕ → Buffer → Option (List ℕ) × Buffer
cursor_pop len b = if ltb b.cur.p (b.cur.start + len) then (none, b) else (
  some (load b.mem (b.cur.p - len) len),
  record b { cur = record b.cur { p = b.cur.p - len } },
)

-- `bytes` are those at `data`. Where `data` is `p` itself the source copies nothing, which is
-- what a copy of these bytes onto themselves does.
unfoldable pub cursor_push : List ℕ → Buffer → Bool × Buffer
cursor_push bytes b = if leb b.cur.end (b.cur.p + length bytes) then (false, b) else (
  true,
  record { mem = store b.mem b.cur.p bytes; cur = record b.cur { p = b.cur.p + length bytes } },
)

unfoldable pub cursor_count : ℕ → Cursor → ℕ
cursor_count elem_size c = (c.p - c.start) / elem_size

unfoldable pub index_cursor : ℕ → ℕ → Cursor → Option Ptr
index_cursor index elem_size c =
    if leb c.end (c.start + elem_size * index) then none else some (c.start + elem_size * index)

-- The pushes of a string give its bytes before the terminating zero.
unfoldable pub push_sized_str : List ℕ → Buffer → Bool × Buffer
push_sized_str str = cursor_push str

unfoldable pub cursor_push_str : List ℕ → Buffer → Bool × Buffer
cursor_push_str str = cursor_push str

-- `f && g` of C, and `if (!f) return 0; g`: what `f` did before it failed stays done.
abbrev pub and_then : Bool × Buffer → (Buffer → Bool × Buffer) → Bool × Buffer
and_then (true, b) g = g b
and_then (false, b) g = (false, b)

infixr 35 ◌&&>◌
unfoldable pub ◌&&>◌ : (Buffer → Bool × Buffer) → (Buffer → Bool × Buffer) → Buffer → Bool × Buffer
◌&&>◌ f g b = and_then (f b) g

unfoldable pub cursor_push_c_str : List ℕ → Buffer → Bool × Buffer
cursor_push_c_str str = cursor_push_str str &&> cursor_push_byte 0

unfoldable pub cursor_remaining_capacity : Cursor → ℕ
cursor_remaining_capacity c = c.end - c.p

unfoldable pub cursor_push_u16 : ℕ → Buffer → Bool × Buffer
cursor_push_u16 i = cursor_push (be16_bytes i)

-- The value of the two bytes that were read.
abbrev be16_to_cpu : List ℕ → ℕ
be16_to_cpu (hi ∷ lo ∷ _) = be16_value hi lo
be16_to_cpu _ = 0

pulled_u16 : Option (List ℕ) × Buffer → Option ℕ × Buffer
pulled_u16 (none, b) = (none, b)
pulled_u16 (some bytes, b) = (some (be16_to_cpu bytes), b)

unfoldable pub cursor_pull_u16 : Buffer → Option ℕ × Buffer
unfolding pulled_u16
cursor_pull_u16 b = pulled_u16 (cursor_pull 2 b)

unfoldable pub cursor_push_u64 : ℕ → Buffer → Bool × Buffer
cursor_push_u64 v = cursor_push (be64_bytes v)
