-- ===== src/Cursor/Leb.antt =====
-- The variable-length integers of cursor.h, seven bits a byte with the lowest first, and the
-- strings with such a length before them. An `int` that is written is not negative; one that is
-- read is given as its 32 bits.
use lnsocket.Prelude.{
  ℕ, zero, suc, ◌+◌, ◌*◌, ◌/◌, ◌%◌, ◌^◌, Bool, true, false, Option, none, some, List, ltb, ◌==◌,
  if◌then◌else◌, length,
}
use lnsocket.Cursor.{Buffer, pull_byte, cursor_push_byte, push_sized_str}

-- What a round of `push_varint` does with the answer of its push: the last one ends with the number
-- of bytes, the others go on.
abbrev pub push_ends : ℕ → Bool × Buffer → ℕ × Buffer
push_ends len (true, b) = (len, b)
push_ends len (false, b) = (0, b)

abbrev pub push_continues : (Buffer → ℕ × Buffer) → Bool × Buffer → ℕ × Buffer
push_continues go (true, b) = go b
push_continues go (false, b) = (0, b)

-- The loop of `push_varint`, with `len` bytes pushed so far. An `int` that is not negative has
-- 31 bits and takes five rounds at most.
unfoldable pub push_varint_loop : ℕ → ℕ → ℕ → Buffer → ℕ × Buffer
push_varint_loop zero n len b = (0, b)
push_varint_loop (suc k) n len b =
    let rest = push_varint_loop k (n / 128) (len + 1) in
    if n / 128 == 0
    then push_ends (len + 1) (cursor_push_byte (n % 128) b)
    else push_continues rest (cursor_push_byte (128 + n % 128) b)

unfoldable pub push_varint : ℕ → Buffer → ℕ × Buffer
unfolding push_varint_loop
push_varint n b = push_varint_loop 5 n 0 b

-- What a round of `pull_varint` does with the byte: the answer, `*n` and the buffer. The new
-- bits stand above those of `*n`, so `|=` adds them; a bit that the shift moves out of the 32 is lost.
abbrev pub pull_round :
    (ℕ → Buffer → (ℕ × ℕ) × Buffer) → ℕ → ℕ → Option ℕ × Buffer → (ℕ × ℕ) × Buffer
pull_round rest i n (none, b) = ((0, n), b)
pull_round rest i n (some byte, b) =
    let m = n + (byte % 128 * 2 ^ (i * 7)) % 2 ^ 32 in
    if ltb byte 128 then ((i + 1, m), b) else rest m b

-- The loop of `pull_varint` in round `i`, with the rounds that are left.
unfoldable pub pull_varint_loop : ℕ → ℕ → ℕ → Buffer → (ℕ × ℕ) × Buffer
pull_varint_loop zero i n b = ((0, n), b)
pull_varint_loop (suc k) i n b = pull_round (pull_varint_loop k (i + 1)) i n (pull_byte b)

unfoldable pub pull_varint : Buffer → (ℕ × ℕ) × Buffer
unfolding pull_varint_loop
pull_varint b = pull_varint_loop 5 0 0 b

unfoldable pub push_prefixed_str : List ℕ → Buffer → Bool × Buffer
push_prefixed_str str b =
    let (len, w) = push_varint (length str) b in
    if len == 0 then (false, w) else push_sized_str str w
