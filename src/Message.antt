-- ===== src/Message.antt =====
-- The message builders of lnsocket.c and commando.c: each writes a message to `buf`, `buflen` bytes
-- at most, and returns its length, or 0 where it does not fit. A struct tlv carries the bytes that
-- its pointer `value` leads to.
pub mod Layout
pub mod PingPong
pub mod Init
use lnsocket.Prelude.{
  ℕ, zero, suc, ◌+◌, ◌-◌, ◌%◌, ◌^◌, Bool, true, false, Option, none, some, List, [], ◌∷◌, ltb, leb,
  if◌then◌else◌, length, take, replicate,
}
use lnsocket.Memory.{Memory, Ptr, store, load}
use lnsocket.Cursor.{
  Cursor, Buffer, make_cursor, cursor_push, cursor_push_byte, cursor_push_u16, cursor_pull_u16,
  ◌&&>◌,
}
use lnsocket.Bigsize.{cursor_push_bigsize}

-- enum peer_wire, the types that the C code uses.
abbrev pub wire_init : ℕ
wire_init = 16

abbrev pub wire_ping : ℕ
wire_ping = 18

abbrev pub wire_pong : ℕ
wire_pong = 19

-- `value` is the `length` bytes that the pointer leads to; their number is below 2 ^ 31, since it is
-- passed on as an `int`.
pub record Tlv : Type 0 where
  pub type : ℕ
  pub value : List ℕ

-- A cursor over `buf`.
abbrev pub over : Memory → Ptr → ℕ → Buffer
unfolding make_cursor
over m buf buflen = record { mem = m; cur = make_cursor buf (buf + buflen) }

-- `msg.p - msg.start`, or 0, and the memory.
abbrev pub message_length : Bool × Buffer → ℕ × Memory
message_length (true, b) = (b.cur.p - b.cur.start, b.mem)
message_length (false, b) = (0, b.mem)

unfoldable pub cursor_push_tlv : Tlv → Buffer → Bool × Buffer
cursor_push_tlv tlv =
    cursor_push_bigsize tlv.type
    &&> cursor_push_bigsize (length tlv.value)
    &&> cursor_push tlv.value

unfoldable pub cursor_push_tlvs : List Tlv → Buffer → Bool × Buffer
cursor_push_tlvs [] b = (true, b)
cursor_push_tlvs (tlv ∷ tlvs) b = (cursor_push_tlv tlv &&> cursor_push_tlvs tlvs) b

-- The loop over the block ids, 32 bytes each.
unfoldable pub push_blockids : List (List ℕ) → Buffer → Bool × Buffer
push_blockids [] b = (true, b)
push_blockids (id ∷ ids) b = (cursor_push (take 32 id) &&> push_blockids ids) b

network_tlv : Ptr → Tlv → Bool × Buffer → Bool × Option Tlv × Memory
network_tlv buf out (false, b) =
    (false, some (record { type = 1; value = load b.mem buf (length out.value) }), b.mem)
network_tlv buf out (true, b) =
    let n = b.cur.p - b.cur.start in
    (true, some (record { type = 1; value = load b.mem buf n }), b.mem)

-- `none` for `tlv_out` is the null pointer. Where it fails, `length` stays as it was.
unfoldable pub lnsocket_make_network_tlv :
    Memory → Ptr → ℕ → List (List ℕ) → Option Tlv → Bool × Option Tlv × Memory
unfolding push_blockids network_tlv
lnsocket_make_network_tlv m buf buflen blockids none = (false, none, m)
lnsocket_make_network_tlv m buf buflen blockids (some out) =
    network_tlv buf out (push_blockids blockids (over m buf buflen))

-- The check of the room, the `memset` and the step behind the zeros.
unfoldable pub pong_zeros : ℕ → Buffer → Bool × Buffer
pong_zeros n b = if ltb b.cur.end (b.cur.p + n) then (false, b) else (
  true,
  record { mem = store b.mem b.cur.p (replicate n 0); cur = record b.cur { p = b.cur.p + n } },
)

unfoldable pub lnsocket_make_pong_msg : Memory → Ptr → ℕ → ℕ → ℕ × Memory
unfolding pong_zeros
lnsocket_make_pong_msg m buf buflen num_pong_bytes =
    let n = if leb num_pong_bytes 4 then 0 else num_pong_bytes - 4 in
    message_length
      ((cursor_push_u16 wire_pong &&> cursor_push_u16 n &&> pong_zeros n) (over m buf buflen))

unfoldable pub lnsocket_decode_ping_payload : Memory → Ptr → ℕ → Option ℕ
lnsocket_decode_ping_payload m payload payload_len =
    (cursor_pull_u16 (over m payload payload_len)).0

pong_for : Memory → Ptr → ℕ → Option ℕ → ℕ × Memory
pong_for m buf buflen none = (0, m)
pong_for m buf buflen (some pong_bytes) = lnsocket_make_pong_msg m buf buflen pong_bytes

unfoldable pub lnsocket_make_pong_from_ping : Memory → Ptr → ℕ → Ptr → ℕ → ℕ × Memory
unfolding pong_for
lnsocket_make_pong_from_ping m buf buflen ping ping_len =
    pong_for m buf buflen (lnsocket_decode_ping_payload m ping ping_len)

-- The loop over the ignored bytes.
unfoldable pub push_zeros : ℕ → Buffer → Bool × Buffer
push_zeros zero b = (true, b)
push_zeros (suc n) b = (cursor_push_byte 0 &&> push_zeros n) b

unfoldable pub lnsocket_make_ping_msg : Memory → Ptr → ℕ → ℕ → ℕ → ℕ × Memory
unfolding push_zeros
lnsocket_make_ping_msg m buf buflen num_pong_bytes ignored_bytes = message_length (
    (cursor_push_u16 wire_ping
        &&> cursor_push_u16 num_pong_bytes
        &&> cursor_push_u16 ignored_bytes
        &&> push_zeros ignored_bytes)
      (over m buf buflen))

-- The answer, and `*outlen` if it was assigned; a u16, so it wraps.
init_length : Bool × Buffer → Option ℕ × Memory
init_length (true, b) = (some ((b.cur.p - b.cur.start) % 2 ^ 16), b.mem)
init_length (false, b) = (none, b.mem)

-- `globalfeatures` and `features` are the `gflen` and `flen` bytes at the pointers.
unfoldable pub lnsocket_make_init_msg :
    Memory → Ptr → ℕ → List ℕ → List ℕ → List Tlv → Option ℕ × Memory
unfolding init_length
lnsocket_make_init_msg m buf buflen globalfeatures features tlvs = init_length (
    (cursor_push_u16 wire_init
        &&> cursor_push_u16 (length globalfeatures)
        &&> cursor_push globalfeatures
        &&> cursor_push_u16 (length features)
        &&> cursor_push features
        &&> cursor_push_tlvs tlvs)
      (over m buf buflen))

unfoldable pub lnsocket_make_default_initmsg : Memory → Ptr → ℕ → ℕ × Memory
lnsocket_make_default_initmsg m buf buflen =
    let (len, m') = lnsocket_make_init_msg m buf buflen (replicate 2 0) (replicate 5 0) [] in
    (elim len [ none ↦ 0 | some n ↦ n ], m')
