-- ===== src/Session.antt =====
-- The life of a socket in lnsocket.c: its creation, its keys, and the two small dialogues of
-- `lnsocket_perform_init` and `lnsocket_pong`. A buffer on the stack is given by its address.
pub mod Creation
pub mod Dialogue
pub mod Untouched
use lnsocket.Prelude.{
  ℕ, ◌+◌, ◌-◌, ◌*◌, ◌%◌, ◌^◌, ◌&&◌, Bool, true, false, Option, none, some, List, [], ◌∷◌, ◌++◌,
  ◌==◌, if◌then◌else◌, replicate,
}
use lnsocket.Memory.{Memory, Ptr}
use lnsocket.Cursor.{Cursor, Buffer, make_cursor, cursor_alloc, cursor_slice}
use lnsocket.Primitives.{Secp, Externals}
use lnsocket.Crypto.{Secret}
use lnsocket.Net.{Net}
use lnsocket.Errors.{print_error_backtrace}
use lnsocket.State.{Keypair, ActOne, Side, Handshake, Lnsocket}
use lnsocket.Io.{World, Io, and_then, ◌>>=◌, ◌>>◌}
use lnsocket.Message.{lnsocket_make_default_initmsg, lnsocket_make_pong_from_ping}
use lnsocket.Receive.{decrypt_header, lnsocket_read}
use lnsocket.Send.{lnsocket_write}

abbrev pub msgbuf_mem : ℕ
msgbuf_mem = 65536 * 2

abbrev pub error_mem : ℕ
error_mem = 4096

unfoldable pub is_zero : List ℕ → Bool
is_zero [] = true
is_zero (b ∷ bs) = if b == 0 then is_zero bs else false

-- The fields that the zeros of `cursor_alloc` leave.
abbrev pub zero_key : Keypair
zero_key = record { public = replicate 64 0; priv = replicate 32 0 }

abbrev pub zero_act : ActOne
zero_act = record { v = 0; pubkey = replicate 33 0; tag = replicate 16 0 }

abbrev pub zero_handshake : Handshake
zero_handshake = record {
  ck = replicate 32 0;
  temp_k = replicate 32 0;
  h = replicate 32 0;
  e = zero_key;
  ss = replicate 32 0;
  re = replicate 64 0;
  act1 = zero_act;
  act2 = zero_act;
  act3 = record { v = 0; ciphertext = replicate 49 0; tag = replicate 16 0 };
  their_id = replicate 64 0;
  side = Side.initiator;
}

-- What is left to do when `mem` has given the struct, the message buffer and the error buffer.
unfoldable pub socket_of : Cursor → Option Cursor × Buffer → Option Lnsocket
socket_of msgbuf (none, b) = none
socket_of msgbuf (some errs, b) = some (record {
  memory = b.mem;
  mem = b.cur;
  msgbuf = msgbuf;
  errs = record { cur = errs; enabled = true };
  socket = 0;
  key = zero_key;
  handshake = zero_handshake;
  crypto_state = record {
    rn = 0;
    sn = 0;
    sk = replicate 32 0;
    rk = replicate 32 0;
    s_ck = replicate 32 0;
    r_ck = replicate 32 0;
  };
})

unfoldable pub with_msgbuf : Option Cursor × Buffer → Option Lnsocket
unfolding socket_of
with_msgbuf (none, b) = none
with_msgbuf (some msgbuf, b) = socket_of msgbuf (cursor_slice b error_mem)

unfoldable pub with_struct : Option Ptr × Buffer → Option Lnsocket
unfolding with_msgbuf
with_struct (none, b) = none
with_struct (some _, b) = with_msgbuf (cursor_slice b msgbuf_mem)

-- `size` is `sizeof(struct lnsocket)`, and `arena` is what `malloc` gives.
unfoldable pub lnsocket_create : ℕ → Memory → Option Ptr → Option Lnsocket
unfolding with_struct make_cursor
lnsocket_create size m none = none
lnsocket_create size m (some arena) =
    let memory = msgbuf_mem + error_mem + size in
    with_struct (cursor_alloc (record { mem = m; cur = make_cursor arena (arena + memory) }) size)

unfoldable pub lnsocket_fd : Lnsocket → ℕ
lnsocket_fd ln = ln.socket

unfoldable pub lnsocket_msgbuf : Lnsocket → Ptr
lnsocket_msgbuf ln = ln.msgbuf.start

-- The errors that go to the standard error.
unfoldable pub lnsocket_print_errors : Lnsocket → List (Option (List ℕ))
lnsocket_print_errors ln = print_error_backtrace ln.memory ln.errs

-- `key` is what `generate_key` gives.
unfoldable pub lnsocket_genkey : Keypair → Lnsocket → Lnsocket
lnsocket_genkey key ln = record ln { key = key }

unfoldable pub lnsocket_setkey : Secp → Secret → Lnsocket → Bool × Lnsocket
lnsocket_setkey c x ln = elim (c.pubkey_create x) [
  | none ↦ (false, ln)
  | some p ↦ (true, record ln { key = record { public = p; priv = x } })
]

module _ (ext : Externals) where
  -- The length that a builder gave, of which `len` keeps 16 bits, or a failure without a note.
  unfoldable pub built : ℕ × Memory → Net → Lnsocket → Option ℕ × World
  built (len, m) net ln =
      if len % 2 ^ 16 == 0
      then (none, (record ln { memory = m }, net))
      else (some (len % 2 ^ 16), (record ln { memory = m }, net))

  unfoldable pub build_pong : Ptr → Ptr → ℕ → Io ℕ
  unfolding built
  build_pong pong ping ping_len (ln, net) =
      built (lnsocket_make_pong_from_ping ln.memory pong 0xffff ping ping_len) net ln

  unfoldable pub lnsocket_pong : Ptr → Ptr → ℕ → Io (Unit {0})
  unfolding build_pong
  lnsocket_pong pong ping ping_len = do
    len ← build_pong pong ping ping_len
    lnsocket_write ext pong len

  unfoldable pub build_init : Ptr → Io ℕ
  unfolding built
  build_init msgbuf (ln, net) = built (lnsocket_make_default_initmsg ln.memory msgbuf 1024) net ln

  unfoldable pub lnsocket_perform_init : Ptr → Io (Unit {0})
  unfolding build_init
  lnsocket_perform_init msgbuf = do
    theirs ← lnsocket_read ext
    len ← build_init msgbuf
    lnsocket_write ext msgbuf len

  unfoldable pub lnsocket_decrypt_header : List ℕ → Io ℕ
  lnsocket_decrypt_header hdr = decrypt_header ext hdr
