-- ===== src/Errors.antt =====
-- error.c and error.h: the log of error messages, zero-terminated strings one behind another. The
-- message is the text that `vsprintf` wrote to the static buffer of 512 bytes, without a bound: what a
-- text does that does not fit there with its terminator is a parameter.
pub mod Backtrace
use lnsocket.Prelude.{
  ℕ, zero, suc, ◌-◌, Bool, true, false, Option, none, some, List, [], ◌∷◌, ltb, if◌then◌else◌,
  length,
}
use lnsocket.Memory.{Memory, Ptr}
use lnsocket.Cursor.{Cursor, Buffer, copy_cursor, cursor_push_c_str, cursor_pull_c_str}

-- The calls of `note_error`, by their format strings. The arguments of a call (lengths, the text of
-- `errno`) are not told apart.
pub data Note : Type 0 where
  failed_reading_header : Note
  failed_header_decrypt : Note
  out_of_memory : Note
  out_of_memory_sizes : Note
  failed_reading_body : Note
  error_decrypting_body : Note
  could_not_write_type : Note
  payload_too_big : Note
  could_not_read_msgtype : Note
  recv_buffer_overflow : Note
  not_connected : Note
  encrypt_failed : Note
  write_failed : Note
  act3_ecdh_failed : Note
  unrecognized_version : Note
  failed_parse_remote : Note
  act2_ecdh_failed : Note
  handshake_decrypt_failed : Note
  act1_ecdh_failed : Note
  act_two_read_failed : Note
  initial_send_failed : Note
  key_not_initialized : Note
  failed_parse_node_id : Note
  failed_convert_node_id : Note
  failed_build_act1 : Note
  socket_failed : Note
  nonblocking_failed : Note
  proxy_connect_failed : Note
  address_failed : Note
  blocking_failed : Note
  select_error : Note
  connection_timeout : Note
  proxy_handshake_failed : Note
  proxy_request_failed : Note
  proxy_header_failed : Note
  proxy_authentication : Note
  proxy_buffer_failed : Note
  proxy_reply_failed : Note
  proxy_connection_failed : Note
  proxy_ipv6 : Note
  proxy_not_ipv4 : Note

pub record Errors : Type 0 where
  pub cur : Cursor
  pub enabled : Bool

unfoldable pub cursor_push_error : List ℕ → Buffer → Bool × Buffer
cursor_push_error msg = cursor_push_c_str msg

unfoldable pub cursor_pull_error : Buffer → Option (List ℕ) × Buffer
cursor_pull_error = cursor_pull_c_str

-- The static buffer that `vsprintf` writes to.
abbrev pub fmt_buf_size : ℕ
fmt_buf_size = 512

-- What is left of the memory and the log where a text overruns the static buffer, of which C says
-- nothing.
abbrev pub Overrun : Type 0
Overrun = List ℕ → Memory → Errors → Memory × Errors

-- `msg` is the text that `vsprintf` makes. The memory and the log afterwards; the answer is always 0.
-- A message that does not fit the log is reported on `stderr` only.
unfoldable pub note_error : Overrun → List ℕ → Memory → Errors → Memory × Errors
unfolding cursor_push_error
note_error overrun msg m errs =
    let b = (cursor_push_error msg (record { mem = m; cur = errs.cur })).1 in
    if errs.enabled
    then if ltb (length msg) fmt_buf_size
      then (b.mem, record errs { cur = b.cur })
      else overrun msg m errs
    else (m, errs)

-- What is printed, a line each; `none` is the complaint that an error could not be read, which
-- ends the trace.
print_line : Option (List ℕ) → List (Option (List ℕ)) → List (Option (List ℕ))
print_line none rest = none ∷ []
print_line (some msg) rest = some msg ∷ rest

-- The loop goes on while `errs.p` is below `limit`.
backtrace_loop : ℕ → Ptr → Buffer → List (Option (List ℕ))
unfolding print_line
backtrace_loop zero limit b = []
backtrace_loop (suc fuel) limit b =
    let line = cursor_pull_error b in
    let printed = print_line line.0 (backtrace_loop fuel limit line.1) in
    if ltb b.cur.p limit then printed else []

-- Each round takes a byte at least.
unfoldable pub print_error_backtrace : Memory → Errors → List (Option (List ℕ))
unfolding backtrace_loop cursor_pull_error
print_error_backtrace m errs =
    let c = copy_cursor errs.cur in
    backtrace_loop (errs.cur.p - errs.cur.start) errs.cur.p
      (record { mem = m; cur = record c { p = c.start } })
