-- ===== src/Rpc.antt =====
-- lnrpc.c: the command that makes a remote procedure call over commando and prints the reply. What
-- goes to the standard error and the release of the socket at the end are left out.
pub mod Replies
pub mod Whole
pub mod Ending
use lnsocket.Prelude.{
  ℕ, ◌+◌, ◌-◌, ◌%◌, ◌^◌, Bool, true, false, Option, none, some, List, [], ◌∷◌, ◌++◌, ◌==◌,
  if◌then◌else◌, ltb, length,
}
use lnsocket.Memory.{Memory, Ptr, load}
use lnsocket.Primitives.{Externals}
use lnsocket.Net.{Net}
use lnsocket.State.{Keypair, Lnsocket}
use lnsocket.Io.{World, Io, and_then, ◌>>=◌, ◌>>◌}
use lnsocket.Message.{wire_ping}
use lnsocket.Commando.{commando_make_rpc_msg}
use lnsocket.Receive.{lnsocket_recv}
use lnsocket.Send.{lnsocket_write}
use lnsocket.Session.{built, lnsocket_genkey, lnsocket_perform_init, lnsocket_pong}
use lnsocket.Connect.{System, Selected, select_failed, timed_out, ready, lnsocket_connect}

abbrev pub commando_reply_continues : ℕ
commando_reply_continues = 0x594b

abbrev pub commando_reply_term : ℕ
commando_reply_term = 0x594d

-- The kinds of messages that the loop tells apart.
pub data Reply : Type 0 where
  term : Reply
  continues : Reply
  ping : Reply
  other : Reply

unfoldable pub reply_of : ℕ → Reply
reply_of msgtype =
    if msgtype == commando_reply_term
    then Reply.term
    else if msgtype == commando_reply_continues
    then Reply.continues
    else if msgtype == wire_ping
    then Reply.ping
    else Reply.other

-- A string ends at its first zero.
unfoldable pub before_zero : List ℕ → List ℕ
before_zero [] = []
before_zero (c ∷ text) = let rest = before_zero text in if c == 0 then [] else c ∷ rest

-- What is printed, the value of `ok` (`none` while the loop still waits), and the world.
pub record Outcome : Type 0 where
  pub output : List ℕ
  pub ok : Option Bool
  pub world : World

-- More output before that of the rest.
abbrev pub printing : List ℕ → Outcome → Outcome
printing text r = record { output = text ++ r.output; ok = r.ok; world = r.world }

abbrev pub stopped : List ℕ → Bool → World → Outcome
stopped text ok w = record { output = text; ok = some ok; world = w }

-- `argv[5]`: behind the last argument stands a null pointer.
unfoldable pub params_of : List (List ℕ) → Option (List ℕ)
params_of [] = none
params_of (params ∷ []) = some params
params_of (params ∷ _ ∷ _) = none

-- How the command ends: with the usage, with the failed assertion, or with what the call led to.
pub data Ended : Type 0 where
  usage : Ended
  asserted : Ended
  called : Outcome → Ended

-- `!ok`, 0 for the usage; `none` where the command did not return.
unfoldable pub exit_code : Ended → Option ℕ
exit_code usage = some 0
exit_code asserted = none
exit_code (called r) = elim r.ok [ none ↦ none | some ok ↦ some (if ok then 0 else 1) ]

-- The size of `msgbuf`.
abbrev pub request_room : ℕ
request_room = 4096

-- What the command is given: its arguments, and the addresses of its buffer and of those in
-- `lnsocket_perform_init` and `lnsocket_pong`.
pub record Call : Type 0 where
  pub nodeid : List ℕ
  pub host : List ℕ
  pub rune : List ℕ
  pub method : List ℕ
  pub params : Option (List ℕ)
  pub msgbuf : Ptr
  pub init_buf : Ptr
  pub pong_buf : Ptr

-- What the command starts with: what `lnsocket_create` gives, what `generate_key` gives twice, the
-- answers of `select`, and the connection.
pub record Setting : Type 0 where
  pub created : Option Lnsocket
  pub key : Keypair
  pub ephemeral : Keypair
  pub selects : List Selected
  pub net : Net
  pub msgbuf : Ptr
  pub init_buf : Ptr
  pub pong_buf : Ptr

module _ (ext : Externals) where
  unfoldable pub build_request : List ℕ → Option (List ℕ) → List ℕ → Ptr → Io ℕ
  build_request method params rune msgbuf (ln, net) =
      built ext (commando_make_rpc_msg ln.memory method params rune 1 msgbuf request_room) net ln

  unfoldable pub send_request : Call → Io (Unit {0})
  unfolding build_request
  send_request call = do
    len ← build_request call.method call.params call.rune call.msgbuf
    lnsocket_write ext call.msgbuf len

  unfoldable pub request : System → Keypair → Call → Io (Unit {0})
  unfolding send_request
  request sys e call = do
    lnsocket_connect ext sys e call.nodeid call.host
    lnsocket_perform_init ext call.init_buf
    send_request call

  -- `pong` is the address of the buffer in `lnsocket_pong`. A failure of it is only told.
  answer_ping : Ptr → Ptr → ℕ → World → World
  answer_ping pong buf len w = (lnsocket_pong ext pong buf len w).1

-- `stack_string` is what `%s` finds at an address when nothing bounds it.
module _ (ext : Externals) (stack_string : Memory → Ptr → List ℕ) where
  -- `%.*s` with the precision `len - 8`: a negative one is as if there were none.
  unfoldable pub piece : Memory → Ptr → ℕ → List ℕ
  unfolding before_zero
  piece m buf len =
      if ltb len 8 then stack_string m (buf + 8) else before_zero (load m (buf + 8) (len - 8))

  -- The body of the switch, where `more` is the next turn of the loop.
  dispatch : Ptr → Reply → Ptr → ℕ → World → (World → Outcome) → Outcome
  unfolding piece answer_ping
  dispatch pong term buf len w more = stopped (piece w.0.memory buf len ++ 10 ∷ []) true w
  dispatch pong continues buf len w more = printing (piece w.0.memory buf len) (more w)
  dispatch pong ping buf len w more = more (answer_ping ext pong buf len w)
  dispatch pong other buf len w more = more w

  received : Ptr → Option (ℕ × Ptr × ℕ) × World → (World → Outcome) → Outcome
  unfolding dispatch reply_of
  received pong (none, w) more = stopped [] false w
  received pong (some (msgtype, buf, len), w) more = dispatch pong (reply_of msgtype) buf len w more

  -- The loop, with what each call of `select` answers.
  unfoldable pub reply_loop : Ptr → List Selected → World → Outcome
  unfolding received
  reply_loop pong [] w = record { output = []; ok = none; world = w }
  reply_loop pong (select_failed ∷ selects) w = stopped [] false w
  reply_loop pong (timed_out ∷ selects) w = stopped [] false w
  reply_loop pong (ready ∷ selects) w =
      received pong (lnsocket_recv ext w) (reply_loop pong selects)

  after_request : Ptr → List Selected → Option (Unit {0}) × World → Outcome
  after_request pong selects (none, w) = stopped [] false w
  after_request pong selects (some _, w) = reply_loop pong selects w

  -- From `lnsocket_genkey` on: `key` and `e` are what `generate_key` gives.
  unfoldable pub call_node : System → Keypair → Keypair → Call → List Selected → World → Outcome
  unfolding request after_request
  call_node sys key e call selects (ln, net) =
      after_request call.pong_buf selects (request ext sys e call (lnsocket_genkey key ln, net))

  run : System → Setting → (Ptr → Ptr → Ptr → Call) → Option Lnsocket → Ended
  unfolding call_node
  run sys set call none = Ended.asserted
  run sys set call (some ln) = Ended.called (
      call_node sys set.key set.ephemeral (call set.msgbuf set.init_buf set.pong_buf) set.selects
        (ln, set.net))

  -- `argv` without the name of the command.
  unfoldable pub main : System → Setting → List (List ℕ) → Ended
  unfolding run params_of
  main sys set (nodeid ∷ host ∷ rune ∷ method ∷ more) =
      run sys set
        (λ msgbuf init_buf pong_buf. record {
          nodeid = nodeid;
          host = host;
          rune = rune;
          method = method;
          params = params_of more;
          msgbuf = msgbuf;
          init_buf = init_buf;
          pong_buf = pong_buf;
        })
        set.created
  main sys set _ = Ended.usage
