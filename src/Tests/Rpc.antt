-- ===== src/Tests/Rpc.antt =====
-- The command of lnrpc.c at concrete inputs.
use lnsocket.Prelude.{
  ℕ, ◌≡◌, refl, inl, inr, arith, none, some, List, [], ◌∷◌, ◌++◌, append_assoc, All, replicate,
}
use lnsocket.Memory.{Memory, Ptr}
use lnsocket.Crypto.{CryptoState}
use lnsocket.Crypto.Transport.{packet, sent}
use lnsocket.Net.{Event}
use lnsocket.Net.Weight.{weight}
use lnsocket.Net.Stream.{Carries}
use lnsocket.State.{Lnsocket}
use lnsocket.Receive.Messages.{packets}
use lnsocket.Session.{lnsocket_genkey}
use lnsocket.Handshake.Agreement.{prepared}
use lnsocket.Handshake.Connection.{node_state, act_one_initiator-Handshaken}
use lnsocket.Connect.{ready, default_timeout}
use lnsocket.Connect.Direct.{with_socket}
use lnsocket.Rpc.{Call, Outcome, reply_of, reply_loop, call_node}
use lnsocket.Rpc.Replies.{
  Message, IsReadable, IsFinished, Holds, bytes_of, shown_all, Prints, reply_loop-Prints,
}
use lnsocket.Rpc.Ending.{IsOver, reply_loop-IsOver}
use lnsocket.Rpc.Whole.{call_node-Prints}
use lnsocket.Tests.Toy.{toy, toy_aead, toy_aead_laws, toy_secp_laws, toy_hkdf}
use lnsocket.Tests.Transport.{ln, line, crypto, crypto-Mirrors, hello}
use lnsocket.Tests.Handshake.{pair, pair_3, pair_4, pair_5, own}
use lnsocket.Tests.Connect.{
  sys, host, serves, node_id, node_id_parses, key_is_set, answered, answers,
}

-- What lies behind a message is taken for empty.
abbrev no_string : Memory → Ptr → List ℕ
no_string m p = []

-- "{" to be continued, a ping, and "}".
abbrev conversation : List Message
conversation =
    (0x594b, replicate 8 0 ++ 123 ∷ [])
    ∷ (18, 0 ∷ 4 ∷ [])
    ∷ (0x594d, replicate 8 0 ++ 125 ∷ [])
    ∷ []

shown_conversation : shown_all conversation ≡ 123 ∷ 125 ∷ 10 ∷ []
unfolding shown_all lnsocket.Rpc.Replies.shown lnsocket.Rpc.Replies.text_of lnsocket.Rpc.before_zero
    reply_of
shown_conversation = refl

finished : IsFinished conversation
unfolding IsFinished reply_of
finished = inr (inr (inl refl))

readable : All (IsReadable toy ln) conversation
unfolding Holds reply_of
readable = (
  (omega arith, omega arith, (omega arith, omega arith)),
  (
    (omega arith, tt, (omega arith, omega arith)),
    ((omega arith, omega arith, (omega arith, omega arith)), tt),
  ),
)

-- The packets of the conversation from a state on.
abbrev chunks : CryptoState → List (List ℕ) → List Event
chunks s [] = []
chunks s (msg ∷ msgs) = Event.chunk (packet toy_aead s msg) ∷ chunks (sent toy_hkdf s) msgs

chunks-Carries :
    (s : CryptoState) (msgs : List (List ℕ)) → Carries (chunks s msgs) (packets toy s msgs ++ [])
unfolding lnsocket.Tests.Toy.tag
chunks-Carries s [] = Carries.end
chunks-Carries s (msg ∷ msgs) =
    rw (append_assoc (packet toy_aead s msg) (packets toy (sent toy_hkdf s) msgs) [])
      (Carries.more _ _ (chunks-Carries (sent toy_hkdf s) msgs))

reply_loop-Prints_example :
    Prints toy no_string
      (reply_loop toy no_string 5000
        (replicate 3 ready ++ [])
        (ln, line (chunks crypto (bytes_of conversation))))
      (shown_all conversation)
reply_loop-Prints_example =
    reply_loop-Prints toy no_string toy_aead_laws crypto 5000 ln
      (line (chunks crypto (bytes_of conversation))) conversation [] [] crypto-Mirrors readable
      finished (chunks-Carries crypto (bytes_of conversation))

weight_two : weight (Event.chunk (1 ∷ 2 ∷ []) ∷ []) ≡ 2
unfolding weight
weight_two = refl

reply_loop-IsOver_example :
    IsOver toy no_string
      (reply_loop toy no_string 5000 (ready ∷ []) (ln, line (Event.chunk (1 ∷ 2 ∷ []) ∷ [])))
reply_loop-IsOver_example =
    reply_loop-IsOver toy no_string 5000 (ready ∷ []) (ln, line (Event.chunk (1 ∷ 2 ∷ []) ∷ []))
      (omega (arith, weight_two))

-- A socket with room for a request.
abbrev roomy : Lnsocket
roomy = record ln { msgbuf = record { start = 10000; p = 10000; end = 20000 } }

abbrev dialled : Lnsocket
dialled = with_socket toy sys roomy

-- What the node has behind the handshake.
node : CryptoState
node =
    (act_one_initiator-Handshaken toy toy_aead_laws toy_secp_laws (pair 3) (pair 4) (pair 5) dialled
      (answered dialled []) [] pair_3 pair_4 pair_5 own refl (answers dialled [])).node

node_expected :
    node_state toy (pair 3) (pair 5) (pair 4) (prepared toy dialled (pair 3).public)
    ≡ some ((pair 2).public, node)
unfolding node
node_expected =
    (act_one_initiator-Handshaken toy toy_aead_laws toy_secp_laws (pair 3) (pair 4) (pair 5) dialled
      (answered dialled []) [] pair_3 pair_4 pair_5 own refl (answers dialled [])).expected

abbrev call : Call
call = record {
  nodeid = node_id;
  host = host;
  rune = 114 ∷ [];
  method = 109 ∷ [];
  params = none;
  msgbuf = 30000;
  init_buf = 40000;
  pong_buf = 50000;
}

IsReadable-roomy : All (IsReadable toy roomy) conversation
unfolding Holds reply_of
IsReadable-roomy = (
  (omega arith, omega arith, (omega arith, omega arith)),
  (
    (omega arith, tt, (omega arith, omega arith)),
    ((omega arith, omega arith, (omega arith, omega arith)), tt),
  ),
)

abbrev spoken : List Event
spoken = chunks node (hello ∷ bytes_of conversation)

call_node-Prints_example :
    Prints toy no_string
      (call_node toy no_string sys
        (pair 2)
        (pair 4)
        call
        (replicate 3 ready ++ [])
        (roomy, answered dialled spoken))
      (shown_all conversation)
unfolding lnsocket_genkey lnsocket.Commando.params_or_empty
call_node-Prints_example =
    call_node-Prints toy toy_aead_laws toy_secp_laws no_string sys (pair 3) (pair 5) (pair 2)
      (pair 4) call roomy (answered dialled spoken) node hello conversation spoken [] []
      (serves default_timeout) pair_3 pair_5 own pair_4 key_is_set node_id_parses refl
      (answers dialled spoken) node_expected (chunks-Carries node (hello ∷ bytes_of conversation))
      (omega arith, omega arith) IsReadable-roomy finished (omega arith) (omega arith)
      (inr (omega arith)) (inr (omega arith))
