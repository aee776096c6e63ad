-- ===== src/Tests/Stepwise.antt =====
-- The handshake step by step, and a failing receipt, at concrete inputs.
use lnsocket.Prelude.{◌≡◌, refl, none, some, [], ◌∷◌, arith}
use lnsocket.Errors.{Note, print_error_backtrace}
use lnsocket.Net.{read_all}
use lnsocket.Io.{World}
use lnsocket.Handshake.{act_one_initiator_prep, share}
use lnsocket.Connect.{
  lnsocket_act_one, lnsocket_connect_with, key_set, read_node_id, read_their_id,
  pubkey_from_node_id, begin_handshake, build_first_act,
}
use lnsocket.Connect.Direct.{with_socket}
use lnsocket.Connect.Stepwise.{from_act_one, lnsocket_connect_with-from_act_one}
use lnsocket.Receive.{lnsocket_recv, lnsocket_read, read_header}
use lnsocket.Receive.Notes.{IsRecvNote, HasLog, lnsocket_recv-Prints}
use lnsocket.Tests.Toy.{toy, parse_toy}
use lnsocket.Tests.Handshake.{pair}
use lnsocket.Tests.Connect.{sys, host, serves, node_id}
use lnsocket.Tests.Transport.{ln, line}

has_log : HasLog toy ln
has_log = record { enabled = refl; no_zero = λ n is. omega arith; room = λ n is. omega arith }

-- The stream ends before a header.
recv_fails : (lnsocket_recv toy (ln, line [])).0 ≡ none
unfolding lnsocket_recv lnsocket_read read_header read_all
recv_fails = refl

lnsocket_recv-Prints_example :
    (n : Note) × IsRecvNote n
    × (print_error_backtrace
          (lnsocket_recv toy (ln, line [])).1.0.memory
          (lnsocket_recv toy (ln, line [])).1.0.errs
        ≡ some (toy.format n) ∷ [])
lnsocket_recv-Prints_example = lnsocket_recv-Prints toy (ln, line []) has_log recv_fails

-- What act one leaves.
abbrev ready : World
ready = (lnsocket_act_one toy (pair 4) node_id (with_socket toy sys ln, line [])).1

act_one_given :
    lnsocket_act_one toy (pair 4) node_id (with_socket toy sys ln, line [])
    ≡ (some ready.0.handshake.act1, ready)
unfolding lnsocket_act_one key_set read_node_id read_their_id pubkey_from_node_id begin_handshake
    build_first_act act_one_initiator_prep share parse_toy lnsocket.Hex.parse_node_id
    lnsocket.Hex.hex_decode lnsocket.Hex.RoundTrip.hex lnsocket.Hex.char_to_hex
    lnsocket.Hex.RoundTrip.digit
act_one_given = refl

lnsocket_connect_with-from_act_one_example :
    lnsocket_connect_with toy sys (pair 4) node_id host none 3000 (ln, line [])
    ≡ from_act_one toy ready.0.handshake.act1 ready
lnsocket_connect_with-from_act_one_example =
    lnsocket_connect_with-from_act_one toy sys (pair 4) node_id host 3000 ln (line [])
      ready.0.handshake.act1 ready (serves 3000) act_one_given
