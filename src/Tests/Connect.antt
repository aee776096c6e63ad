-- ===== src/Tests/Connect.antt =====
-- The making of a connection at concrete inputs.
use lnsocket.Prelude.{
  ℕ, ◌%◌, ◌^◌, ◌≡◌, ◌⊎◌, refl, arith, true, false, none, some, List, [], ◌∷◌, ◌++◌, replicate,
}
use lnsocket.Net.{Net, Event}
use lnsocket.Net.Stream.{Carries}
use lnsocket.State.{Lnsocket}
use lnsocket.Hex.{parse_node_id}
use lnsocket.Hex.RoundTrip.{hex, hex_decode-hex}
use lnsocket.Handshake.{act_one_initiator, act_one_initiator_prep, share, shared}
use lnsocket.Handshake.Agreement.{prepared}
use lnsocket.Handshake.Connection.{Handshaken, first_act, reply_to, act_one_initiator-Handshaken}
use lnsocket.Session.{is_zero}
use lnsocket.Tor.{init_request, v5_request, lnsocket_handshake_with_tor, byte_at}
use lnsocket.Tor.Request.{decode_request, decode-v5_request, tor_sent, tor_completes}
use lnsocket.Connect.{System, Selected, lnsocket_connect_with}
use lnsocket.Connect.Direct.{Serves, with_socket, lnsocket_connect_with-Handshaken}
use lnsocket.Connect.Refusal.{Refuses}
use lnsocket.Connect.Guards.{Passed, lnsocket_connect_with-Passed}
use lnsocket.Tests.Toy.{toy, toy_aead_laws, toy_secp_laws}
use lnsocket.Tests.Transport.{ln, line}
use lnsocket.Tests.Handshake.{pair, pair_3, pair_4, pair_5, own}

-- The answer of the responder to the act one of this socket.
abbrev pub answer : Lnsocket → List ℕ
answer l =
    reply_to toy (pair 3) (pair 5)
      (first_act toy (pair 4) (prepared toy l (pair 3).public, line []))

abbrev pub answered : Lnsocket → List Event → Net
answered l events = line (Event.chunk (answer l) ∷ events)

-- The first act does not depend on the connection.
pub first_same :
    (l : Lnsocket) (net : Net)
    → first_act toy (pair 4) (prepared toy l (pair 3).public, net)
      ≡ first_act toy (pair 4) (prepared toy l (pair 3).public, line [])
unfolding first_act act_one_initiator_prep share shared
first_same l net = refl

pub answers :
    (l : Lnsocket) (events : List Event)
    → (answered l events).events
      ≡ Event.chunk (
          reply_to toy
            (pair 3)
            (pair 5)
            (first_act toy (pair 4) (prepared toy l (pair 3).public, answered l events)))
        ∷ events
answers l events = rw (first_same l (answered l events)) refl

act_one_initiator-Handshaken_example :
    Handshaken toy
      (pair 3)
      (pair 5)
      (pair 4)
      (first_act toy (pair 4) (prepared toy ln (pair 3).public, answered ln []))
      ln
      (answered ln [])
      []
      (act_one_initiator toy (pair 4) (prepared toy ln (pair 3).public, answered ln []))
act_one_initiator-Handshaken_example =
    act_one_initiator-Handshaken toy toy_aead_laws toy_secp_laws (pair 3) (pair 4) (pair 5) ln
      (answered ln []) [] pair_3 pair_4 pair_5 own refl (answers ln [])

-- A system that serves every call.
abbrev pub sys : System
sys = record {
  socket = 7;
  first_flags = some 2;
  second_flags = some 2050;
  set_flags = λ flags. true;
  atoi = λ text. 9735;
  inet_addr = λ text. 127;
  getaddrinfo = λ host port. some (127 ∷ 0 ∷ 0 ∷ 1 ∷ []);
  connects = λ address. false;
  select = λ seconds microseconds. Selected.ready;
  stale = 0;
}

-- node:1
abbrev pub host : List ℕ
host = 110 ∷ 111 ∷ 100 ∷ 101 ∷ 58 ∷ 49 ∷ []

pub serves : (timeout_ms : ℕ) → Serves sys host timeout_ms
serves timeout_ms = record {
  first_flags = 2;
  second_flags = 2050;
  address = 127 ∷ 0 ∷ 0 ∷ 1 ∷ [];
  opens = refl;
  first = refl;
  second = refl;
  sets = λ flags. refl;
  finds = refl;
  ready = refl;
}

abbrev pub node_id : List ℕ
node_id = hex (2 ∷ replicate 32 3)

pub node_id_parses : parse_node_id node_id ≡ (true, 2 ∷ replicate 32 3)
unfolding parse_node_id
node_id_parses = hex_decode-hex (2 ∷ replicate 32 3) (omega arith)

pub key_is_set : is_zero (ln.key.public ++ ln.key.priv) ≡ false
unfolding is_zero
key_is_set = refl

abbrev connected : Lnsocket
connected = with_socket toy sys ln

lnsocket_connect_with-Handshaken_example :
    Handshaken toy
      (pair 3)
      (pair 5)
      (pair 4)
      (first_act toy (pair 4) (prepared toy connected (pair 3).public, answered connected []))
      connected
      (answered connected [])
      []
      (lnsocket_connect_with toy sys (pair 4) node_id host none 3000 (ln, answered connected []))
lnsocket_connect_with-Handshaken_example =
    lnsocket_connect_with-Handshaken toy toy_aead_laws toy_secp_laws sys (pair 3) (pair 4) (pair 5)
      node_id host 3000 ln (answered connected []) [] (serves 3000) pair_3 pair_4 pair_5 own
      key_is_set node_id_parses refl (answers connected [])

-- Through a proxy that refuses.
lnsocket_connect_with-Passed_example :
    Refuses
      (lnsocket_connect_with toy sys (pair 4) node_id host (some host) 3000 (ln, line []))
      (line [])
    ⊎ Passed toy sys ln node_id host (some host) 3000
lnsocket_connect_with-Passed_example =
    lnsocket_connect_with-Passed toy sys (pair 4) node_id host (some host) 3000 (ln, line [])

decode-v5_request_example :
    decode_request (v5_request sys.atoi host (49 ∷ [])) ≡ some (host, 9735 % 2 ^ 16)
decode-v5_request_example = decode-v5_request sys.atoi host (49 ∷ []) (omega arith)

-- A proxy that accepts and then succeeds.
abbrev reply : List ℕ
reply = 5 ∷ 0 ∷ 0 ∷ 1 ∷ replicate 6 9

abbrev proxied : Net
proxied = line (Event.chunk (5 ∷ 0 ∷ []) ∷ Event.chunk reply ∷ [])

reply-Carries : Carries (Event.chunk reply ∷ []) (reply ++ [])
reply-Carries = Carries.more _ _ Carries.end

second_zero : byte_at 0 1 reply ≡ 0
unfolding byte_at
second_zero = refl

fourth_one : byte_at 0 3 reply ≡ 1
unfolding byte_at
fourth_one = refl

tor_completes_example :
    (net' : Net) × (lnsocket_handshake_with_tor toy sys.atoi 0 host (49 ∷ []) (ln, proxied)
      ≡ (some tt, (ln, net')))
    × (net'.sent ≡ ([] ++ init_request) ++ v5_request sys.atoi host (49 ∷ []))
    × Carries net'.events []
    × (net'.limits ≡ [])
tor_completes_example =
    tor_completes toy sys.atoi 0 host (49 ∷ []) ln proxied 5 0 (Event.chunk reply ∷ []) reply []
      refl refl (omega arith) reply-Carries refl second_zero fourth_one

tor_runs :
    (net' : Net) × (lnsocket_handshake_with_tor toy sys.atoi 0 host (49 ∷ []) (ln, proxied)
      ≡ (some tt, (ln, net')))
tor_runs =
    let r =
      tor_completes toy sys.atoi 0 host (49 ∷ []) ln proxied 5 0 (Event.chunk reply ∷ []) reply []
        refl refl (omega arith) reply-Carries refl second_zero fourth_one in
    (r.0, r.1)

tor_sent_example : tor_runs.0.sent ≡ ([] ++ init_request) ++ v5_request sys.atoi host (49 ∷ [])
tor_sent_example = tor_sent toy sys.atoi 0 host (49 ∷ []) (ln, proxied) (ln, tor_runs.0) tor_runs.1
