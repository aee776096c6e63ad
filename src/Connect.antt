-- ===== src/Connect.antt =====
-- How a connection is made: `lnsocket_connect_with` of lnsocket.c, and its WebAssembly sibling
-- `lnsocket_act_one` of lnsocket_wasm.c. A string is given by its bytes before the terminating zero.
-- `socket` holds what the call of the same name gave, 0 included, and -1 as its bit pattern.
pub mod Confined
pub mod Direct
pub mod Guards
pub mod Refusal
pub mod Stepwise
use lnsocket.Prelude.{
  ℕ, ◌+◌, ◌-◌, ◌*◌, ◌/◌, ◌%◌, ◌^◌, Bool, true, false, Option, none, some, List, [], ◌∷◌, ◌++◌, ◌==◌,
  if◌then◌else◌,
}
use lnsocket.Errors.{Note}
use lnsocket.Primitives.{Pubkey, Externals}
use lnsocket.Net.{Net}
use lnsocket.State.{Keypair, ActOne, Side, Handshake, Lnsocket}
use lnsocket.Io.{World, Io, and_then, ◌>>=◌, ◌>>◌, pure, modify, fail}
use lnsocket.Hex.{parse_node_id}
use lnsocket.Handshake.{new_handshake, with_handshake, act_one_initiator_prep, act_one_initiator}
use lnsocket.Session.{is_zero}
use lnsocket.Tor.{parse_port, lnsocket_handshake_with_tor}

-- What `connect` is called with: an address and a port of the proxy, or what `getaddrinfo` found.
pub data Address : Type 0 where
  proxy_server : ℕ → ℕ → Address
  resolved : List ℕ → Address

-- The answers of `select`: -1, 0, or more.
pub data Selected : Type 0 where
  select_failed : Selected
  timed_out : Selected
  ready : Selected

-- The system that the socket is opened on, with the functions of the C library that read numbers and
-- addresses: what each call answers. `fcntl` is asked for the flags and told the new ones twice, and
-- `none` and `false` are -1. `connects` is whether `connect` answers 0. `stale` is what stands on the
-- stack where the header of the proxy is read.
pub record System : Type 0 where
  pub socket : ℕ
  pub first_flags : Option ℕ
  pub second_flags : Option ℕ
  pub set_flags : ℕ → Bool
  pub atoi : List ℕ → ℕ
  pub inet_addr : List ℕ → ℕ
  pub getaddrinfo : List ℕ → List ℕ → Option (List ℕ)
  pub connects : Address → Bool
  pub select : ℕ → ℕ → Selected
  pub stale : ℕ

abbrev pub o_nonblock : ℕ
o_nonblock = 2 ^ 11

-- `flags & ~O_NONBLOCK` and `flags | O_NONBLOCK`
unfoldable pub without_nonblock : ℕ → ℕ
without_nonblock flags = flags - flags / o_nonblock % 2 * o_nonblock

unfoldable pub with_nonblock : ℕ → ℕ
unfolding without_nonblock
with_nonblock flags = without_nonblock flags + o_nonblock

unfoldable pub io_fd_block : Option ℕ → (ℕ → Bool) → Bool → Bool
unfolding without_nonblock with_nonblock
io_fd_block none set_flags block = false
io_fd_block (some flags) set_flags block =
    set_flags (if block then without_nonblock flags else with_nonblock flags)

-- "9735"
abbrev pub default_port : List ℕ
default_port = 57 ∷ 55 ∷ 51 ∷ 53 ∷ []

abbrev pub default_timeout : ℕ
default_timeout = 3000

abbrev pub default_tor_timeout : ℕ
default_tor_timeout = 10000

-- The port, or what it is where there is none.
abbrev pub port_or : {A : Type 0} → (List ℕ → A) → A → Option (List ℕ) → A
port_or f default none = default
port_or f default (some port) = f port

module _ (ext : Externals) where
  unfoldable pub key_set : Io (Unit {0})
  unfolding is_zero
  key_set (ln, net) =
      if is_zero (ln.key.public ++ ln.key.priv)
      then fail ext Note.key_not_initialized (ln, net)
      else (some tt, (ln, net))

  unfoldable pub pubkey_from_node_id : List ℕ → Option Pubkey
  pubkey_from_node_id id = ext.secp.pubkey_parse id

  node_id_of : Bool × List ℕ → Io (List ℕ)
  node_id_of (false, id) w = fail ext Note.failed_parse_node_id w
  node_id_of (true, id) w = (some id, w)

  unfoldable pub read_node_id : List ℕ → Io (List ℕ)
  unfolding node_id_of
  read_node_id node_id w = node_id_of (parse_node_id node_id) w

  pubkey_or_fail : Option Pubkey → Io Pubkey
  pubkey_or_fail none w = fail ext Note.failed_convert_node_id w
  pubkey_or_fail (some p) w = (some p, w)

  unfoldable pub read_their_id : List ℕ → Io Pubkey
  unfolding pubkey_or_fail pubkey_from_node_id
  read_their_id id w = pubkey_or_fail (pubkey_from_node_id id) w

  unfoldable pub begin_handshake : Pubkey → Lnsocket → Lnsocket
  begin_handshake their_id ln =
      with_handshake ln (record (new_handshake ext ln.handshake their_id) {
        their_id = their_id;
        side = Side.initiator;
      })

  module _ (sys : System) where
    unfoldable pub open_socket : Io (Unit {0})
    open_socket (ln, net) =
        let ln' = record ln { socket = sys.socket } in
        if sys.socket == 0 then fail ext Note.socket_failed (ln', net) else (some tt, (ln', net))

    unfoldable pub set_blocking : Option ℕ → Bool → Note → Io (Unit {0})
    set_blocking flags block n w =
        if io_fd_block flags sys.set_flags block then (some tt, w) else fail ext n w

    -- Here `connect` answers 0 where it succeeds at once, and that is refused.
    unfoldable pub connect_proxy : List ℕ → Io (Unit {0})
    connect_proxy tor_proxy w =
        let (proxyhost, port) = parse_port tor_proxy in
        if sys.connects
          (Address.proxy_server (sys.inet_addr proxyhost) (port_or sys.atoi 9050 port % 2 ^ 16))
        then fail ext Note.proxy_connect_failed w
        else (some tt, w)

    resolved_or_fail : Option (List ℕ) → Io (Unit {0})
    resolved_or_fail none w = fail ext Note.address_failed w
    resolved_or_fail (some addr) w = (some tt, w)

    -- What `connect` answers is not looked at.
    unfoldable pub connect_node : List ℕ → Io (Unit {0})
    unfolding resolved_or_fail
    connect_node host w =
        let (onlyhost, port) = parse_port host in
        resolved_or_fail (sys.getaddrinfo onlyhost (port_or (λ p. p) default_port port)) w

    unfoldable pub start_connect : List ℕ → Option (List ℕ) → Io (Unit {0})
    unfolding connect_node connect_proxy
    start_connect host none = connect_node host
    start_connect host (some tor_proxy) = connect_proxy tor_proxy

    selected : Selected → Io (Unit {0})
    selected select_failed w = fail ext Note.select_error w
    selected timed_out w = fail ext Note.connection_timeout w
    selected ready w = (some tt, w)

    -- The seconds and the microseconds of the timeout.
    unfoldable pub wait_writable : ℕ → Io (Unit {0})
    unfolding selected
    wait_writable timeout_ms w =
        selected (sys.select (timeout_ms / 1000) (timeout_ms % 1000 * 1000)) w

    -- A failure is noted once more.
    noted_again : Option (Unit {0}) × World → Option (Unit {0}) × World
    noted_again (none, w) = fail ext Note.proxy_handshake_failed w
    noted_again (some _, w) = (some tt, w)

    unfoldable pub through_proxy : List ℕ → Option (List ℕ) → Io (Unit {0})
    unfolding noted_again
    through_proxy host none w = (some tt, w)
    through_proxy host (some tor_proxy) w =
        let (onlyhost, port) = parse_port host in
        noted_again (
          lnsocket_handshake_with_tor ext sys.atoi sys.stale onlyhost
            (port_or (λ p. p) default_port port) w)

    -- `e` is what `generate_key` gives.
    unfoldable pub lnsocket_connect_with :
        Keypair → List ℕ → List ℕ → Option (List ℕ) → ℕ → Io (Unit {0})
    unfolding key_set read_node_id read_their_id open_socket set_blocking start_connect
        wait_writable through_proxy begin_handshake
    lnsocket_connect_with e node_id host tor_proxy timeout_ms = do
      key_set
      id ← read_node_id node_id
      their_id ← read_their_id id
      open_socket
      set_blocking sys.first_flags false Note.nonblocking_failed
      start_connect host tor_proxy
      set_blocking sys.second_flags true Note.blocking_failed
      wait_writable timeout_ms
      through_proxy host tor_proxy
      modify (begin_handshake their_id)
      act_one_initiator ext e

    unfoldable pub lnsocket_connect : Keypair → List ℕ → List ℕ → Io (Unit {0})
    lnsocket_connect e node_id host = lnsocket_connect_with e node_id host none default_timeout

    unfoldable pub lnsocket_connect_tor : Keypair → List ℕ → List ℕ → List ℕ → Io (Unit {0})
    lnsocket_connect_tor e node_id host tor_proxy =
        lnsocket_connect_with e node_id host (some tor_proxy) default_tor_timeout

  -- Of the failure of `act_one_initiator_prep` a second note is made.
  act_one_built : Option (Unit {0}) × World → Option ActOne × World
  act_one_built (none, w) = fail ext Note.failed_build_act1 w
  act_one_built (some _, w) = (some w.0.handshake.act1, w)

  unfoldable pub build_first_act : Keypair → Io ActOne
  unfolding act_one_built
  build_first_act e w = act_one_built (act_one_initiator_prep ext e w)

  unfoldable pub lnsocket_act_one : Keypair → List ℕ → Io ActOne
  unfolding key_set read_node_id read_their_id begin_handshake build_first_act
  lnsocket_act_one e node_id = do
    key_set
    id ← read_node_id node_id
    their_id ← read_their_id id
    modify (begin_handshake their_id)
    build_first_act e
