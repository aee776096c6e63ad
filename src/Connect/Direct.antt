-- ===== src/Connect/Direct.antt =====
-- A connection that is made without a proxy: `lnsocket_connect_with` of lnsocket.c where the system
-- serves every call.
use lnsocket.Prelude.{
  ℕ, ◌≡◌, refl, true, false, some, none, List, [], ◌∷◌, ◌++◌, ◌==◌, ◌*◌, ◌/◌, ◌%◌,
}
use lnsocket.Primitives.{Pubkey, Externals, AeadLaws, SecpLaws}
use lnsocket.Net.{Net, Event}
use lnsocket.State.{Keypair, Lnsocket}
use lnsocket.Hex.{parse_node_id}
use lnsocket.Session.{is_zero}
use lnsocket.Tor.{parse_port}
use lnsocket.Handshake.{act_one_initiator}
use lnsocket.Handshake.Agreement.{IsKeypair, prepared}
use lnsocket.Handshake.Connection.{Handshaken, first_act, reply_to, act_one_initiator-Handshaken}
use lnsocket.Connect.{
  System, Selected, default_port, port_or, key_set, read_node_id, read_their_id,
  pubkey_from_node_id, begin_handshake, open_socket, io_fd_block, set_blocking, connect_node,
  start_connect, wait_writable, through_proxy, lnsocket_connect_with,
}

-- The system opens a socket that is not 0, sets its flags, finds the address of the host, and tells
-- within the timeout that the socket is ready.
pub record Serves (sys : System) (host : List ℕ) (timeout_ms : ℕ) : Type 0 where
  pub first_flags : ℕ
  pub second_flags : ℕ
  pub address : List ℕ
  pub opens : (sys.socket == 0) ≡ false
  pub first : sys.first_flags ≡ some first_flags
  pub second : sys.second_flags ≡ some second_flags
  pub sets : (flags : ℕ) → sys.set_flags flags ≡ true
  pub finds :
      sys.getaddrinfo (parse_port host).0 (port_or (λ p. p) default_port (parse_port host).1)
      ≡ some address
  pub ready : sys.select (timeout_ms / 1000) (timeout_ms % 1000 * 1000) ≡ Selected.ready

module _ (ext : Externals) where
  abbrev pub with_socket : System → Lnsocket → Lnsocket
  with_socket sys ln = record ln { socket = sys.socket }

  -- Up to the handshake.
  pub connect_with-begun :
      (sys : System) (e : Keypair) (node_id host id : List ℕ) (their_id : Pubkey) (timeout_ms : ℕ)
      (ln : Lnsocket) (net : Net)
      → Serves sys host timeout_ms
      → is_zero (ln.key.public ++ ln.key.priv) ≡ false
      → parse_node_id node_id ≡ (true, id)
      → ext.secp.pubkey_parse id ≡ some their_id
      → lnsocket_connect_with ext sys e node_id host none timeout_ms (ln, net)
        ≡ act_one_initiator ext e (begin_handshake ext their_id (with_socket sys ln), net)
  unfolding lnsocket_connect_with key_set read_node_id read_their_id pubkey_from_node_id open_socket
      set_blocking io_fd_block start_connect connect_node wait_writable through_proxy
  connect_with-begun sys e node_id host id their_id timeout_ms ln net s set parses names =
      rw (set, parses, names, s.opens, s.first, s.sets, s.finds, s.second, s.sets, s.ready) refl

  connect_with-prepared :
      SecpLaws ext.secp
      → (sys : System) (static e : Keypair) (node_id host : List ℕ) (timeout_ms : ℕ) (ln : Lnsocket)
        (net : Net)
      → Serves sys host timeout_ms
      → IsKeypair ext static
      → is_zero (ln.key.public ++ ln.key.priv) ≡ false
      → parse_node_id node_id ≡ (true, ext.secp.pubkey_serialize static.public)
      → lnsocket_connect_with ext sys e node_id host none timeout_ms (ln, net)
        ≡ act_one_initiator ext e (prepared ext (with_socket sys ln) static.public, net)
  unfolding begin_handshake
  connect_with-prepared secp sys static e node_id host timeout_ms ln net s hs set parses =
      connect_with-begun sys e node_id host (ext.secp.pubkey_serialize static.public) static.public
        timeout_ms ln net s set parses (secp.parse-serialize static.priv static.public hs)

  -- A socket whose key is set and valid connects to a node by the hexadecimal form of its static key,
  -- without a proxy, where the system serves every call, the connection takes all bytes, and the node
  -- answers act one as a BOLT 8 responder, in one piece. It succeeds: act one and act three are all it
  -- has sent, the node accepts both and learns the socket's static key, the two end with transport
  -- states that mirror each other in both directions, and the socket has the descriptor that `socket`
  -- gave and its message buffer as before.
  pub lnsocket_connect_with-Handshaken :
      AeadLaws ext.aead
      → SecpLaws ext.secp
      → (sys : System) (static e ephemeral : Keypair) (node_id host : List ℕ) (timeout_ms : ℕ)
        (ln : Lnsocket) (net : Net) (rest : List Event)
      → Serves sys host timeout_ms
      → IsKeypair ext static
      → IsKeypair ext e
      → IsKeypair ext ephemeral
      → IsKeypair ext ln.key
      → is_zero (ln.key.public ++ ln.key.priv) ≡ false
      → parse_node_id node_id ≡ (true, ext.secp.pubkey_serialize static.public)
      → net.limits ≡ []
      → net.events
        ≡ Event.chunk (
            reply_to ext static ephemeral
              (first_act ext e (prepared ext (with_socket sys ln) static.public, net)))
          ∷ rest
      → Handshaken ext static ephemeral e
          (first_act ext e (prepared ext (with_socket sys ln) static.public, net))
          (with_socket sys ln)
          net
          rest
          (lnsocket_connect_with ext sys e node_id host none timeout_ms (ln, net))
  lnsocket_connect_with-Handshaken aead secp sys static e ephemeral node_id host timeout_ms ln net
        rest s hs he hf hk set parses free answer =
      rw (connect_with-prepared secp sys static e node_id host timeout_ms ln net s hs set parses) (
        act_one_initiator-Handshaken ext aead secp static e ephemeral (with_socket sys ln) net rest
          hs he hf hk free answer)
