-- ===== src/Connect/Guards.antt =====
-- What has to hold for a connection to be made, and what a failure leaves untouched.
use lnsocket.Prelude.{
  ℕ, ◌≡◌, ◌⊎◌, inl, inr, refl, sym, true, false, Bool, some, none, List, ◌++◌, ◌==◌, ◌*◌, ◌/◌, ◌%◌,
  ◌^◌, Option, arith,
}
use lnsocket.Errors.{Note}
use lnsocket.Primitives.{Pubkey, Externals}
use lnsocket.State.{Keypair, Lnsocket}
use lnsocket.Io.{World, Io, ◌>>=◌, ◌>>◌, modify}
use lnsocket.Hex.{parse_node_id}
use lnsocket.Session.{is_zero}
use lnsocket.Tor.{parse_port}
use lnsocket.Handshake.{act_one_initiator}
use lnsocket.Connect.{
  System, Address, default_port, port_or, Selected, select_failed, timed_out, ready, key_set,
  read_node_id, read_their_id, pubkey_from_node_id, begin_handshake, open_socket, io_fd_block,
  set_blocking, connect_node, connect_proxy, start_connect, wait_writable, through_proxy,
  lnsocket_connect_with, node_id_of, pubkey_or_fail, resolved_or_fail, selected,
}
use lnsocket.Connect.Refusal.{IsQuiet, Refuses, passed, settled}

module _ (ext : Externals) where
  key_set-IsQuiet : IsQuiet (key_set ext)
  unfolding key_set
  key_set-IsQuiet w = ground arith

  node_id_of-IsQuiet : (r : Bool × List ℕ) → IsQuiet (node_id_of ext r)
  unfolding node_id_of
  node_id_of-IsQuiet (false, id) w = refl
  node_id_of-IsQuiet (true, id) w = refl

  pubkey_or_fail-IsQuiet : (p : Option Pubkey) → IsQuiet (pubkey_or_fail ext p)
  unfolding pubkey_or_fail
  pubkey_or_fail-IsQuiet none w = refl
  pubkey_or_fail-IsQuiet (some p) w = refl

  key_set-holds :
      (w : World) → ((key_set ext w).0 ≡ none) ⊎ (is_zero (w.0.key.public ++ w.0.key.priv) ≡ false)
  unfolding key_set
  key_set-holds w = ground arith

  node_id_of-holds :
      (r : Bool × List ℕ) (w : World) → ((node_id_of ext r w).0 ≡ none) ⊎ (r.0 ≡ true)
  unfolding node_id_of
  node_id_of-holds (false, id) w = inl refl
  node_id_of-holds (true, id) w = inr refl

  node_id_of-bytes :
      (r : Bool × List ℕ) (w : World) {id : List ℕ} {v : World}
      → node_id_of ext r w ≡ (some id, v)
      → id ≡ r.1
  unfolding node_id_of
  node_id_of-bytes (false, id) w h = absurd (cc)
  node_id_of-bytes (true, id) w h = cc

  pubkey_or_fail-holds :
      (p : Option Pubkey) (w : World)
      → ((pubkey_or_fail ext p w).0 ≡ none) ⊎ ((q : Pubkey) × (p ≡ some q))
  unfolding pubkey_or_fail
  pubkey_or_fail-holds none w = inl refl
  pubkey_or_fail-holds (some p) w = inr (p, refl)

  read_their_id-holds :
      (r : Bool × List ℕ) (id : List ℕ) (w v : World)
      → node_id_of ext r w ≡ (some id, v)
      → ((read_their_id ext id v).0 ≡ none)
        ⊎ ((p : Pubkey) × (pubkey_from_node_id ext r.1 ≡ some p))
  unfolding read_their_id
  read_their_id-holds r id w v h =
      rw (sym (node_id_of-bytes r w h)) (pubkey_or_fail-holds (pubkey_from_node_id ext id) v)

  module _ (sys : System) where
    open_socket-holds :
        (w : World) → ((open_socket ext sys w).0 ≡ none) ⊎ ((sys.socket == 0) ≡ false)
    unfolding open_socket
    open_socket-holds w = ground arith

    set_blocking-holds :
        (flags : Option ℕ) (block : Bool) (n : Note) (w : World)
        → ((set_blocking ext sys flags block n w).0 ≡ none)
          ⊎ (io_fd_block flags sys.set_flags block ≡ true)
    unfolding set_blocking
    set_blocking-holds flags block n w = ground arith

    -- The host is found, or `connect` does not answer 0 for the proxy.
    unfoldable pub IsStarted : List ℕ → Option (List ℕ) → Type 0
    IsStarted host none =
        (addr : List ℕ) × (sys.getaddrinfo (parse_port host).0
            (port_or (λ p. p) default_port (parse_port host).1)
          ≡ some addr)
    IsStarted host (some tor_proxy) =
        sys.connects (
          Address.proxy_server (sys.inet_addr (parse_port tor_proxy).0)
            (port_or sys.atoi 9050 (parse_port tor_proxy).1 % 2 ^ 16))
        ≡ false

    resolved_or_fail-holds :
        (r : Option (List ℕ)) (w : World)
        → ((resolved_or_fail ext sys r w).0 ≡ none) ⊎ ((addr : List ℕ) × (r ≡ some addr))
    unfolding resolved_or_fail
    resolved_or_fail-holds none w = inl refl
    resolved_or_fail-holds (some addr) w = inr (addr, refl)

    start_connect-holds :
        (host : List ℕ) (tor : Option (List ℕ)) (w : World)
        → ((start_connect ext sys host tor w).0 ≡ none) ⊎ IsStarted host tor
    unfolding start_connect connect_node connect_proxy IsStarted
    start_connect-holds host none w = resolved_or_fail-holds _ w
    start_connect-holds host (some tor) w = ground arith

    selected-ready : (s : Selected) (w : World) → Refuses (selected ext sys s w) w.1 ⊎ (s ≡ ready)
    unfolding selected
    selected-ready select_failed w = inl (refl, refl)
    selected-ready timed_out w = inl (refl, refl)
    selected-ready ready w = inr refl

    open_socket-IsQuiet : IsQuiet (open_socket ext sys)
    unfolding open_socket
    open_socket-IsQuiet w = ground arith

    set_blocking-IsQuiet :
        (flags : Option ℕ) (block : Bool) (n : Note) → IsQuiet (set_blocking ext sys flags block n)
    unfolding set_blocking
    set_blocking-IsQuiet flags block n w = ground arith

    resolved_or_fail-IsQuiet : (r : Option (List ℕ)) → IsQuiet (resolved_or_fail ext sys r)
    unfolding resolved_or_fail
    resolved_or_fail-IsQuiet none w = refl
    resolved_or_fail-IsQuiet (some addr) w = refl

    start_connect-IsQuiet :
        (host : List ℕ) (tor : Option (List ℕ)) → IsQuiet (start_connect ext sys host tor)
    unfolding start_connect connect_node connect_proxy
    start_connect-IsQuiet host none w = resolved_or_fail-IsQuiet _ w
    start_connect-IsQuiet host (some tor) w = ground arith

    -- What has held where the connection is touched.
    abbrev pub Passed : Lnsocket → List ℕ → List ℕ → Option (List ℕ) → ℕ → Type 0
    Passed ln node_id host tor_proxy timeout_ms =
        (is_zero (ln.key.public ++ ln.key.priv) ≡ false)
        × ((parse_node_id node_id).0 ≡ true)
        × ((p : Pubkey) × (pubkey_from_node_id ext (parse_node_id node_id).1 ≡ some p))
        × ((sys.socket == 0) ≡ false)
        × (io_fd_block sys.first_flags sys.set_flags false ≡ true)
        × IsStarted host tor_proxy
        × (io_fd_block sys.second_flags sys.set_flags true ≡ true)
        × (sys.select (timeout_ms / 1000) (timeout_ms % 1000 * 1000) ≡ Selected.ready)

    -- `lnsocket_connect_with` either fails with nothing read and nothing
    -- sent, or all of this holds: the key is not all zero, the node id is read as hexadecimal and
    -- names a point, the
    -- socket is not 0 and was made nonblocking and blocking again, the host was found or, where a proxy
    -- is given, `connect` did not answer 0, and `select` told the socket ready.
    pub lnsocket_connect_with-Passed :
        (e : Keypair) (node_id host : List ℕ) (tor_proxy : Option (List ℕ)) (timeout_ms : ℕ)
        (w : World)
        → Refuses (lnsocket_connect_with ext sys e node_id host tor_proxy timeout_ms w) w.1
          ⊎ Passed w.0 node_id host tor_proxy timeout_ms
    unfolding lnsocket_connect_with read_node_id read_their_id wait_writable
    lnsocket_connect_with-Passed e node_id host tor_proxy timeout_ms w =
        let after : Pubkey → Io (Unit {0}) = λ p.
          through_proxy ext sys host tor_proxy
          >> (modify (begin_handshake ext p) >> act_one_initiator ext e) in
        let waits : Pubkey → Io (Unit {0}) = λ p. wait_writable ext sys timeout_ms >> after p in
        let blocks : Pubkey → Io (Unit {0}) =
          λ p. set_blocking ext sys sys.second_flags true Note.blocking_failed >> waits p in
        let starts : Pubkey → Io (Unit {0}) =
          λ p. start_connect ext sys host tor_proxy >> blocks p in
        let unblocks : Pubkey → Io (Unit {0}) =
          λ p. set_blocking ext sys sys.first_flags false Note.nonblocking_failed >> starts p in
        let opens : Pubkey → Io (Unit {0}) = λ p. open_socket ext sys >> unblocks p in
        let reads : List ℕ → Io (Unit {0}) = λ id. read_their_id ext id >>= opens in
        let all =
          passed (key_set ext w) (λ _. read_node_id ext node_id >>= reads) w.1 (key_set-IsQuiet w)
            (key_set-holds w)
            (λ _ w1 h1.
              passed (read_node_id ext node_id w1) reads w1.1 (node_id_of-IsQuiet _ w1)
                (node_id_of-holds _ w1)
                (λ id w2 h2.
                  passed (read_their_id ext id w2) opens w2.1 (pubkey_or_fail-IsQuiet _ w2)
                    (read_their_id-holds (parse_node_id node_id) id w1 w2 h2)
                    (λ p w3 h3.
                      passed (open_socket ext sys w3) (λ _. unblocks p) w3.1
                        (open_socket-IsQuiet w3) (open_socket-holds w3)
                        (λ _ w4 h4.
                          passed
                            (set_blocking ext sys sys.first_flags false Note.nonblocking_failed w4)
                            (λ _. starts p) w4.1 (set_blocking-IsQuiet _ _ _ w4)
                            (set_blocking-holds _ _ _ w4)
                            (λ _ w5 h5.
                              passed (start_connect ext sys host tor_proxy w5) (λ _. blocks p) w5.1
                                (start_connect-IsQuiet _ _ w5) (start_connect-holds _ _ w5)
                                (λ _ w6 h6.
                                  passed
                                    (set_blocking ext sys sys.second_flags true Note.blocking_failed
                                      w6)
                                    (λ _. waits p) w6.1 (set_blocking-IsQuiet _ _ _ w6)
                                    (set_blocking-holds _ _ _ w6)
                                    (λ _ w7 h7.
                                      settled (wait_writable ext sys timeout_ms w7) (λ _. after p)
                                        w7.1 (selected-ready _ w7)))))))) in
        elim all [
          | inl h ↦ inl h
          | inr (key, (node, (point, (socket, (nonblocking, (started, (blocking, writable))))))) ↦
              inr (key, node, point, socket, nonblocking, started, blocking, writable)
        ]
