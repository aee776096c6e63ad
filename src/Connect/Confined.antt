-- ===== src/Connect/Confined.antt =====
-- What connecting (lnsocket.c and lnsocket_wasm.c) does to memory.
use lnsocket.Prelude.{ℕ, refl, Bool, true, false, Option, none, some, List, ◌++◌, ◌==◌, ◌%◌, ◌^◌}
use lnsocket.Errors.{Note}
use lnsocket.Primitives.{Pubkey, Externals}
use lnsocket.State.{Keypair, Lnsocket}
use lnsocket.Io.{World}
use lnsocket.Hex.{parse_node_id}
use lnsocket.Session.{is_zero}
use lnsocket.Bounds.{Keeps, Anything, failed-Keeps}
use lnsocket.Bounds.Quiet.{
  Quiet, IsConfined, done-Keeps, modify-IsConfined, >>=-IsConfined, noted-Keeps, test-Keeps,
  check-Keeps, same-Quiet,
}
use lnsocket.Handshake.Confined.{
  with_handshake-Quiet, act_one_initiator_prep-IsConfined, act_one_initiator-IsConfined,
}
use lnsocket.Tor.{parse_port}
use lnsocket.Tor.Confined.{handshake_with_tor-IsConfined}
use lnsocket.Connect.{
  Address, Selected, System, io_fd_block, port_or, key_set, pubkey_from_node_id, node_id_of,
  read_node_id, pubkey_or_fail, read_their_id, begin_handshake, open_socket, set_blocking,
  connect_proxy, resolved_or_fail, connect_node, start_connect, selected, wait_writable,
  noted_again, through_proxy, lnsocket_connect_with, act_one_built, build_first_act,
  lnsocket_act_one,
}

module _ (ext : Externals) where
  key_set-IsConfined : IsConfined (key_set ext)
  unfolding key_set
  key_set-IsConfined w s =
      test-Keeps ext (is_zero (w.0.key.public ++ w.0.key.priv)) Note.key_not_initialized tt w w
        (same-Quiet w.0) s

  node_id_of-IsConfined : (r : Bool × List ℕ) → IsConfined (node_id_of ext r)
  unfolding node_id_of
  node_id_of-IsConfined (false, id) w s =
      noted-Keeps ext Note.failed_parse_node_id w w (same-Quiet w.0) s
  node_id_of-IsConfined (true, id) w s = done-Keeps id w w (same-Quiet w.0) s

  read_node_id-IsConfined : (node_id : List ℕ) → IsConfined (read_node_id ext node_id)
  unfolding read_node_id
  read_node_id-IsConfined node_id w s = node_id_of-IsConfined (parse_node_id node_id) w s

  pubkey_or_fail-IsConfined : (r : Option Pubkey) → IsConfined (pubkey_or_fail ext r)
  unfolding pubkey_or_fail
  pubkey_or_fail-IsConfined none w s =
      noted-Keeps ext Note.failed_convert_node_id w w (same-Quiet w.0) s
  pubkey_or_fail-IsConfined (some p) w s = done-Keeps p w w (same-Quiet w.0) s

  read_their_id-IsConfined : (id : List ℕ) → IsConfined (read_their_id ext id)
  unfolding read_their_id
  read_their_id-IsConfined id w s = pubkey_or_fail-IsConfined (pubkey_from_node_id ext id) w s

  begin_handshake-Quiet : (p : Pubkey) (ln : Lnsocket) → Quiet ln (begin_handshake ext p ln)
  unfolding begin_handshake
  begin_handshake-Quiet p ln = with_handshake-Quiet ln _

  module _ (sys : System) where
    open_socket-IsConfined : IsConfined (open_socket ext sys)
    unfolding open_socket
    open_socket-IsConfined w s =
        test-Keeps ext (sys.socket == 0) Note.socket_failed tt w _
          (record { memory = refl; msgbuf = refl; errs = refl }) s

    set_blocking-IsConfined :
        (flags : Option ℕ) (block : Bool) (n : Note)
        → IsConfined (set_blocking ext sys flags block n)
    unfolding set_blocking
    set_blocking-IsConfined flags block n w s =
        check-Keeps ext (io_fd_block flags sys.set_flags block) n tt w w (same-Quiet w.0) s

    connect_proxy-IsConfined : (tor_proxy : List ℕ) → IsConfined (connect_proxy ext sys tor_proxy)
    unfolding connect_proxy
    connect_proxy-IsConfined tor_proxy w s =
        test-Keeps ext
          (sys.connects (
            Address.proxy_server (sys.inet_addr (parse_port tor_proxy).0)
              (port_or sys.atoi 9050 (parse_port tor_proxy).1 % 2 ^ 16)))
          Note.proxy_connect_failed tt w w (same-Quiet w.0) s

    resolved_or_fail-IsConfined : (r : Option (List ℕ)) → IsConfined (resolved_or_fail ext sys r)
    unfolding resolved_or_fail
    resolved_or_fail-IsConfined none w s =
        noted-Keeps ext Note.address_failed w w (same-Quiet w.0) s
    resolved_or_fail-IsConfined (some addr) w s = done-Keeps tt w w (same-Quiet w.0) s

    start_connect-IsConfined :
        (host : List ℕ) (tor_proxy : Option (List ℕ))
        → IsConfined (start_connect ext sys host tor_proxy)
    unfolding start_connect connect_node
    start_connect-IsConfined host none w s = resolved_or_fail-IsConfined _ w s
    start_connect-IsConfined host (some tor_proxy) w s = connect_proxy-IsConfined tor_proxy w s

    selected-IsConfined : (r : Selected) → IsConfined (selected ext sys r)
    unfolding selected
    selected-IsConfined Selected.select_failed w s =
        noted-Keeps ext Note.select_error w w (same-Quiet w.0) s
    selected-IsConfined Selected.timed_out w s =
        noted-Keeps ext Note.connection_timeout w w (same-Quiet w.0) s
    selected-IsConfined Selected.ready w s = done-Keeps tt w w (same-Quiet w.0) s

    wait_writable-IsConfined : (timeout_ms : ℕ) → IsConfined (wait_writable ext sys timeout_ms)
    unfolding wait_writable
    wait_writable-IsConfined timeout_ms w s = selected-IsConfined _ w s

    noted_again-Keeps :
        (w : World) (r : Option (Unit {0}) × World)
        → Keeps Anything w r
        → Keeps Anything w (noted_again ext sys r)
    unfolding noted_again
    noted_again-Keeps w (none, v) k =
        failed-Keeps ext Anything Note.proxy_handshake_failed w v k.confines
    noted_again-Keeps w (some _, v) k = record { confines = k.confines; post = λ a e. tt }

    through_proxy-IsConfined :
        (host : List ℕ) (tor_proxy : Option (List ℕ))
        → IsConfined (through_proxy ext sys host tor_proxy)
    unfolding through_proxy
    through_proxy-IsConfined host none w s = done-Keeps tt w w (same-Quiet w.0) s
    through_proxy-IsConfined host (some tor_proxy) w s =
        noted_again-Keeps w _ (handshake_with_tor-IsConfined ext sys.atoi sys.stale _ _ w s)

    -- Whether it succeeds or not, `lnsocket_connect_with` on a socket whose cursors stand in their
    -- regions keeps them there and leaves every byte outside the message buffer and the error log.
    pub connect_with-IsConfined :
        (e : Keypair) (node_id host : List ℕ) (tor_proxy : Option (List ℕ)) (timeout_ms : ℕ)
        → IsConfined (lnsocket_connect_with ext sys e node_id host tor_proxy timeout_ms)
    unfolding lnsocket_connect_with
    connect_with-IsConfined e node_id host tor_proxy timeout_ms =
        >>=-IsConfined _ _ key_set-IsConfined λ _.
          >>=-IsConfined _ _ (read_node_id-IsConfined node_id) λ id.
            >>=-IsConfined _ _ (read_their_id-IsConfined id) λ their_id.
              >>=-IsConfined _ _ open_socket-IsConfined λ _.
                >>=-IsConfined _ _
                  (set_blocking-IsConfined sys.first_flags false Note.nonblocking_failed)
                  λ _. >>=-IsConfined _ _ (start_connect-IsConfined host tor_proxy) λ _.
                    >>=-IsConfined _ _
                      (set_blocking-IsConfined sys.second_flags true Note.blocking_failed)
                      λ _. >>=-IsConfined _ _ (wait_writable-IsConfined timeout_ms) λ _.
                        >>=-IsConfined _ _ (through_proxy-IsConfined host tor_proxy) λ _.
                          >>=-IsConfined _ _ (modify-IsConfined _ (begin_handshake-Quiet their_id))
                            λ _. act_one_initiator-IsConfined ext e

  act_one_built-Keeps :
      (w : World) (r : Option (Unit {0}) × World)
      → Keeps Anything w r
      → Keeps Anything w (act_one_built ext r)
  unfolding act_one_built
  act_one_built-Keeps w (none, v) k =
      failed-Keeps ext Anything Note.failed_build_act1 w v k.confines
  act_one_built-Keeps w (some _, v) k = record { confines = k.confines; post = λ a e. tt }

  build_first_act-IsConfined : (e : Keypair) → IsConfined (build_first_act ext e)
  unfolding build_first_act
  build_first_act-IsConfined e w s =
      act_one_built-Keeps w _ (act_one_initiator_prep-IsConfined ext e w s)

  pub lnsocket_act_one-IsConfined :
      (e : Keypair) (node_id : List ℕ) → IsConfined (lnsocket_act_one ext e node_id)
  unfolding lnsocket_act_one
  lnsocket_act_one-IsConfined e node_id = >>=-IsConfined _ _ key_set-IsConfined λ _.
      >>=-IsConfined _ _ (read_node_id-IsConfined node_id) λ id.
        >>=-IsConfined _ _ (read_their_id-IsConfined id) λ their_id.
          >>=-IsConfined _ _ (modify-IsConfined _ (begin_handshake-Quiet their_id))
            λ _. build_first_act-IsConfined e
