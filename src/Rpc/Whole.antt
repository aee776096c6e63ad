-- ===== src/Rpc/Whole.antt =====
-- A whole call of lnrpc.c, from the connection to the last reply.
use lnsocket.Prelude.{
  ℕ, ◌+◌, ◌%◌, ◌^◌, ◌≤◌, ◌<◌, ◌≡◌, ◌≢◌, ◌⊎◌, inl, inr, refl, ap, ◌∙◌, true, false, some, Option,
  List, [], ◌∷◌, ◌++◌, append_assoc, arith, length, All, replicate, ◌==◌,
}
use lnsocket.Memory.{Memory, Ptr, store, load-store}
use lnsocket.Cursor.{Cursor}
use lnsocket.Primitives.{Externals, AeadLaws, SecpLaws, Hkdf}
use lnsocket.Crypto.{CryptoState, rotate_sender}
use lnsocket.Crypto.Transport.{Mirrors, packet, sent, received-Mirrors}
use lnsocket.Net.{Net, Event}
use lnsocket.Net.Stream.{Carries}
use lnsocket.State.{Keypair, Lnsocket}
use lnsocket.Io.{World, >>=-eq_some}
use lnsocket.Hex.{parse_node_id}
use lnsocket.Commando.Request.{request_bytes, make_rpc_msg_fits}
use lnsocket.Handshake.Agreement.{IsKeypair, prepared}
use lnsocket.Handshake.Connection.{first_act, reply_to, node_state}
use lnsocket.Receive.Messages.{Fits, packets}
use lnsocket.Send.Delivery.{Ready, write_delivers}
use lnsocket.Send.Untouched.{Untouched, lnsocket_write-Untouched}
use lnsocket.Session.{built, is_zero, lnsocket_genkey, lnsocket_perform_init}
use lnsocket.Session.Dialogue.{perform_init-Exchanged}
use lnsocket.Connect.{System, Selected, ready, default_timeout, lnsocket_connect}
use lnsocket.Connect.Direct.{Serves, with_socket, lnsocket_connect_with-Handshaken}
use lnsocket.Rpc.{
  Call, build_request, send_request, request, request_room, after_request, call_node,
}
use lnsocket.Rpc.Replies.{
  Message, IsReadable, IsReadable-same, IsFinished, bytes_of, shown_all, Prints, reply_loop-Prints,
}

-- What is sent does not change what is expected.
sent-Mirrors : (kdf : Hkdf) (s r : CryptoState) → Mirrors s r → Mirrors s (sent kdf r)
unfolding rotate_sender
sent-Mirrors kdf s r v = record { nonce = v.nonce; key = v.key; chaining_key = v.chaining_key }

module _ (ext : Externals) (laws : AeadLaws ext.aead) where
  -- The request of a call.
  abbrev pub request_of : Call → List ℕ
  request_of call = request_bytes call.method call.params call.rune 1

  -- What the sending of the request leaves.
  record Requested (ln : Lnsocket) (net : Net) (call : Call) (run : Option (Unit {0}) × World)
      : Type 0 where
    over : Lnsocket
    runs : run ≡ (
      some tt,
      (over, record net { sent = net.sent ++ packet ext.aead ln.crypto_state (request_of call) }),
    )
    crypto_state : over.crypto_state ≡ sent ext.hkdf ln.crypto_state
    start : over.msgbuf.start ≡ ln.msgbuf.start
    end : over.msgbuf.end ≡ ln.msgbuf.end

  send_request-Requested :
      (ln : Lnsocket) (net : Net) (call : Call)
      → length (request_of call) < 4096
      → Ready ext laws ln (length (request_of call))
      → net.limits ≡ []
      → (call.msgbuf + length (request_of call) ≤ ln.msgbuf.start) ⊎ (ln.msgbuf.end ≤ call.msgbuf)
      → Requested ln net call (send_request ext call (ln, net))
  unfolding send_request build_request built
  send_request-Requested ln net call short ok free apart =
      let bytes : List ℕ = request_of call in
      let ln1 : Lnsocket = record ln { memory = store ln.memory call.msgbuf bytes } in
      let small : length bytes % 2 ^ 16 ≡ length bytes = omega arith in
      let some : (length bytes == 0) ≡ false = ground arith in
      let text = load-store ln.memory call.msgbuf bytes in
      let (over, sends, moved) =
        write_delivers ext laws ln1 net call.msgbuf (length bytes)
          (record { opened = ok.opened; room = ok.room }) free
          (elim apart [ inl lo ↦ inl lo | inr hi ↦ inr (inr (omega (arith, hi, ok.room))) ]) in
      let u : Untouched (ln1, net) (over, _) =
        rw sends at (lnsocket_write-Untouched ext call.msgbuf (length bytes) (ln1, net)) in
      let builds : build_request ext call.method call.params call.rune call.msgbuf (ln, net)
          ≡ (Option.some (length bytes), (ln1, net)) =
        rw
          (
            make_rpc_msg_fits ln.memory call.method call.params call.rune 1 call.msgbuf request_room
                short,
            small,
            some,
          )
          refl in
      record {
        over = over;
        runs =
            >>=-eq_some (build_request ext call.method call.params call.rune call.msgbuf) _ builds
            ∙ rw text at sends;
        crypto_state = moved;
        start = u.start;
        end = u.end;
      }

  -- A whole call of a node with the static key `static` that sends `theirs` as its init message and
  -- then `msgs`. The system serves every call; the connection takes all bytes; the node answers act
  -- one as a BOLT 8 responder, in one piece, and its packets come behind that in any pieces, under the
  -- transport state that it has behind the three acts. The messages fit the buffer, the replies hold
  -- their ids and a final reply is among them; the request fits its 4096 bytes; the buffers on the
  -- stack stand apart from the message buffer, and `select` tells as often as there are messages that
  -- the socket is ready. Then the command ends with success and has printed the texts of the replies in
  -- their order up to the first final one, and a line break.
  pub call_node-Prints :
      (secp : SecpLaws ext.secp) (stack_string : Memory → Ptr → List ℕ) (sys : System)
      (static ephemeral key e : Keypair) (call : Call) (ln : Lnsocket) (net : Net)
      (node : CryptoState) (theirs : List ℕ) (msgs : List Message) (events : List Event)
      (rest : List ℕ) (selects : List Selected)
      → Serves sys call.host default_timeout
      → IsKeypair ext static
      → IsKeypair ext ephemeral
      → IsKeypair ext key
      → IsKeypair ext e
      → is_zero (key.public ++ key.priv) ≡ false
      → parse_node_id call.nodeid ≡ (true, ext.secp.pubkey_serialize static.public)
      → net.limits ≡ []
      → net.events
        ≡ Event.chunk (
            reply_to ext static ephemeral (
              first_act ext e
                (prepared ext (with_socket ext sys (lnsocket_genkey key ln)) static.public, net)))
          ∷ events
      → node_state ext static ephemeral e
          (prepared ext (with_socket ext sys (lnsocket_genkey key ln)) static.public)
        ≡ some (key.public, node)
      → Carries events (packets ext node (theirs ∷ bytes_of msgs) ++ rest)
      → Fits ext ln theirs
      → All (IsReadable ext ln) msgs
      → IsFinished msgs
      → length (request_of call) < 4096
      → ln.msgbuf.start + 4130 ≤ ln.msgbuf.end
      → (call.init_buf + 13 ≤ ln.msgbuf.start) ⊎ (ln.msgbuf.end ≤ call.init_buf)
      → (call.msgbuf + 4096 ≤ ln.msgbuf.start) ⊎ (ln.msgbuf.end ≤ call.msgbuf)
      → Prints ext stack_string
          (call_node ext stack_string sys key e call
            (replicate (length msgs) ready ++ selects)
            (ln, net))
          (shown_all msgs)
  unfolding call_node request lnsocket_connect lnsocket_genkey after_request
  call_node-Prints secp stack_string sys static ephemeral key e call ln net node theirs msgs events
        rest selects serves hs hf hk he set parses free answer concludes c fits readable finished
        short room init_apart apart =
      let ln0 : Lnsocket = record ln { key = key } in
      let a =
        lnsocket_connect_with-Handshaken ext laws secp sys static e ephemeral call.nodeid call.host
          default_timeout ln0 net events serves hs he hf hk set parses free answer in
      let open_socket : a.over.socket ≢ 0 = rw a.socket (let o = serves.opens in ground arith) in
      let state : a.node ≡ node = let one = a.expected in cc in
      let mirrors : Mirrors node a.over.crypto_state = rw state at a.from_node in
      let start : a.over.msgbuf.start ≡ ln.msgbuf.start =
        ap (λ (cur : Cursor). cur.start) a.msgbuf in
      let stop : a.over.msgbuf.end ≡ ln.msgbuf.end = ap (λ (cur : Cursor). cur.end) a.msgbuf in
      let b =
        perform_init-Exchanged ext laws node a.over _ theirs
          (packets ext (sent ext.hkdf node) (bytes_of msgs) ++ rest) call.init_buf mirrors fits.0
          (omega (arith, fits.1, start, stop)) (rw append_assoc at c)
          (record { opened = open_socket; room = omega (arith, start, stop) }) free
          (elim init_apart [
            | inl lo ↦ inl (omega (arith, start))
            | inr hi ↦ inr (omega (arith, hi, stop))
          ]) in
      let d =
        send_request-Requested b.over b.net_over call short
          (record {
            opened = rw b.socket open_socket;
            room = omega (arith, start, stop, b.start, b.end);
          })
          b.free
          (elim apart [
            | inl lo ↦ inl (omega (arith, start, b.start))
            | inr hi ↦ inr (omega (arith, hi, stop, b.end))
          ]) in
      let behind : Mirrors (sent ext.hkdf node) d.over.crypto_state = rw d.crypto_state (
        sent-Mirrors ext.hkdf _ _ (
          rw b.crypto_state (
            sent-Mirrors ext.hkdf _ _
              (received-Mirrors ext.hkdf node a.over.crypto_state mirrors)))) in
      let requests : request ext sys e call (ln0, net) ≡ (some tt, (d.over, _)) =
        >>=-eq_some (lnsocket_connect ext sys e call.nodeid call.host) _ a.runs
        ∙ >>=-eq_some (lnsocket_perform_init ext call.init_buf) _ b.runs
        ∙ d.runs in
      rw requests (
        reply_loop-Prints ext stack_string laws (sent ext.hkdf node) call.pong_buf d.over _ msgs
          rest selects behind
          (IsReadable-same ext ln d.over msgs (d.start ∙ b.start ∙ start) (d.end ∙ b.end ∙ stop)
            readable)
          finished b.carries)
