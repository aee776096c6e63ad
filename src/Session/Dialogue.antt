-- ===== src/Session/Dialogue.antt =====
-- The dialogues of a connection: the answer to a ping, and the exchange of init messages.
use lnsocket.Prelude.{
  ℕ, ◌+◌, ◌-◌, ◌%◌, ◌^◌, ◌≤◌, ◌≡◌, ◌≢◌, ◌⊎◌, inl, inr, ◌==◌, refl, ap, ◌∙◌, false, some, Option,
  List, [], ◌∷◌, ◌++◌, arith, length, length-replicate,
}
use lnsocket.Prelude.Bytes.{IsU16, be16_bytes}
use lnsocket.Memory.{Ptr, store, load, load-store}
use lnsocket.Primitives.{Externals, AeadLaws}
use lnsocket.Crypto.{CryptoState, rotate_receiver}
use lnsocket.Crypto.Transport.{Mirrors, body_of, packet, sent, received}
use lnsocket.Net.{Net}
use lnsocket.Net.Stream.{Carries}
use lnsocket.State.{Lnsocket}
use lnsocket.Io.{World, >>=-eq_some}
use lnsocket.Message.{lnsocket_make_pong_from_ping}
use lnsocket.Message.PingPong.{pong_size, pong_bytes, decode_ping, make_pong_fits}
use lnsocket.Send.Untouched.{Untouched, lnsocket_write-Untouched}
use lnsocket.Send.Delivery.{Ready, write_delivers}
use lnsocket.Message.Init.{make_default_init}
use lnsocket.Receive.{lnsocket_read}
use lnsocket.Receive.Delivery.{after_read, after_read_same, body_net, body_net-Carries, read_steps}
use lnsocket.Session.{built, build_pong, lnsocket_pong, build_init, lnsocket_perform_init}

module _ (ext : Externals) (laws : AeadLaws ext.aead) where
  -- The socket with bytes written to a buffer on the stack.
  abbrev with_bytes : Lnsocket → Ptr → List ℕ → Lnsocket
  with_bytes ln a bytes = record ln { memory = store ln.memory a bytes }

  build_pong-fits :
      (ln : Lnsocket) (net : Net) (pong ping : Ptr) (ping_len n : ℕ)
      → 2 ≤ ping_len
      → IsU16 n
      → load ln.memory ping 2 ≡ be16_bytes n
      → build_pong ext pong ping ping_len (ln, net)
        ≡ (some (4 + pong_size n), (with_bytes ln pong (pong_bytes n), net))
  unfolding build_pong built lnsocket_make_pong_from_ping
  build_pong-fits ln net pong ping ping_len n room h asked =
      let small : (4 + pong_size n) % 2 ^ 16 ≡ 4 + pong_size n = omega arith in
      let some : (4 + pong_size n == 0) ≡ false = ground arith in
      rw
        (
          decode_ping ln.memory ping ping_len n h room asked,
          make_pong_fits ln.memory pong 0xffff n (omega arith),
          small,
          some,
        )
        refl

  -- To a ping payload that asks for `n` bytes, `lnsocket_pong` on an open socket, over a connection
  -- that takes everything, sends the packet of the pong for `n` bytes, if the message buffer has
  -- room for it and the buffer on the stack stands apart from it; and the state
  -- moves on to the next message.
  pub pong_replies :
      (ln : Lnsocket) (net : Net) (pong ping : Ptr) (ping_len n : ℕ)
      → 2 ≤ ping_len
      → IsU16 n
      → load ln.memory ping 2 ≡ be16_bytes n
      → Ready ext laws ln (4 + pong_size n)
      → net.limits ≡ []
      → (pong + 0xffff ≤ ln.msgbuf.start) ⊎ (ln.msgbuf.end ≤ pong)
      → (ln' : Lnsocket) × (lnsocket_pong ext pong ping ping_len (ln, net) ≡ (
        some tt,
        (ln', record net { sent = net.sent ++ packet ext.aead ln.crypto_state (pong_bytes n) }),
      ))
        × (ln'.crypto_state ≡ sent ext.hkdf ln.crypto_state)
  unfolding lnsocket_pong
  pong_replies ln net pong ping ping_len n room h asked ready free apart =
      let k : length (pong_bytes n) ≡ 4 + pong_size n =
        omega (arith, length-replicate {A = ℕ} (n - 4) 0) in
      let text = rw k at (load-store ln.memory pong (pong_bytes n)) in
      let o = ready.opened in
      let (ln', sends, moved) =
        write_delivers ext laws (with_bytes ln pong (pong_bytes n)) net pong (4 + pong_size n)
          (record { opened = o; room = ready.room }) free
          (elim apart [
            | inl lo ↦ inl (omega arith)
            | inr hi ↦ inr (inr (omega (arith, hi, ready.room)))
          ]) in
      (
        ln',
        >>=-eq_some (build_pong ext pong ping ping_len) _
              (build_pong-fits ln net pong ping ping_len n room h asked)
            ∙ rw text at sends,
        moved,
      )

  -- The default init message.
  abbrev pub our_init : List ℕ
  our_init = 0 ∷ 16 ∷ 0 ∷ 2 ∷ 0 ∷ 0 ∷ 0 ∷ 5 ∷ 0 ∷ 0 ∷ 0 ∷ 0 ∷ 0 ∷ []

  build_init-fits :
      (ln : Lnsocket) (net : Net) (buf : Ptr)
      → build_init ext buf (ln, net) ≡ (some 13, (with_bytes ln buf our_init, net))
  unfolding build_init built
  build_init-fits ln net buf = rw (make_default_init ln.memory buf 1024 (omega arith)) refl

  -- What the exchange leaves: the bytes of the stream behind the packet, and the socket as it was but
  -- for the memory and the state, which is behind a message in each direction.
  pub record Exchanged (ln : Lnsocket) (net : Net) (rest : List ℕ) (run : Option (Unit {0}) × World)
      : Type 0 where
    pub over : Lnsocket
    pub net_over : Net
    pub runs : run ≡ (some tt, (over, net_over))
    pub sent_all : net_over.sent ≡ net.sent ++ packet ext.aead ln.crypto_state our_init
    pub crypto_state : over.crypto_state ≡ sent ext.hkdf (received ext.hkdf ln.crypto_state)
    pub carries : Carries net_over.events rest
    pub free : net_over.limits ≡ []
    pub socket : over.socket ≡ ln.socket
    pub start : over.msgbuf.start ≡ ln.msgbuf.start
    pub end : over.msgbuf.end ≡ ln.msgbuf.end

  pub perform_init-Exchanged :
      (s : CryptoState) (ln : Lnsocket) (net : Net) (theirs rest : List ℕ) (buf : Ptr)
      → Mirrors s ln.crypto_state
      → IsU16 (length theirs)
      → ln.msgbuf.start + (length theirs + 16) + length theirs ≤ ln.msgbuf.end
      → Carries net.events (packet ext.aead s theirs ++ rest)
      → Ready ext laws ln 13
      → net.limits ≡ []
      → (buf + 13 ≤ ln.msgbuf.start) ⊎ (ln.msgbuf.end ≤ buf)
      → Exchanged ln net rest (lnsocket_perform_init ext buf (ln, net))
  unfolding lnsocket_perform_init rotate_receiver
  perform_init-Exchanged s ln net theirs rest buf v short room c ready free apart =
      let read : Lnsocket = after_read ext ln s theirs (body_of ext.aead s theirs) in
      let over : Net = body_net ext laws s ln net theirs rest in
      let (socket, start, stop, crypto) = after_read_same ext laws s ln net theirs rest in
      let opened : read.socket ≢ 0 = rw socket ready.opened in
      let room_for_ours : read.msgbuf.start + (13 + 34) ≤ read.msgbuf.end =
        omega (arith, start, stop, ready.room) in
      let text = load-store read.memory buf our_init in
      let (ln', sends, moved) =
        write_delivers ext laws (with_bytes read buf our_init) over buf 13
          (record { opened = opened; room = room_for_ours }) free
          (elim apart [
            | inl lo ↦ inl (omega (arith, start))
            | inr hi ↦ inr (inr (omega (arith, hi, start, ready.room)))
          ]) in
      let u : Untouched (with_bytes read buf our_init, over) (ln', _) =
        rw sends at (lnsocket_write-Untouched ext buf 13 (with_bytes read buf our_init, over)) in
      record {
        over = ln';
        net_over = _;
        runs =
            >>=-eq_some (lnsocket_read ext) _
              (read_steps ext laws s ln net theirs rest v short room c)
            ∙ >>=-eq_some (build_init ext buf) _ (build_init-fits read over buf)
            ∙ rw text at sends;
        sent_all = ap (λ (cs : CryptoState). net.sent ++ packet ext.aead cs our_init) crypto;
        crypto_state = moved ∙ ap (sent ext.hkdf) crypto;
        carries = body_net-Carries ext laws s ln net theirs rest c;
        free = free;
        socket = u.socket ∙ socket;
        start = u.start ∙ start;
        end = u.end ∙ stop;
      }

  -- The stream begins with the packet of a message of the side that the socket mirrors, and the
  -- message buffer has room to read it and to write ours. Then `lnsocket_perform_init` on an open
  -- socket, over a connection that takes everything, reads it and sends the packet of the default
  -- init message, if the buffer on the stack stands apart from the message buffer.
  pub perform_init_exchanges :
      (s : CryptoState) (ln : Lnsocket) (net : Net) (theirs rest : List ℕ) (buf : Ptr)
      → Mirrors s ln.crypto_state
      → IsU16 (length theirs)
      → ln.msgbuf.start + (length theirs + 16) + length theirs ≤ ln.msgbuf.end
      → Carries net.events (packet ext.aead s theirs ++ rest)
      → Ready ext laws ln 13
      → net.limits ≡ []
      → (buf + 13 ≤ ln.msgbuf.start) ⊎ (ln.msgbuf.end ≤ buf)
      → (ln' : Lnsocket) × (net' : Net) × (lnsocket_perform_init ext buf (ln, net)
          ≡ (some tt, (ln', net')))
        × (net'.sent ≡ net.sent ++ packet ext.aead ln.crypto_state our_init)
        × (ln'.crypto_state ≡ sent ext.hkdf (received ext.hkdf ln.crypto_state))
  perform_init_exchanges s ln net theirs rest buf v short room c ready free apart =
      let x = perform_init-Exchanged s ln net theirs rest buf v short room c ready free apart in
      (x.over, x.net_over, x.runs, x.sent_all, x.crypto_state)
