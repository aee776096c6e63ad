-- ===== src/Tests/Transport.antt =====
-- The transport at concrete inputs.
use lnsocket.Prelude.{
  ℕ, ◌*◌, ◌/◌, ◌%◌, ◌<◌, ◌≡◌, refl, inl, true, none, some, List, [], ◌∷◌, ◌++◌, arith, replicate,
}
use lnsocket.Memory.{zeroed, store, load}
use lnsocket.Crypto.{
  Secret, CryptoState, cryptomsg_encrypt_msg, cryptomsg_decrypt_header, cryptomsg_decrypt_body,
}
use lnsocket.Crypto.Transport.{Mirrors, body_of, packet, sent, decrypt-encrypt}
use lnsocket.Crypto.Rotation.{rotated, send_all, send_all_schedule}
use lnsocket.Net.{Net, Event}
use lnsocket.Net.Stream.{Carries}
use lnsocket.State.{Lnsocket, Side}
use lnsocket.Receive.{lnsocket_read}
use lnsocket.Receive.Delivery.{read_too_large}
use lnsocket.Receive.Messages.{packets, read_messages, read_messages-packets}
use lnsocket.Send.{lnsocket_write}
use lnsocket.Send.Delivery.{write_delivers}
use lnsocket.Tests.Toy.{toy, toy_aead, toy_aead_laws, toy_hkdf}

abbrev ck : Secret
ck = replicate 32 1

abbrev pub k : Secret
k = replicate 32 2

-- One state that mirrors itself.
abbrev pub crypto : CryptoState
crypto = record { rn = 0; sn = 0; sk = k; rk = k; s_ck = ck; r_ck = ck }

pub crypto-Mirrors : Mirrors crypto crypto
crypto-Mirrors = record { nonce = refl; key = refl; chaining_key = refl }

-- A connected socket whose message buffer has the addresses 1000 to 1079.
abbrev pub ln : Lnsocket
ln = record {
  memory = zeroed;
  mem = record { start = 0; p = 2000; end = 2000 };
  msgbuf = record { start = 1000; p = 1000; end = 1080 };
  errs = record { cur = record { start = 100; p = 100; end = 200 }; enabled = true };
  socket = 5;
  key = record { public = k; priv = k };
  handshake = record {
    ck = ck;
    temp_k = k;
    h = ck;
    e = record { public = k; priv = k };
    ss = k;
    re = k;
    act1 = record { v = 0; pubkey = []; tag = [] };
    act2 = record { v = 0; pubkey = []; tag = [] };
    act3 = record { v = 0; ciphertext = []; tag = [] };
    their_id = k;
    side = Side.initiator;
  };
  crypto_state = crypto;
}

abbrev pub hello : List ℕ
hello = 104 ∷ 101 ∷ 108 ∷ 108 ∷ 111 ∷ []

decrypt-encrypt_example :
    let e = cryptomsg_encrypt_msg toy_aead toy_hkdf crypto (store zeroed 500 hello) 500 5 1000 80 in
    (mid : CryptoState) × (end : CryptoState) × (e.done ≡ true)
    × (e.outlen ≡ 39)
    × (cryptomsg_decrypt_header toy_aead crypto (load e.mem 1000 18) ≡ (some 5, mid))
    × (cryptomsg_decrypt_body toy_aead toy_hkdf mid (load e.mem 1018 21) 5
        ≡ (some (load (store zeroed 500 hello) 500 5), end))
    × Mirrors e.state end
decrypt-encrypt_example =
    decrypt-encrypt toy_aead toy_aead_laws toy_hkdf crypto crypto (store zeroed 500 hello) 500 5
      1000 80 5 crypto-Mirrors (omega arith) (omega arith) (omega arith) (inl (omega arith))

send_all_schedule_example :
    let after = send_all toy_hkdf toy_aead 1000 80 crypto zeroed ((500, 5) ∷ (600, 7) ∷ []) in
    (after.sn ≡ 2 * (2 % 500))
    × (after.sn < 1000)
    × (◌≡◌ {A = Secret × Secret} (after.s_ck, after.sk) (rotated toy_hkdf (2 / 500) (ck, k)))
send_all_schedule_example =
    send_all_schedule toy_hkdf toy_aead 1000 80 crypto zeroed ((500, 5) ∷ (600, 7) ∷ []) refl
      (omega arith, (omega arith, tt))

-- The connection that has these bytes to read, and takes all that is written.
abbrev pub line : List Event → Net
line events = record { events = events; limits = []; sent = [] }

-- A socket at the other end sends two messages, in two pieces.
abbrev pub bye : List ℕ
bye = 98 ∷ 121 ∷ 101 ∷ []

abbrev pub in_two : List Event
in_two =
    Event.chunk (packet toy_aead crypto hello)
    ∷ Event.chunk (packet toy_aead (sent toy_hkdf crypto) bye)
    ∷ []

pub in_two-Carries :
    Carries in_two (packet toy_aead crypto hello ++ packets toy (sent toy_hkdf crypto) (bye ∷ []))
unfolding lnsocket.Tests.Toy.tag
in_two-Carries = Carries.more _ _ (Carries.more _ _ Carries.end)

in_two-packets : Carries in_two (packets toy crypto (hello ∷ bye ∷ []) ++ [])
unfolding lnsocket.Tests.Toy.tag
in_two-packets = Carries.more _ _ (Carries.more _ _ Carries.end)

abbrev long_msg : List ℕ
long_msg = replicate 40 9

abbrev in_long : List Event
in_long = Event.chunk (packet toy_aead crypto long_msg) ∷ []

in_long-Carries : Carries in_long (packet toy_aead crypto long_msg ++ [])
unfolding lnsocket.Tests.Toy.tag
in_long-Carries = Carries.more _ _ Carries.end

read_too_large_example :
    (ln' : Lnsocket) × (net' : Net) × (lnsocket_read toy (ln, line in_long) ≡ (none, (ln', net')))
    × Carries net'.events (body_of toy_aead crypto long_msg ++ [])
read_too_large_example =
    read_too_large toy toy_aead_laws crypto ln (line in_long) long_msg [] crypto-Mirrors
      (omega arith) (omega arith) (omega arith) in_long-Carries

read_messages-packets_example : read_messages toy 2 (ln, line in_two) ≡ hello ∷ bye ∷ []
read_messages-packets_example =
    read_messages-packets toy toy_aead_laws crypto ln (line in_two) (hello ∷ bye ∷ []) []
      crypto-Mirrors ((omega arith, omega arith), ((omega arith, omega arith), tt)) in_two-packets

write_delivers_example :
    (ln' : Lnsocket) × (lnsocket_write toy 500 5 (ln, line [])
      ≡ (some tt, (ln', record (line []) { sent = packet toy_aead crypto (load zeroed 500 5) })))
    × (ln'.crypto_state ≡ sent toy_hkdf crypto)
write_delivers_example =
    write_delivers toy toy_aead_laws ln (line []) 500 5
      (record { opened = omega arith; room = omega arith }) refl (inl (omega arith))
