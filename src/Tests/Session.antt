-- ===== src/Tests/Session.antt =====
-- The life of a socket at concrete inputs.
use lnsocket.Prelude.{◌+◌, ◌≡◌, refl, true, some, [], ◌∷◌, ◌++◌, arith, inr}
use lnsocket.Prelude.Bytes.{be16_bytes}
use lnsocket.Memory.{zeroed, store, load-store}
use lnsocket.Crypto.Transport.{packet, sent, received}
use lnsocket.Net.{Net}
use lnsocket.State.{Lnsocket}
use lnsocket.Message.PingPong.{pong_bytes}
use lnsocket.Receive.Messages.{packets}
use lnsocket.Session.{zero_key, lnsocket_create, lnsocket_pong, lnsocket_perform_init}
use lnsocket.Session.Creation.{lnsocket_create-some}
use lnsocket.Session.Dialogue.{our_init, pong_replies, perform_init_exchanges}
use lnsocket.Tests.Toy.{toy, toy_aead, toy_aead_laws, toy_hkdf}
use lnsocket.Tests.Transport.{ln, line, crypto, crypto-Mirrors, hello, bye, in_two, in_two-Carries}

lnsocket_create-some_example :
    (new : Lnsocket) × (lnsocket_create 2000 zeroed (some 10000) ≡ some new)
    × (new.msgbuf ≡ record { start = 12000; p = 12000; end = 143072 })
    × (new.errs.cur
        ≡ record { start = new.msgbuf.end; p = new.msgbuf.end; end = new.msgbuf.end + 4096 })
    × (new.mem ≡ record { start = 10000; p = new.errs.cur.end; end = new.errs.cur.end })
    × (new.errs.enabled ≡ true)
    × (new.socket ≡ 0)
    × (new.key ≡ zero_key)
lnsocket_create-some_example = lnsocket_create-some 2000 zeroed 10000

-- A ping payload at 500 that asks for six bytes.
abbrev pinged : Lnsocket
pinged = record ln { memory = store zeroed 500 (be16_bytes 6) }

pong_replies_example :
    (ln' : Lnsocket) × (lnsocket_pong toy 2000 500 2 (pinged, line [])
      ≡ (some tt, (ln', record (line []) { sent = packet toy_aead crypto (pong_bytes 6) })))
    × (ln'.crypto_state ≡ sent toy_hkdf crypto)
pong_replies_example =
    pong_replies toy toy_aead_laws pinged (line []) 2000 500 2 6 (omega arith) (omega arith)
      (load-store zeroed 500 (be16_bytes 6)) (record { opened = omega arith; room = omega arith })
      refl (inr (omega arith))

perform_init_exchanges_example :
    (ln' : Lnsocket) × (net' : Net) × (lnsocket_perform_init toy 2000 (ln, line in_two)
      ≡ (some tt, (ln', net')))
    × (net'.sent ≡ [] ++ packet toy_aead crypto (our_init toy toy_aead_laws))
    × (ln'.crypto_state ≡ sent toy_hkdf (received toy_hkdf crypto))
perform_init_exchanges_example =
    perform_init_exchanges toy toy_aead_laws crypto ln (line in_two) hello
      (packets toy (sent toy_hkdf crypto) (bye ∷ [])) 2000 crypto-Mirrors (omega arith)
      (omega arith) in_two-Carries (record { opened = omega arith; room = omega arith }) refl
      (inr (omega arith))
