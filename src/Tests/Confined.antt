-- ===== src/Tests/Confined.antt =====
-- Receiving and sending at concrete inputs: what is accepted, and what is written.
use lnsocket.Prelude.{◌+◌, [], ◌∷◌, arith, length}
use lnsocket.Crypto.Transport.{sent, body_of}
use lnsocket.Net.{Event}
use lnsocket.Bounds.{IsSound, Keeps}
use lnsocket.Receive.{lnsocket_recv}
use lnsocket.Receive.Delivery.{after_read, body_net, read_steps}
use lnsocket.Receive.Messages.{packets}
use lnsocket.Receive.Authentic.{Authentic, lnsocket_read-Authentic}
use lnsocket.Receive.Payload.{PayloadInside, lnsocket_recv-Keeps}
use lnsocket.Tests.Toy.{toy, toy_aead, toy_aead_laws, toy_hkdf}
use lnsocket.Tests.Transport.{ln, line, crypto, crypto-Mirrors, hello, bye, in_two, in_two-Carries}

lnsocket_read-Authentic_example :
    Authentic toy
      (ln, line in_two)
      (1000 + (length hello + 16))
      5
      (
        after_read toy ln crypto hello (body_of toy_aead crypto hello),
        body_net toy toy_aead_laws crypto ln
            (line in_two)
            hello
            (packets toy (sent toy_hkdf crypto) (bye ∷ [])),
      )
lnsocket_read-Authentic_example =
    lnsocket_read-Authentic toy toy_aead_laws (ln, line in_two) _ (1000 + (length hello + 16)) 5
      (read_steps toy toy_aead_laws crypto ln (line in_two) hello
        (packets toy (sent toy_hkdf crypto) (bye ∷ [])) crypto-Mirrors (omega arith) (omega arith)
        in_two-Carries)

ln-IsSound : IsSound ln
ln-IsSound = record {
  msgbuf = record { low = omega arith; high = omega arith };
  errs = record { low = omega arith; high = omega arith };
}

-- A stream of garbage.
lnsocket_recv-Keeps_example :
    Keeps
      (PayloadInside toy)
      (ln, line (Event.chunk (1 ∷ 2 ∷ 3 ∷ []) ∷ Event.failed ∷ []))
      (lnsocket_recv toy (ln, line (Event.chunk (1 ∷ 2 ∷ 3 ∷ []) ∷ Event.failed ∷ [])))
lnsocket_recv-Keeps_example = lnsocket_recv-Keeps toy toy_aead_laws (ln, line _) ln-IsSound
