-- ===== src/Send/Confined.antt =====
-- What `lnsocket_encrypt` and `lnsocket_write` do to memory.
use lnsocket.Prelude.{ℕ, ◌+◌, ◌-◌, ◌≤◌, ◌==◌, refl, Option, none, some, List, arith, leb}
use lnsocket.Memory.{Ptr, load}
use lnsocket.Cursor.{reset_cursor}
use lnsocket.Errors.{Note}
use lnsocket.Primitives.{Externals, AeadLaws}
use lnsocket.Crypto.Transport.{sent, output, length-output, encrypt_fits}
use lnsocket.Net.{Net, write}
use lnsocket.Io.{World, reset_msgbuf}
use lnsocket.Bounds.{
  IsSound, Confines-refl, Confines-trans, Confines-memory, net-Confines, state-Confines, Keeps,
  and_then-Keeps, Anything, either, fail-Keeps, failed-Keeps,
}
use lnsocket.Send.{
  socket_open, room_for_output, encrypt_to_msgbuf, lnsocket_encrypt, written, write_msgbuf,
  lnsocket_write,
}

module _ (ext : Externals) where
  socket_open-Keeps : (w : World) → IsSound w.0 → Keeps Anything w (socket_open ext w)
  unfolding socket_open
  socket_open-Keeps w s =
      either (Keeps Anything w) (w.0.socket == 0) (fail-Keeps ext Anything Note.not_connected w s)
        (record { confines = Confines-refl w s; post = λ a e. tt })

  room_for_output-Keeps : (w : World) → IsSound w.0 → Keeps Anything w (room_for_output ext w)
  unfolding room_for_output
  room_for_output-Keeps w s =
      either (Keeps Anything w) (leb w.0.msgbuf.end w.0.msgbuf.start)
        (fail-Keeps ext Anything Note.out_of_memory w s)
        (record { confines = Confines-refl w s; post = λ a e. tt })

  encrypt_to_msgbuf-Keeps :
      AeadLaws ext.aead
      → (msg : Ptr) (mlen : ℕ) (w : World) → IsSound w.0
      → w.0.msgbuf.start + (mlen + 34) ≤ w.0.msgbuf.end
      → Keeps Anything w (encrypt_to_msgbuf ext msg mlen w)
  unfolding encrypt_to_msgbuf
  encrypt_to_msgbuf-Keeps laws msg mlen w s room =
      let out : Ptr = w.0.msgbuf.start in
      let bytes : List ℕ = output ext.aead w.0.crypto_state w.0.memory msg mlen out in
      let n = length-output ext.aead laws ext.hkdf w.0.crypto_state w.0.memory msg mlen out in
      rw
        (encrypt_fits ext.aead ext.hkdf w.0.crypto_state w.0.memory msg mlen out
          (w.0.msgbuf.end - out) (omega (arith, room)))
        (record {
          confines =
              let k = Confines-memory w out bytes s (omega arith) (omega (arith, room, n)) in
              Confines-trans w _ _ k (state-Confines _ (sent ext.hkdf w.0.crypto_state) k.sound);
          post = λ a e. tt;
        })

  written-Keeps :
      (outlen : ℕ) (w : World) (r : Option ℕ × Net)
      → IsSound w.0
      → Keeps Anything w (written ext outlen w.0 r)
  unfolding written
  written-Keeps outlen w (none, net) s =
      failed-Keeps ext Anything Note.write_failed w (w.0, net) (net-Confines w net s)
  written-Keeps outlen w (some n, net) s =
      either (Keeps Anything w) (n == outlen)
        (record { confines = net-Confines w net s; post = λ a e. tt })
        (failed-Keeps ext Anything Note.write_failed w (w.0, net) (net-Confines w net s))

  write_msgbuf-Keeps :
      (outlen : ℕ) (w : World) → IsSound w.0 → Keeps Anything w (write_msgbuf ext outlen w)
  unfolding write_msgbuf
  write_msgbuf-Keeps outlen w s =
      written-Keeps outlen w (write w.1 (load w.0.memory w.0.msgbuf.start outlen)) s

  pub reset-Keeps :
      (w : World) → IsSound w.0 → Keeps {A = Unit {0}} Anything w (some tt, (reset_msgbuf w.0, w.1))
  unfolding reset_cursor
  reset-Keeps w s =
      let a = s.msgbuf.low in
      let b = s.msgbuf.high in
      record {
        confines = record {
          sound = record {
            msgbuf = record { low = omega arith; high = omega (arith, a, b) };
            errs = s.errs;
          };
          start = refl;
          end = refl;
          errs_start = refl;
          errs_end = refl;
          same = λ x _ _. refl;
        };
        post = λ a e. tt;
      }

  pub lnsocket_encrypt-Keeps :
      AeadLaws ext.aead
      → (msg : Ptr) (mlen : ℕ) (w : World) → IsSound w.0
      → w.0.msgbuf.start + (mlen + 34) ≤ w.0.msgbuf.end
      → Keeps Anything w (lnsocket_encrypt ext msg mlen w)
  unfolding lnsocket_encrypt
  lnsocket_encrypt-Keeps laws msg mlen w s room = and_then-Keeps w _ _ (reset-Keeps w s) λ _ v k _.
      and_then-Keeps v _ _ (socket_open-Keeps v k.sound) λ _ v1 k1 _.
        and_then-Keeps v1 _ (λ _. encrypt_to_msgbuf ext msg mlen)
          (room_for_output-Keeps v1 k1.sound)
          λ _ v2 k2 _.
            encrypt_to_msgbuf-Keeps laws msg mlen v2 k2.sound
              (ground (arith, room, k.start, k1.start, k2.start, k.end, k1.end, k2.end))

  -- `lnsocket_write` of a message with room in the buffer for its packet, on a socket whose cursors
  -- stand in their regions, keeps them there, keeps the ends of the regions, and leaves every byte
  -- outside the message buffer and the error log, whatever the connection does.
  pub lnsocket_write-Keeps :
      AeadLaws ext.aead
      → (msg : Ptr) (mlen : ℕ) (w : World) → IsSound w.0
      → w.0.msgbuf.start + (mlen + 34) ≤ w.0.msgbuf.end
      → Keeps Anything w (lnsocket_write ext msg mlen w)
  unfolding lnsocket_write
  lnsocket_write-Keeps laws msg mlen w s room =
      and_then-Keeps w _ (write_msgbuf ext) (lnsocket_encrypt-Keeps laws msg mlen w s room)
        λ outlen v k _. write_msgbuf-Keeps outlen v k.sound
