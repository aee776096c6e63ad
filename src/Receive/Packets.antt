-- ===== src/Receive/Packets.antt =====
-- What `lnsocket_decrypt` and `lnsocket_decrypt_header`, the calls of the JavaScript binding, do to
-- memory.
use lnsocket.Prelude.{ℕ, ◌-◌, List, length}
use lnsocket.Cursor.{Cursor}
use lnsocket.Errors.{Note}
use lnsocket.Primitives.{Externals, AeadLaws}
use lnsocket.Io.{World, Io, ◌>>=◌, pure}
use lnsocket.Bounds.{IsSound, Keeps, and_then-Keeps, Anything, Confines-refl}
use lnsocket.Receive.{slice, decrypt_packet, lnsocket_decrypt}
use lnsocket.Receive.Confined.{slice-Keeps, decrypt_packet-Keeps}
use lnsocket.Send.Confined.{reset-Keeps}

module _ (ext : Externals) (laws : AeadLaws ext.aead) where
  pub lnsocket_decrypt-Keeps :
      (packet : List ℕ) (w : World) → IsSound w.0 → Keeps Anything w (lnsocket_decrypt ext packet w)
  unfolding lnsocket_decrypt
  lnsocket_decrypt-Keeps packet w s =
      let last : Cursor → Unit {0} → Io ℕ = λ dec _. pure (dec.end - dec.start) in
      let behind : Cursor → Io ℕ = λ dec. decrypt_packet ext packet dec >>= last dec in
      let room : Io Cursor = slice ext (length packet - 16) Note.out_of_memory_sizes in
      and_then-Keeps w _ (λ _. room >>= behind) (reset-Keeps ext w s)
        λ _ v k _.
          and_then-Keeps v _ behind
            (slice-Keeps ext (length packet - 16) Note.out_of_memory_sizes v k.sound)
            λ dec v1 k1 i.
              and_then-Keeps v1 _ (last dec)
                (decrypt_packet-Keeps ext laws packet dec v1 k1.sound i.0)
                λ _ v2 k2 _. record { confines = Confines-refl v2 k2.sound; post = λ a e. tt }
