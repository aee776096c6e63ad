-- ===== src/Receive/Payload.antt =====
-- What `lnsocket_recv` does to memory, and where its payload lies.
use lnsocket.Prelude.{
  ℕ, ◌+◌, ◌-◌, ◌≤◌, ◌≡◌, inl, inr, Option, none, some, arith, Bool-cases, ltb, ltb→le,
}
use lnsocket.Memory.{Ptr}
use lnsocket.Cursor.{Buffer, make_cursor, cursor_pull_u16}
use lnsocket.Cursor.Pull.{cursor_pull_u16-Forward}
use lnsocket.Errors.{Note}
use lnsocket.Primitives.{Externals, AeadLaws}
use lnsocket.State.{Lnsocket}
use lnsocket.Io.{World}
use lnsocket.Bounds.{IsSound, Confines-refl, Keeps, and_then-Keeps, fail-Keeps}
use lnsocket.Receive.{received_type, pull_type, lnsocket_recv}
use lnsocket.Receive.Confined.{MessageInside, lnsocket_read-Keeps}

module _ (ext : Externals) where
  abbrev pub PayloadInside : ℕ × Ptr × ℕ → Lnsocket → Type 0
  PayloadInside (_, ptr, len) ln = (ln.msgbuf.start ≤ ptr) × (ptr + len ≤ ln.msgbuf.end)

  received_type-Keeps :
      (msg : Ptr) (msglen : ℕ) (w : World) (r : Option ℕ × Buffer)
      → IsSound w.0
      → MessageInside ext (msg, msglen) w.0
      → r.1.cur.end ≡ msg + msglen
      → msg ≤ r.1.cur.p
      → Keeps PayloadInside w (received_type ext msglen w.0 w.1 r)
  unfolding received_type
  received_type-Keeps msg msglen w (none, cur) s i e f =
      fail-Keeps ext PayloadInside Note.could_not_read_msgtype w s
  received_type-Keeps msg msglen w (some t, cur) s (low, high) e f =
      elim (Bool-cases (ltb cur.cur.end (cur.cur.p + (msglen - 2)))) [
        | inl over ↦ rw over (fail-Keeps ext PayloadInside Note.recv_buffer_overflow w s)
        | inr room ↦ rw room (record {
          confines = Confines-refl w s;
          post = λ a h.
              let is : ◌≡◌ {A = ℕ × Ptr × ℕ} (t, cur.cur.p, msglen - 2) a = cc in
              let k = ltb→le _ _ room in
              rw (← is) (omega (arith, low, f), omega (arith, high, k, e));
        })
      ]

  pull_type-Keeps :
      (msg : Ptr × ℕ) (w : World)
      → IsSound w.0
      → MessageInside ext msg w.0
      → Keeps PayloadInside w (pull_type ext msg w)
  unfolding pull_type make_cursor
  pull_type-Keeps (msg, msglen) w s i =
      let b : Buffer = record { mem = w.0.memory; cur = make_cursor msg (msg + msglen) } in
      let f = cursor_pull_u16-Forward b in
      received_type-Keeps msg msglen w (cursor_pull_u16 b) s i f.same_end f.forward

  -- Whatever comes on the connection, and whether it succeeds or not, `lnsocket_recv` on a socket
  -- whose cursors stand in their regions keeps them there, keeps the ends of the regions, and leaves
  -- every byte outside the message buffer and the error log; and the payload that it gives lies in
  -- the message buffer.
  pub lnsocket_recv-Keeps :
      AeadLaws ext.aead → (w : World) → IsSound w.0 → Keeps PayloadInside w (lnsocket_recv ext w)
  unfolding lnsocket_recv
  lnsocket_recv-Keeps laws w s =
      and_then-Keeps w _ (pull_type ext) (lnsocket_read-Keeps ext laws w s)
        λ msg v k i. pull_type-Keeps msg v k.sound i
