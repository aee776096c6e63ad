-- ===== src/Send/Pushed.antt =====
-- What `lnsocket_send` does to memory.
use lnsocket.Prelude.{
  ℕ, ◌+◌, ◌-◌, ◌^◌, ◌%◌, ◌≤◌, ◌<◌, ◌∙◌, inl, inr, refl, Bool, true, false, List, arith,
}
use lnsocket.Cursor.{Buffer, cursor_push, cursor_push_u16}
use lnsocket.Cursor.Push.{Within, cursor_push-Pushes, cursor_push_u16-Pushes}
use lnsocket.Errors.{Note}
use lnsocket.Primitives.{Externals, AeadLaws}
use lnsocket.Io.{World, with_buffer, buffer_of}
use lnsocket.Bounds.{IsSound, Confines, Keeps, and_then-Keeps, Anything, failed-Keeps}
use lnsocket.Send.{pushed, push_msgbuf, write_pushed, lnsocket_send}
use lnsocket.Send.Confined.{reset-Keeps, lnsocket_write-Keeps}

room_kept :
    (start end mlen : ℕ) → mlen < 2 ^ 16 → start + (2 ^ 16 + 34) ≤ end → start + (mlen + 34) ≤ end
room_kept start end mlen small room = omega (arith, small, room)

module _ (ext : Externals) where
  pushed_buffer-Confines :
      (w : World) (b : Buffer)
      → IsSound w.0
      → Within (buffer_of w.0) b
      → Confines w (with_buffer w.0 b, w.1)
  pushed_buffer-Confines w b s v =
      let low = s.msgbuf.low in
      let high = s.msgbuf.high in
      record {
        sound = record {
          msgbuf = record {
            low = ground (arith, v.same_start, v.forward);
            high = ground (arith, v.same_end, v.inside);
          };
          errs = s.errs;
        };
        start = v.same_start;
        end = v.same_end;
        errs_start = refl;
        errs_end = refl;
        same = λ x out _. elim out [
          | inl below ↦ v.below x (omega (arith, low, below))
          | inr above ↦ v.above x above
        ];
      }

  pushed-Keeps :
      (n : Note) (w : World) (r : Bool × Buffer)
      → IsSound w.0
      → Within (buffer_of w.0) r.1
      → Keeps Anything w (pushed ext n w.0 w.1 r)
  unfolding pushed
  pushed-Keeps n w (true, b) s v = record {
    confines = pushed_buffer-Confines w b s v;
    post = λ a e. tt;
  }
  pushed-Keeps n w (false, b) s v = failed-Keeps ext Anything n w _ (pushed_buffer-Confines w b s v)

  push_msgbuf-Keeps :
      (f : Buffer → Bool × Buffer) (n : Note) (w : World)
      → ((b : Buffer) → b.cur.p ≤ b.cur.end → Within b (f b).1)
      → IsSound w.0
      → Keeps Anything w (push_msgbuf ext f n w)
  unfolding push_msgbuf
  push_msgbuf-Keeps f n w safe s =
      pushed-Keeps n w (f (buffer_of w.0)) s (safe (buffer_of w.0) s.msgbuf.high)

  -- Whatever its payload, `lnsocket_send` on a socket whose cursors stand in their regions keeps them
  -- there, keeps the ends of the regions, and leaves every byte outside the message buffer and the error
  -- log, where the message buffer has room for the packet of the longest message.
  pub lnsocket_send-Keeps :
      AeadLaws ext.aead
      → (msg_type : ℕ) (payload : List ℕ) (w : World) → IsSound w.0
      → w.0.msgbuf.start + (2 ^ 16 + 34) ≤ w.0.msgbuf.end
      → Keeps Anything w (lnsocket_send ext msg_type payload w)
  unfolding lnsocket_send write_pushed
  lnsocket_send-Keeps laws msg_type payload w s room =
      and_then-Keeps w _ _ (reset-Keeps ext w s) λ _ v k _.
        and_then-Keeps v _ _
          (push_msgbuf-Keeps (cursor_push_u16 msg_type) Note.could_not_write_type v
            (cursor_push_u16-Pushes msg_type).safe k.sound)
          λ _ v1 k1 _.
            and_then-Keeps v1 _ _
              (push_msgbuf-Keeps (cursor_push payload) Note.payload_too_big v1
                (cursor_push-Pushes payload).safe k1.sound)
              λ _ v2 k2 _.
                let mlen : ℕ = (v2.0.msgbuf.p - v2.0.msgbuf.start) % 2 ^ 16 in
                let small : mlen < 2 ^ 16 = omega arith in
                lnsocket_write-Keeps ext laws v2.0.msgbuf.start mlen v2 k2.sound (
                  room_kept v2.0.msgbuf.start v2.0.msgbuf.end mlen small
                    (rw (k2.start ∙ k1.start ∙ k.start, k2.end ∙ k1.end ∙ k.end) room))
