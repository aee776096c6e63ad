-- ===== src/Session/Untouched.antt =====
-- What the answer to a ping does to the receiving half of the socket.
use lnsocket.Prelude.{ℕ, refl, ◌==◌, ◌%◌, ◌^◌, Bool-cases, inl, inr}
use lnsocket.Memory.{Memory, Ptr}
use lnsocket.Primitives.{Externals}
use lnsocket.Io.{World}
use lnsocket.Message.{lnsocket_make_pong_from_ping}
use lnsocket.Send.{lnsocket_write}
use lnsocket.Send.Untouched.{Untouched, and_then-Untouched, lnsocket_write-Untouched}
use lnsocket.Session.{built, build_pong, lnsocket_pong}

module _ (ext : Externals) where
  same_reading : (w : World) (m : Memory) → Untouched w (record w.0 { memory = m }, w.1)
  same_reading w m = record {
    events = refl;
    socket = refl;
    rn = refl;
    rk = refl;
    r_ck = refl;
    start = refl;
    end = refl;
  }

  build_pong-Untouched :
      (pong buf : Ptr) (len : ℕ) (w : World) → Untouched w (build_pong ext pong buf len w).1
  unfolding build_pong built
  build_pong-Untouched pong buf len w =
      let r : ℕ × Memory = lnsocket_make_pong_from_ping w.0.memory pong 0xffff buf len in
      elim (Bool-cases (r.0 % 2 ^ 16 == 0)) [
        | inl empty ↦ rw empty (same_reading w r.1)
        | inr full ↦ rw full (same_reading w r.1)
      ]

  pub lnsocket_pong-Untouched :
      (pong buf : Ptr) (len : ℕ) (w : World) → Untouched w (lnsocket_pong ext pong buf len w).1
  unfolding lnsocket_pong
  lnsocket_pong-Untouched pong buf len w =
      and_then-Untouched (build_pong ext pong buf len w) (lnsocket_write ext pong) w
        (build_pong-Untouched pong buf len w) (λ n v. lnsocket_write-Untouched ext pong n v)
