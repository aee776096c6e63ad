-- ===== src/Rpc/Ending.antt =====
-- The end of the loop of lnrpc.c.
use lnsocket.Prelude.{
  ℕ, ◌*◌, ◌<◌, ◌≡◌, refl, ap, true, false, Bool, some, none, Option, List, [], ◌∷◌, arith, length,
}
use lnsocket.Memory.{Memory, Ptr}
use lnsocket.Primitives.{Externals}
use lnsocket.Net.Weight.{weight}
use lnsocket.Io.{World}
use lnsocket.Receive.{lnsocket_recv}
use lnsocket.Receive.Progress.{lnsocket_recv-takes}
use lnsocket.Send.Untouched.{Untouched, Untouched-refl}
use lnsocket.Connect.{Selected, ready, timed_out, select_failed}
use lnsocket.Rpc.{
  Reply, term, continues, ping, other, Outcome, answer_ping, dispatch, received, reply_loop,
}
use lnsocket.Session.Untouched.{lnsocket_pong-Untouched}

module _ (ext : Externals) (stack_string : Memory → Ptr → List ℕ) where
  -- The loop was left.
  abbrev pub IsOver : Outcome → Type 0
  IsOver r = (ok : Bool) × (r.ok ≡ some ok)

  dispatch-IsOver :
      (pong buf : Ptr) (r : Reply) (len : ℕ) (w : World) (more : World → Outcome)
      → ((v : World) → Untouched w v → IsOver (more v))
      → IsOver (dispatch ext stack_string pong r buf len w more)
  unfolding dispatch answer_ping
  dispatch-IsOver pong buf term len w more k = (true, refl)
  dispatch-IsOver pong buf continues len w more k = k w (Untouched-refl w)
  dispatch-IsOver pong buf ping len w more k = k _ (lnsocket_pong-Untouched ext pong buf len w)
  dispatch-IsOver pong buf other len w more k = k w (Untouched-refl w)

  received-IsOver :
      (pong : Ptr) (r : Option (ℕ × Ptr × ℕ) × World) (more : World → Outcome)
      → ((m : ℕ × Ptr × ℕ) (w v : World) → r ≡ (some m, w) → Untouched w v → IsOver (more v))
      → IsOver (received ext stack_string pong r more)
  unfolding received
  received-IsOver pong (none, w) more k = (false, refl)
  received-IsOver pong (some (msgtype, buf, len), w) more k =
      dispatch-IsOver pong buf _ len w more (λ v u. k (msgtype, buf, len) w v refl u)

  -- Whatever comes on the connection, the loop of lnrpc.c is left, with success or with failure,
  -- where there are `n` answers of `select` and `18 * n` is more than the bytes that are still to
  -- come: each message takes the bytes of a header at least.
  pub reply_loop-IsOver :
      (pong : Ptr) (selects : List Selected) (w : World)
      → weight w.1.events < 18 * length selects
      → IsOver (reply_loop ext stack_string pong selects w)
  unfolding reply_loop
  reply_loop-IsOver pong [] w h = absurd (omega arith)
  reply_loop-IsOver pong (select_failed ∷ selects) w h = (false, refl)
  reply_loop-IsOver pong (timed_out ∷ selects) w h = (false, refl)
  reply_loop-IsOver pong (ready ∷ selects) w h =
      received-IsOver pong (lnsocket_recv ext w) _ (λ m u v e same.
        let taken = lnsocket_recv-takes ext w u m e in
        let events : weight v.1.events ≡ weight u.1.events = ap weight same.events in
        reply_loop-IsOver pong selects v (omega arith))
