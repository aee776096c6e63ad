-- ===== src/Send/Untouched.antt =====
-- What sending does to the receiving half of the socket.
use lnsocket.Prelude.{
  ℕ, ◌-◌, ◌≡◌, refl, ◌∙◌, some, none, List, [], ◌∷◌, ◌==◌, Option, arith, Bool-cases, inl, inr, leb,
  ltb,
}
use lnsocket.Memory.{Ptr, load}
use lnsocket.Cursor.{reset_cursor}
use lnsocket.Errors.{Note}
use lnsocket.Primitives.{Externals}
use lnsocket.Crypto.{cryptomsg_encrypt_msg, rotate_sender}
use lnsocket.Net.{Net, limited, write}
use lnsocket.State.{note}
use lnsocket.Io.{World, Io, fail, reset_msgbuf, and_then, ◌>>◌}
use lnsocket.Send.{
  socket_open, room_for_output, encrypt_to_msgbuf, lnsocket_encrypt, written, write_msgbuf,
  lnsocket_write,
}

-- What `lnsocket_read` depends on is the same in both worlds, but for the memory.
pub record Untouched (w v : World) : Type 0 where
  pub events : v.1.events ≡ w.1.events
  pub socket : v.0.socket ≡ w.0.socket
  pub rn : v.0.crypto_state.rn ≡ w.0.crypto_state.rn
  pub rk : v.0.crypto_state.rk ≡ w.0.crypto_state.rk
  pub r_ck : v.0.crypto_state.r_ck ≡ w.0.crypto_state.r_ck
  pub start : v.0.msgbuf.start ≡ w.0.msgbuf.start
  pub end : v.0.msgbuf.end ≡ w.0.msgbuf.end

pub Untouched-refl : (w : World) → Untouched w w
Untouched-refl w = record {
  events = refl;
  socket = refl;
  rn = refl;
  rk = refl;
  r_ck = refl;
  start = refl;
  end = refl;
}

pub Untouched-trans : (u v w : World) → Untouched u v → Untouched v w → Untouched u w
Untouched-trans u v w a b = record {
  events = b.events ∙ a.events;
  socket = b.socket ∙ a.socket;
  rn = b.rn ∙ a.rn;
  rk = b.rk ∙ a.rk;
  r_ck = b.r_ck ∙ a.r_ck;
  start = b.start ∙ a.start;
  end = b.end ∙ a.end;
}

module _ {A B : Type 0} where
  pub and_then-Untouched :
      (r : Option A × World) (f : A → Io B) (w : World)
      → Untouched w r.1
      → ((a : A) (v : World) → Untouched v (f a v).1)
      → Untouched w (and_then r f).1
  and_then-Untouched (none, v) f w h k = h
  and_then-Untouched (some a, v) f w h k = Untouched-trans w v (f a v).1 h (k a v)

limited-events :
    (limits : List (Option ℕ)) (net : Net) (bytes : List ℕ)
    → (limited limits net bytes).1.events ≡ net.events
unfolding limited
limited-events [] net bytes = refl
limited-events (none ∷ limits) net bytes = refl
limited-events (some k ∷ limits) net bytes = ground arith

module _ (ext : Externals) where
  fail-Untouched : (n : Note) (w : World) → Untouched w (fail ext {A = Unit {0}} n w).1
  unfolding note
  fail-Untouched n w = record {
    events = refl;
    socket = refl;
    rn = refl;
    rk = refl;
    r_ck = refl;
    start = refl;
    end = refl;
  }

  socket_open-Untouched : (w : World) → Untouched w (socket_open ext w).1
  unfolding socket_open
  socket_open-Untouched w = elim (Bool-cases (w.0.socket == 0)) [
    | inl closed ↦ rw closed (fail-Untouched Note.not_connected w)
    | inr opened ↦ rw opened (Untouched-refl w)
  ]

  room_for_output-Untouched : (w : World) → Untouched w (room_for_output ext w).1
  unfolding room_for_output
  room_for_output-Untouched w = elim (Bool-cases (leb w.0.msgbuf.end w.0.msgbuf.start)) [
    | inl full ↦ rw full (fail-Untouched Note.out_of_memory w)
    | inr room ↦ rw room (Untouched-refl w)
  ]

  encrypt_to_msgbuf-Untouched :
      (msg : Ptr) (msglen : ℕ) (w : World) → Untouched w (encrypt_to_msgbuf ext msg msglen w).1
  unfolding encrypt_to_msgbuf cryptomsg_encrypt_msg rotate_sender
  encrypt_to_msgbuf-Untouched msg msglen w =
      elim (Bool-cases (ltb (w.0.msgbuf.end - w.0.msgbuf.start) msglen)) [
        | inl large ↦ rw large (fail-Untouched Note.encrypt_failed w)
        | inr fits ↦ rw fits (record {
          events = refl;
          socket = refl;
          rn = refl;
          rk = refl;
          r_ck = refl;
          start = refl;
          end = refl;
        })
      ]

  pub lnsocket_encrypt-Untouched :
      (msg : Ptr) (msglen : ℕ) (w : World) → Untouched w (lnsocket_encrypt ext msg msglen w).1
  unfolding lnsocket_encrypt reset_cursor
  lnsocket_encrypt-Untouched msg msglen w =
      Untouched-trans w (reset_msgbuf w.0, w.1) _
        (record {
          events = refl;
          socket = refl;
          rn = refl;
          rk = refl;
          r_ck = refl;
          start = refl;
          end = refl;
        })
        (and_then-Untouched (socket_open ext (reset_msgbuf w.0, w.1))
          (λ _. room_for_output ext >> encrypt_to_msgbuf ext msg msglen) _ (socket_open-Untouched _)
          (λ _ v.
            and_then-Untouched (room_for_output ext v) (λ _. encrypt_to_msgbuf ext msg msglen) v
              (room_for_output-Untouched v) (λ _ u. encrypt_to_msgbuf-Untouched msg msglen u)))

  written-Untouched :
      (outlen : ℕ) (w : World) (r : Option ℕ × Net)
      → r.1.events ≡ w.1.events
      → Untouched w (written ext outlen w.0 r).1
  unfolding written note
  written-Untouched outlen w (none, net) e = record {
    events = e;
    socket = refl;
    rn = refl;
    rk = refl;
    r_ck = refl;
    start = refl;
    end = refl;
  }
  written-Untouched outlen w (some n, net) e = elim (Bool-cases (n == outlen)) [
    | inl whole ↦ rw whole (record {
      events = e;
      socket = refl;
      rn = refl;
      rk = refl;
      r_ck = refl;
      start = refl;
      end = refl;
    })
    | inr part ↦ rw part (record {
      events = e;
      socket = refl;
      rn = refl;
      rk = refl;
      r_ck = refl;
      start = refl;
      end = refl;
    })
  ]

  write_msgbuf-Untouched : (outlen : ℕ) (w : World) → Untouched w (write_msgbuf ext outlen w).1
  unfolding write_msgbuf write
  write_msgbuf-Untouched outlen w =
      written-Untouched outlen w _
        (limited-events w.1.limits w.1 (load w.0.memory w.0.msgbuf.start outlen))

  -- `lnsocket_write` leaves what is to be read, the receiving keys and nonce, the descriptor, and the bounds of the buffer.
  pub lnsocket_write-Untouched :
      (msg : Ptr) (msglen : ℕ) (w : World) → Untouched w (lnsocket_write ext msg msglen w).1
  unfolding lnsocket_write
  lnsocket_write-Untouched msg msglen w =
      and_then-Untouched (lnsocket_encrypt ext msg msglen w) (write_msgbuf ext) w
        (lnsocket_encrypt-Untouched msg msglen w) (λ outlen v. write_msgbuf-Untouched outlen v)
