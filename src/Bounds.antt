-- ===== src/Bounds.antt =====
-- Operations on a socket that write only inside its message buffer and its error log, whether they
-- succeed or not.
pub mod Quiet
use lnsocket.Prelude.{
  ℕ, ◌≤◌, ◌<◌, ◌≡◌, ◌⊎◌, inl, inr, refl, ◌∙◌, Option, none, some, List, arith, Bool, true, false,
  if◌then◌else◌, length, ◌+◌, lt→ltb,
}
use lnsocket.Memory.{Memory, Ptr, store, store_below, store_above}
use lnsocket.Cursor.{Cursor, cursor_push_c_str}
use lnsocket.Cursor.Push.{Within, cursor_push_c_str-Pushes}
use lnsocket.Errors.{Errors, Note, Overrun, fmt_buf_size, cursor_push_error, note_error}
use lnsocket.Primitives.{Externals}
use lnsocket.Crypto.{CryptoState}
use lnsocket.Net.{Net}
use lnsocket.State.{Lnsocket, note}
use lnsocket.Io.{World, Io, and_then, fail}

-- A cursor stands in its region.
pub record Stands (c : Cursor) : Type 0 where
  pub low : c.start ≤ c.p
  pub high : c.p ≤ c.end

pub record IsSound (ln : Lnsocket) : Type 0 where
  pub msgbuf : Stands ln.msgbuf
  pub errs : Stands ln.errs.cur

abbrev pub Outside : Cursor → Ptr → Type 0
Outside c x = (x < c.start) ⊎ (c.end ≤ x)

-- `w` is the world before and `v` the one behind.
pub record Confines (w v : World) : Type 0 where
  pub sound : IsSound v.0
  pub start : v.0.msgbuf.start ≡ w.0.msgbuf.start
  pub end : v.0.msgbuf.end ≡ w.0.msgbuf.end
  pub errs_start : v.0.errs.cur.start ≡ w.0.errs.cur.start
  pub errs_end : v.0.errs.cur.end ≡ w.0.errs.cur.end
  pub same : (x : Ptr) → Outside w.0.msgbuf x → Outside w.0.errs.cur x → v.0.memory x ≡ w.0.memory x

pub Confines-refl : (w : World) → IsSound w.0 → Confines w w
Confines-refl w s = record {
  sound = s;
  start = refl;
  end = refl;
  errs_start = refl;
  errs_end = refl;
  same = λ x a b. refl;
}

pub Confines-trans : (u v w : World) → Confines u v → Confines v w → Confines u w
Confines-trans u v w a b = record {
  sound = b.sound;
  start = b.start ∙ a.start;
  end = b.end ∙ a.end;
  errs_start = b.errs_start ∙ a.errs_start;
  errs_end = b.errs_end ∙ a.errs_end;
  same = λ x out clear.
      b.same x (rw (a.start, a.end) out) (rw (a.errs_start, a.errs_end) clear) ∙ a.same x out clear;
}

-- Where the memory is the same outside a region inside the message buffer.
pub Confines-memory :
    (w : World) (a : Ptr) (bs : List ℕ)
    → IsSound w.0
    → w.0.msgbuf.start ≤ a
    → a + length bs ≤ w.0.msgbuf.end
    → Confines w (record w.0 { memory = store w.0.memory a bs }, w.1)
Confines-memory w a bs s low high = record {
  sound = record { msgbuf = s.msgbuf; errs = s.errs };
  start = refl;
  end = refl;
  errs_start = refl;
  errs_end = refl;
  same = λ x out _. elim out [
    | inl below ↦ store_below w.0.memory a bs x (omega arith)
    | inr above ↦ store_above w.0.memory a bs x (omega arith)
  ];
}

-- A step that changes the connection alone.
pub net-Confines : (w : World) (net : Net) → IsSound w.0 → Confines w (w.0, net)
net-Confines w net s = record {
  sound = s;
  start = refl;
  end = refl;
  errs_start = refl;
  errs_end = refl;
  same = λ x _ _. refl;
}

pub state-Confines :
    (w : World) (cs : CryptoState)
    → IsSound w.0
    → Confines w (record w.0 { crypto_state = cs }, w.1)
state-Confines w cs s = record {
  sound = record { msgbuf = s.msgbuf; errs = s.errs };
  start = refl;
  end = refl;
  errs_start = refl;
  errs_end = refl;
  same = λ x _ _. refl;
}

-- What a step does to the world, and what holds where it succeeds.
pub record Keeps {A : Type 0} (Q : A → Lnsocket → Type 0) (w : World) (r : Option A × World)
    : Type 0 where
  pub confines : Confines w r.1
  pub post : (a : A) → r.0 ≡ some a → Q a r.1.0

module _ {A B : Type 0} {Q : A → Lnsocket → Type 0} {R : B → Lnsocket → Type 0} where
  pub and_then-Keeps :
      (w : World) (r : Option A × World) (f : A → Io B)
      → Keeps Q w r
      → ((a : A) (v : World) → Confines w v → Q a v.0 → Keeps R v (f a v))
      → Keeps R w (and_then r f)
  and_then-Keeps w (none, v) f k more = record { confines = k.confines; post = λ b h. absurd (cc) }
  and_then-Keeps w (some a, v) f k more =
      let m = more a v k.confines (k.post a refl) in
      record { confines = Confines-trans w v (f a v).1 k.confines m.confines; post = m.post }

abbrev pub Anything : {A : Type 0} → A → Lnsocket → Type 0
Anything _ _ = Unit {0}

-- Whichever branch is taken.
pub either : {B : Type 0} (P : B → Type 0) (c : Bool) {x y : B} → P x → P y → P (if c then x else y)
either P true hx hy = hx
either P false hx hy = hy

-- What a note does to the log and to the memory.
record Logged (m : Memory) (errs : Errors) (r : Memory × Errors) : Type 0 where
  stands : Stands r.1.cur
  same_start : r.1.cur.start ≡ errs.cur.start
  same_end : r.1.cur.end ≡ errs.cur.end
  outside : (x : Ptr) → Outside errs.cur x → r.0 x ≡ m x

note_error-Logged :
    (overrun : Overrun) (msg : List ℕ) (m : Memory) (errs : Errors)
    → length msg < fmt_buf_size
    → Stands errs.cur
    → Logged m errs (note_error overrun msg m errs)
unfolding note_error cursor_push_error
note_error-Logged overrun msg m errs fits s =
    let v : Within _ (cursor_push_c_str msg (record { mem = m; cur = errs.cur })).1 =
      (cursor_push_c_str-Pushes msg).safe (record { mem = m; cur = errs.cur }) s.high in
    let low = s.low in
    either (Logged m errs) errs.enabled
      (rw (lt→ltb (length msg) fmt_buf_size fits) (record {
        stands = record {
          low = ground (arith, v.same_start, v.forward);
          high = ground (arith, v.same_end, v.inside);
        };
        same_start = v.same_start;
        same_end = v.same_end;
        outside = λ x out. elim out [
          | inl below ↦ v.below x (omega (arith, low, below))
          | inr above ↦ v.above x above
        ];
      }))
      (record { stands = s; same_start = refl; same_end = refl; outside = λ x out. refl })

module _ (ext : Externals) {A : Type 0} (Q : A → Lnsocket → Type 0) where
  pub fail-Keeps : (n : Note) (w : World) → IsSound w.0 → Keeps Q w (fail ext n w)
  unfolding note
  fail-Keeps n w s =
      let l =
        note_error-Logged ext.overrun (ext.format n) w.0.memory w.0.errs (ext.format_fits n)
          s.errs in
      record {
        confines = record {
          sound = record { msgbuf = s.msgbuf; errs = l.stands };
          start = refl;
          end = refl;
          errs_start = l.same_start;
          errs_end = l.same_end;
          same = λ x _ out. l.outside x out;
        };
        post = λ a h. absurd (cc);
      }

  -- A failure behind a change.
  pub failed-Keeps : (n : Note) (w v : World) → Confines w v → Keeps Q w (fail ext n v)
  failed-Keeps n w v k =
      let f = fail-Keeps n v k.sound in
      record { confines = Confines-trans w v _ k f.confines; post = λ a e. absurd (cc) }
