-- ===== src/Noting.antt =====
-- Operations that note exactly one error where they fail, as the last thing that they do, and none
-- where they succeed.
use lnsocket.Prelude.{
  ℕ, ◌+◌, ◌≤◌, ◌≡◌, refl, sym, suc, true, false, Bool, if◌then◌else◌, Option, none, some, List, [],
  ◌∷◌, arith, length,
}
use mathlib.Core.Path.{subst}
use lnsocket.Errors.{Overrun, Errors, Note, note_error, print_error_backtrace}
use lnsocket.Errors.Backtrace.{
  FitsBuffer, HasNoZero, Holds, Holds-noted, note_error_fits, noted, print_error_backtrace-Holds,
}
use lnsocket.Memory.{Memory, load}
use lnsocket.Primitives.{Externals}
use lnsocket.State.{Lnsocket, note}
use lnsocket.Io.{World, Io, and_then, fail}

-- One error in an empty log.
note_error-prints :
    (overrun : Overrun) (msg : List ℕ) (m : Memory) (errs : Errors)
    → errs.enabled ≡ true
    → errs.cur.p ≡ errs.cur.start
    → HasNoZero msg
    → FitsBuffer msg
    → errs.cur.start + suc (length msg) ≤ errs.cur.end
    → print_error_backtrace (note_error overrun msg m errs).0 (note_error overrun msg m errs).1
      ≡ some msg ∷ []
unfolding load
note_error-prints overrun msg m errs on empty ne short room =
    let fits : errs.cur.p + suc (length msg) ≤ errs.cur.end = omega (arith, empty, room) in
    let fresh : Holds m errs [] = record {
      no_zero = tt;
      stands = omega (arith, empty);
      within = omega (arith, fits);
      content = refl;
    } in
    rw (note_error_fits overrun msg m errs on short fits) (
      print_error_backtrace-Holds (noted msg m errs).0 (noted msg m errs).1 (msg ∷ [])
        (Holds-noted msg m errs [] ne fits fresh))

module _ (ext : Externals) (IsNote : Note → Type 0) where
  -- `v` is a world with the log `errs` in which one of these errors was noted.
  pub record NotedOnce (errs : Errors) (v : World) : Type 0 where
    pub n : Note
    pub before : Lnsocket
    pub is_one : IsNote n
    pub same : before.errs ≡ errs
    pub now : v.0 ≡ note ext n before

  -- From the log `errs`.
  pub record Notes {A : Type 0} (errs : Errors) (r : Option A × World) : Type 0 where
    pub done : (a : A) → r.0 ≡ some a → r.1.0.errs ≡ errs
    pub failed : r.0 ≡ none → NotedOnce errs r.1

  module _ {A B : Type 0} where
    pub and_then-Notes :
        (errs : Errors) (r : Option A × World) (f : A → Io B)
        → Notes errs r
        → ((a : A) (v : World) → Notes v.0.errs (f a v))
        → Notes errs (and_then r f)
    and_then-Notes errs (none, v) f k more = record {
      done = λ b h. absurd (cc);
      failed = λ h. k.failed refl;
    }
    and_then-Notes errs (some a, v) f k more =
        subst (λ (e : Errors). Notes e (f a v)) (k.done a refl) (more a v)

  module _ {A : Type 0} where
    pub fail-Notes :
        (n : Note) (errs : Errors) (w : World)
        → IsNote n
        → w.0.errs ≡ errs
        → Notes {A = A} errs (fail ext n w)
    fail-Notes n errs w is e = record {
      done = λ a h. absurd (cc);
      failed = λ h. record { n = n; before = w.0; is_one = is; same = e; now = refl };
    }

    pub done-Notes : (a : A) (errs : Errors) (w : World) → w.0.errs ≡ errs → Notes errs (some a, w)
    done-Notes a errs w e = record { done = λ b h. e; failed = λ h. absurd (cc) }

    -- Whichever branch is taken.
    pub either-Notes :
        (c : Bool) (errs : Errors) {x y : Option A × World}
        → Notes errs x
        → Notes errs y
        → Notes errs (if c then x else y)
    either-Notes true errs hx hy = hx
    either-Notes false errs hx hy = hy

  -- A log that was empty has that error in it.
  pub NotedOnce-prints :
      (errs : Errors) (v : World) (o : NotedOnce errs v)
      → errs.enabled ≡ true
      → errs.cur.p ≡ errs.cur.start
      → HasNoZero (ext.format o.n)
      → errs.cur.start + suc (length (ext.format o.n)) ≤ errs.cur.end
      → print_error_backtrace v.0.memory v.0.errs ≡ some (ext.format o.n) ∷ []
  unfolding note
  NotedOnce-prints errs v o on empty ne room =
      let same = sym o.same in
      subst
        (λ (ln : Lnsocket). print_error_backtrace ln.memory ln.errs ≡ some (ext.format o.n) ∷ [])
        (sym o.now)
        (note_error-prints ext.overrun (ext.format o.n) o.before.memory o.before.errs
          (subst (λ (e : Errors). e.enabled ≡ true) same on)
          (subst (λ (e : Errors). e.cur.p ≡ e.cur.start) same empty) ne (ext.format_fits o.n)
          (subst (λ (e : Errors). e.cur.start + suc (length (ext.format o.n)) ≤ e.cur.end) same
            room))
