-- ===== src/Bounds/Quiet.antt =====
-- Operations that leave the memory and its cursors alone but for the errors that they note.
use lnsocket.Prelude.{◌≡◌, refl, some, Bool, if◌then◌else◌}
use lnsocket.Errors.{Note}
use lnsocket.Primitives.{Externals}
use lnsocket.State.{Lnsocket}
use lnsocket.Io.{World, Io, ◌>>=◌, fail, modify}
use lnsocket.Bounds.{IsSound, Confines, Keeps, and_then-Keeps, Anything, either, failed-Keeps}

-- `ln'` has the memory and the cursors of `ln`.
pub record Quiet (ln ln' : Lnsocket) : Type 0 where
  pub memory : ln'.memory ≡ ln.memory
  pub msgbuf : ln'.msgbuf ≡ ln.msgbuf
  pub errs : ln'.errs ≡ ln.errs

pub same-Quiet : (ln : Lnsocket) → Quiet ln ln
same-Quiet ln = record { memory = refl; msgbuf = refl; errs = refl }

pub Quiet-Confines : (w v : World) → IsSound w.0 → Quiet w.0 v.0 → Confines w v
Quiet-Confines w v s q = record {
  sound = record { msgbuf = rw q.msgbuf s.msgbuf; errs = rw q.errs s.errs };
  start = rw q.msgbuf refl;
  end = rw q.msgbuf refl;
  errs_start = rw q.errs refl;
  errs_end = rw q.errs refl;
  same = λ x _ _. rw q.memory refl;
}

-- An operation on any socket whose cursors stand in their regions.
abbrev pub IsConfined : {A : Type 0} → Io A → Type 0
IsConfined m = (w : World) → IsSound w.0 → Keeps Anything w (m w)

pub done-Keeps :
    {A : Type 0} (a : A) (w v : World) → Quiet w.0 v.0 → IsSound w.0 → Keeps Anything w (some a, v)
done-Keeps a w v q s = record { confines = Quiet-Confines w v s q; post = λ b e. tt }

pub modify-IsConfined :
    (f : Lnsocket → Lnsocket) → ((ln : Lnsocket) → Quiet ln (f ln)) → IsConfined (modify f)
modify-IsConfined f q w s = done-Keeps tt w (f w.0, w.1) (q w.0) s

module _ {A B : Type 0} where
  pub >>=-IsConfined :
      (m : Io A) (f : A → Io B) → IsConfined m → ((a : A) → IsConfined (f a)) → IsConfined (m >>= f)
  >>=-IsConfined m f k more w s = and_then-Keeps w (m w) f (k w s) λ a v c _. more a v c.sound

module _ (ext : Externals) {A : Type 0} where
  pub noted-Keeps :
      (n : Note) (w v : World)
      → Quiet w.0 v.0
      → IsSound w.0
      → Keeps {A = A} Anything w (fail ext n v)
  noted-Keeps n w v q s = failed-Keeps ext Anything n w v (Quiet-Confines w v s q)

  -- A test that fails with an error in the log or goes on.
  pub test-Keeps :
      (c : Bool) (n : Note) (a : A) (w v : World)
      → Quiet w.0 v.0
      → IsSound w.0
      → Keeps Anything w (if c then fail ext n v else (some a, v))
  test-Keeps c n a w v q s =
      either (Keeps Anything w) c (noted-Keeps n w v q s) (done-Keeps a w v q s)

  pub check-Keeps :
      (c : Bool) (n : Note) (a : A) (w v : World)
      → Quiet w.0 v.0
      → IsSound w.0
      → Keeps Anything w (if c then (some a, v) else fail ext n v)
  check-Keeps c n a w v q s =
      either (Keeps Anything w) c (done-Keeps a w v q s) (noted-Keeps n w v q s)
