-- ===== src/Tests/Logs.antt =====
-- The error log and the reading loop at concrete inputs.
use lnsocket.Prelude.{
  ℕ, ◌≡◌, ◌≤◌, ◌<◌, ◌⊎◌, length, refl, false, true, some, List, [], ◌∷◌, arith, map,
}
use lnsocket.Memory.{zeroed}
use lnsocket.Errors.{Errors, print_error_backtrace}
use lnsocket.Errors.Backtrace.{note_all, kept, backtrace-note_all}
use lnsocket.Tests.Toy.{toy}
use lnsocket.Net.{Event, read_all}
use lnsocket.Net.Stream.{Carries, Takes, read_all_result}

-- Eight bytes of room, at 100.
abbrev log : Errors
log = record { cur = record { start = 100; p = 100; end = 108 }; enabled = true }

-- The second message does not fit any more, the third does.
abbrev notes : List (List ℕ)
notes = (1 ∷ 2 ∷ 3 ∷ []) ∷ (4 ∷ 5 ∷ 6 ∷ 7 ∷ 8 ∷ []) ∷ (9 ∷ []) ∷ []

backtrace-note_all_example :
    print_error_backtrace
      (note_all toy.overrun notes zeroed log).0
      (note_all toy.overrun notes zeroed log).1
    ≡ map some (kept 8 notes)
backtrace-note_all_example =
    backtrace-note_all toy.overrun notes zeroed log refl refl (omega arith)
      (
        (omega arith, (omega arith, (omega arith, tt))),
        (
          (omega arith, (omega arith, (omega arith, (omega arith, (omega arith, tt))))),
          ((omega arith, tt), tt),
        ),
      )
      (omega arith, (omega arith, (omega arith, tt)))

kept_8 : kept 8 notes ≡ (1 ∷ 2 ∷ 3 ∷ []) ∷ (9 ∷ []) ∷ []
unfolding kept
kept_8 = refl

-- Five bytes in two pieces with a signal between.
abbrev pieces : List Event
pieces = Event.chunk (1 ∷ 2 ∷ []) ∷ Event.interrupted ∷ Event.chunk (3 ∷ 4 ∷ 5 ∷ []) ∷ []

pieces-Carries : Carries pieces (1 ∷ 2 ∷ 3 ∷ 4 ∷ 5 ∷ [])
pieces-Carries = Carries.more 1 (2 ∷ []) (Carries.again (Carries.more 3 (4 ∷ 5 ∷ []) Carries.end))

read_all_result_example :
    ((4 ≤ length {A = ℕ} (1 ∷ 2 ∷ 3 ∷ 4 ∷ 5 ∷ []))
      × Takes (read_all pieces 4) (1 ∷ 2 ∷ 3 ∷ 4 ∷ []) (5 ∷ []))
    ⊎ ((length {A = ℕ} (1 ∷ 2 ∷ 3 ∷ 4 ∷ 5 ∷ []) < 4) × ((read_all pieces 4).done ≡ false))
read_all_result_example = read_all_result 4 pieces-Carries
