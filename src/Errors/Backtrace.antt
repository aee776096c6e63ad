-- ===== src/Errors/Backtrace.antt =====
-- What is noted in the log of error.c, and what its backtrace prints.
use lnsocket.Prelude.{
  ℕ, zero, suc, ◌+◌, ◌-◌, ◌≤◌, ◌<◌, ◌≡◌, ◌≢◌, refl, sym, ◌∙◌, ap, true, some, List, [], ◌∷◌, ◌++◌,
  map, arith, length, length-append, All, All-append, append_assoc, append-nil, ltb, if◌then◌else◌,
  Bool-cases, inl, inr, lt→ltb, le→ltb, le→leb,
}
use lnsocket.Memory.{
  Memory, Ptr, store, load, load-store, load-append, load_same, load_split, store_below,
}
use lnsocket.Cursor.{Buffer, copy_cursor, cursor_push, cursor_push_str, cursor_push_c_str, ◌&&>◌}
use lnsocket.Cursor.Push.{cursor_push_c_str-Pushes}
use lnsocket.Cursor.Pull.{cursor_pull_c_str-load}
use lnsocket.Errors.{
  Overrun, Errors, fmt_buf_size, cursor_pull_error, note_error, backtrace_loop,
  print_error_backtrace,
}

-- The strings of a log, each with its terminator.
abbrev pub log_bytes : List (List ℕ) → List ℕ
log_bytes [] = []
log_bytes (msg ∷ msgs) = (msg ++ 0 ∷ []) ++ log_bytes msgs

log_bytes-append :
    (xs : List (List ℕ)) (msg : List ℕ)
    → log_bytes (xs ++ msg ∷ []) ≡ log_bytes xs ++ (msg ++ 0 ∷ [])
log_bytes-append [] msg = append-nil _
log_bytes-append (x ∷ xs) msg =
    rw (log_bytes-append xs msg) (sym (append_assoc (x ++ 0 ∷ []) (log_bytes xs) (msg ++ 0 ∷ [])))

abbrev pub HasNoZero : List ℕ → Type 0
HasNoZero str = All (λ c. c ≢ 0) str

-- With the strings `msgs` from the cursor up to `limit`, the loop prints them, given a round for
-- each byte.
backtrace_loop-log :
    (msgs : List (List ℕ)) (fuel : ℕ) (limit : Ptr) (b : Buffer)
    → All HasNoZero msgs
    → length (log_bytes msgs) ≤ fuel
    → b.cur.p + length (log_bytes msgs) ≡ limit
    → limit ≤ b.cur.end
    → load b.mem b.cur.p (length (log_bytes msgs)) ≡ log_bytes msgs
    → backtrace_loop fuel limit b ≡ map some msgs
unfolding backtrace_loop
backtrace_loop-log [] zero limit b ne enough e fits l = refl
backtrace_loop-log [] (suc fuel) limit b ne enough e fits l =
    rw (le→ltb b.cur.p limit (omega arith))
backtrace_loop-log (msg ∷ msgs) zero limit b ne enough e fits l =
    absurd
      (omega (arith, length-append (msg ++ 0 ∷ []) (log_bytes msgs), length-append msg (0 ∷ [])))
backtrace_loop-log (msg ∷ msgs) (suc fuel) limit b ne enough e fits l =
    let whole = length-append (msg ++ 0 ∷ []) (log_bytes msgs) in
    let first : length (msg ++ 0 ∷ []) ≡ suc (length msg) =
      omega (arith, length-append msg (0 ∷ [])) in
    let (here, there) = load_split b.mem b.cur.p (msg ++ 0 ∷ []) (log_bytes msgs) l in
    let next : Buffer = record b { cur = record b.cur { p = b.cur.p + suc (length msg) } } in
    let pulled : cursor_pull_error b ≡ (some msg, next) =
      unfold cursor_pull_error in
      cursor_pull_c_str-load b msg ne.0 (omega arith) (rw (← first) here) in
    let rest : backtrace_loop fuel limit next ≡ map some msgs =
      backtrace_loop-log msgs fuel limit next ne.1 (omega arith) (omega arith) fits
        (rw first at there) in
    rw (lt→ltb b.cur.p limit (omega arith), pulled, rest)

-- What `errs` has taken: the log holds `msgs`, from its start up to where it stands.
pub record Holds (m : Memory) (errs : Errors) (msgs : List (List ℕ)) : Type 0 where
  pub no_zero : All HasNoZero msgs
  pub stands : errs.cur.p ≡ errs.cur.start + length (log_bytes msgs)
  pub within : errs.cur.p ≤ errs.cur.end
  pub content : load m errs.cur.start (length (log_bytes msgs)) ≡ log_bytes msgs

pub print_error_backtrace-Holds :
    (m : Memory) (errs : Errors) (msgs : List (List ℕ))
    → Holds m errs msgs
    → print_error_backtrace m errs ≡ map some msgs
unfolding print_error_backtrace copy_cursor
print_error_backtrace-Holds m errs msgs h =
    backtrace_loop-log msgs (errs.cur.p - errs.cur.start) errs.cur.p _ h.no_zero
      (omega (arith, h.stands)) (omega (arith, h.stands)) h.within h.content

-- Every message of the list is noted, in order.
unfoldable pub note_all : Overrun → List (List ℕ) → Memory → Errors → Memory × Errors
note_all overrun [] m errs = (m, errs)
note_all overrun (msg ∷ msgs) m errs =
    let (m', errs') = note_error overrun msg m errs in note_all overrun msgs m' errs'

-- The messages that are kept where `room` bytes are free: those that fit with their terminator
-- when their turn comes.
unfoldable pub kept : ℕ → List (List ℕ) → List (List ℕ)
kept room [] = []
kept room (msg ∷ msgs) =
    if ltb (length msg) room then msg ∷ kept (room - suc (length msg)) msgs else kept room msgs

abbrev pub noted : List ℕ → Memory → Errors → Memory × Errors
noted msg m errs = (
  store m errs.cur.p (msg ++ 0 ∷ []),
  record errs { cur = record errs.cur { p = errs.cur.p + suc (length msg) } },
)

-- A text that `vsprintf` may write to the static buffer: with its terminator it has 512 bytes at most.
abbrev pub FitsBuffer : List ℕ → Type 0
FitsBuffer msg = length msg < fmt_buf_size

pub note_error_fits :
    (overrun : Overrun) (msg : List ℕ) (m : Memory) (errs : Errors)
    → errs.enabled ≡ true
    → FitsBuffer msg
    → errs.cur.p + suc (length msg) ≤ errs.cur.end
    → note_error overrun msg m errs ≡ noted msg m errs
unfolding note_error
note_error_fits overrun msg m errs on short room =
    let n : length (msg ++ 0 ∷ []) ≡ suc (length msg) = omega (arith, length-append msg (0 ∷ [])) in
    rw
      (
        on,
        lt→ltb (length msg) fmt_buf_size short,
        (cursor_push_c_str-Pushes msg).fits (record { mem = m; cur = errs.cur }) (omega arith),
      )
      (rw n)

note_error_full :
    (overrun : Overrun) (msg : List ℕ) (m : Memory) (errs : Errors)
    → FitsBuffer msg
    → errs.cur.end < errs.cur.p + suc (length msg)
    → note_error overrun msg m errs ≡ (m, errs)
unfolding note_error cursor_push_c_str cursor_push_str cursor_push ◌&&>◌
note_error_full overrun msg m errs short full = elim (Bool-cases errs.enabled) [
  | inl on ↦ rw (
    on,
    lt→ltb (length msg) fmt_buf_size short,
    le→leb errs.cur.end (errs.cur.p + length msg) (omega arith),
  )
  | inr off ↦ rw off
]

pub Holds-noted :
    (msg : List ℕ) (m : Memory) (errs : Errors) (msgs : List (List ℕ))
    → HasNoZero msg
    → errs.cur.p + suc (length msg) ≤ errs.cur.end
    → Holds m errs msgs
    → Holds (noted msg m errs).0 (noted msg m errs).1 (msgs ++ msg ∷ [])
Holds-noted msg m errs msgs ne room h =
    let text : List ℕ = msg ++ 0 ∷ [] in
    let n : length text ≡ suc (length msg) = omega (arith, length-append msg (0 ∷ [])) in
    let whole : length (log_bytes (msgs ++ msg ∷ [])) ≡ length (log_bytes msgs) + length text =
      ap length (log_bytes-append msgs msg) ∙ length-append (log_bytes msgs) text in
    record {
      no_zero = All-append HasNoZero msgs (msg ∷ []) h.no_zero (ne, tt);
      stands = omega (arith, h.stands, whole, n);
      within = room;
      content =
          rw (whole, load-append, log_bytes-append, ← h.stands, load-store)
            (ap (λ (t : List ℕ). t ++ text)
              (load_same m _ errs.cur.start (length (log_bytes msgs))
                  (λ x _ below. store_below m errs.cur.p text x (omega (arith, h.stands)))
                ∙ h.content));
    }

note_all_step :
    (overrun : Overrun) (msg : List ℕ) (msgs : List (List ℕ)) (m : Memory) (errs : Errors)
    (r : Memory × Errors)
    → note_error overrun msg m errs ≡ r
    → note_all overrun (msg ∷ msgs) m errs ≡ note_all overrun msgs r.0 r.1
unfolding note_all
note_all_step overrun msg msgs m errs r e =
    ap (λ (t : Memory × Errors). note_all overrun msgs t.0 t.1) e

-- Noting a list keeps what fits.
note_all-Holds :
    (overrun : Overrun) (msgs old : List (List ℕ)) (room : ℕ) (m : Memory) (errs : Errors)
    → errs.enabled ≡ true
    → errs.cur.end ≡ errs.cur.p + room
    → All HasNoZero msgs
    → All FitsBuffer msgs
    → Holds m errs old
    → Holds
        (note_all overrun msgs m errs).0
        (note_all overrun msgs m errs).1
        (old ++ kept room msgs)
unfolding kept
note_all-Holds overrun [] old room m errs on free ne short h = unfold note_all in rw append-nil h
note_all-Holds overrun (msg ∷ msgs) old room m errs on free ne short h =
    elim (Bool-cases (ltb (length msg) room)) [
      | inl fits ↦
          let fit : errs.cur.p + suc (length msg) ≤ errs.cur.end = ground arith in
          rw
            (
              fits,
              note_all_step overrun msg msgs m errs _
                  (note_error_fits overrun msg m errs on short.0 fit),
              ← append_assoc old (msg ∷ []) (kept (room - suc (length msg)) msgs),
            )
            (note_all-Holds overrun msgs (old ++ msg ∷ []) (room - suc (length msg))
              (noted msg m errs).0 (noted msg m errs).1 on (ground arith) ne.1 short.1
              (Holds-noted msg m errs old ne.0 fit h))
      | inr full ↦
          rw
            (
              full,
              note_all_step overrun msg msgs m errs (m, errs)
                  (note_error_full overrun msg m errs short.0 (ground arith)),
            )
            (note_all-Holds overrun msgs old room m errs on free ne.1 short.1 h)
    ]

-- From an empty log that is enabled on, whatever messages without a zero byte are noted that fit the
-- static buffer of 512 bytes with their terminator, the backtrace prints exactly those that still fit
-- the log with their terminator when their turn comes, whole and in order.
pub backtrace-note_all :
    (overrun : Overrun) (msgs : List (List ℕ)) (m : Memory) (errs : Errors)
    → errs.enabled ≡ true
    → errs.cur.p ≡ errs.cur.start
    → errs.cur.p ≤ errs.cur.end
    → All HasNoZero msgs
    → All FitsBuffer msgs
    → print_error_backtrace (note_all overrun msgs m errs).0 (note_all overrun msgs m errs).1
      ≡ map some (kept (errs.cur.end - errs.cur.start) msgs)
backtrace-note_all overrun msgs m errs on empty room ne short =
    let start : Holds m errs [] = record {
      no_zero = tt;
      stands = omega (arith, empty);
      within = room;
      content = unfold load in refl;
    } in
    print_error_backtrace-Holds _ _ _ (
      note_all-Holds overrun msgs [] (errs.cur.end - errs.cur.start) m errs on
        (omega (arith, empty)) ne short start)
