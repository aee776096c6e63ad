-- ===== src/Net/Stream.antt =====
-- `read_all` of lnsocket.c on a stream that comes in pieces.
use lnsocket.Prelude.{
  ℕ, zero, suc, ◌+◌, ◌-◌, ◌≤◌, ◌<◌, ◌≡◌, refl, sym, ap, ◌∙◌, true, false, some, List, [], ◌∷◌, ◌++◌,
  arith, length, length-append, take, drop, take-append, drop-append, length-drop, ◌==◌, lt→ltb,
  le→ltb, take-append_le, drop-append_le, take-append_add, drop-append_add,
}
use native.Mathlib.Decide.{dec_lt}
use lnsocket.Prelude.{tests, none, Option, Bool-cases, leb, ltb, inl, inr, ◌⊎◌}
use mathlib.Core.Path.{subst}
use lnsocket.Net.{
  read, read_event, Net, limited, write, Event, chunk, interrupted, Received, take_chunk, read_loop,
  read_all,
}

-- The events carry the bytes `bs`, in chunks that are not empty, with any interruptions between.
pub data Carries : List Event → List ℕ → Type 0 where
  end : Carries [] []
  more :
      {events : List Event} {bs : List ℕ} (b : ℕ) (front : List ℕ)
      → Carries events bs
      → Carries (chunk (b ∷ front) ∷ events) ((b ∷ front) ++ bs)
  again :
      {events : List Event} {bs : List ℕ} → Carries events bs → Carries (interrupted ∷ events) bs

-- `r` took `bs` in full and leaves the bytes `rest`.
pub record Takes (r : Received) (bs rest : List ℕ) : Type 0 where
  pub done : r.done ≡ true
  pub bytes : r.bytes ≡ bs
  pub carries : Carries r.rest rest

Carries-chunk :
    {events : List Event} {bs : List ℕ} (xs : List ℕ)
    → 0 < length xs
    → Carries events bs
    → Carries (chunk xs ∷ events) (xs ++ bs)
Carries-chunk [] h c = absurd (omega arith)
Carries-chunk (x ∷ xs) h c = more x xs c

-- A chunk that is longer than what is wanted.
long_chunk :
    {events : List Event} {bs : List ℕ} (xs : List ℕ) (n : ℕ) (r : Received)
    → n < length xs
    → Carries events bs
    → Takes (take_chunk xs events n r) (take n (xs ++ bs)) (drop n (xs ++ bs))
unfolding take_chunk
long_chunk {events} {bs} xs n r h c =
    let some : (length xs == 0) ≡ false = ground arith in
    rw
      (
        some,
        lt→ltb n (length xs) h,
        take-append_le n xs bs (omega arith),
        drop-append_le n xs bs (omega arith),
      )
      (record {
        done = refl;
        bytes = refl;
        carries = Carries-chunk (drop n xs) (omega (arith, length-drop n xs)) c;
      })

-- A chunk that is used up.
short_chunk :
    (events : List Event) (bs xs : List ℕ) (k : ℕ) (r : Received)
    → 0 < length xs
    → Takes r (take k bs) (drop k bs)
    → Takes
        (take_chunk xs events (length xs + k) r)
        (take (length xs + k) (xs ++ bs))
        (drop (length xs + k) (xs ++ bs))
unfolding take_chunk
short_chunk events bs xs k r h t =
    let some : (length xs == 0) ≡ false = ground arith in
    rw
      (
        some,
        le→ltb (length xs + k) (length xs) (omega arith),
        take-append_add xs bs k,
        drop-append_add xs bs k,
      )
      (record { done = t.done; bytes = ap (λ (b : List ℕ). xs ++ b) t.bytes; carries = t.carries })

read_loop-Takes :
    {events : List Event} {bs : List ℕ} (n : ℕ)
    → Carries events bs
    → n ≤ length bs
    → Takes (read_loop events n) (take n bs) (drop n bs)
unfolding read_loop
read_loop-Takes zero c h = record { done = refl; bytes = refl; carries = c }
read_loop-Takes (suc n) end h = absurd (omega arith)
read_loop-Takes (suc n) (again c) h = read_loop-Takes (suc n) c h
read_loop-Takes (suc n) (more {events} {bs} b front c) h = elim (dec_lt n (length front)) [
  | yes long ↦ long_chunk (b ∷ front) (suc n) _ (omega arith) c
  | no short ↦
      let k : ℕ = suc n - suc (length front) in
      let e : suc n ≡ length (b ∷ front) + k = omega arith in
      subst
        (λ (j : ℕ).
          Takes (take_chunk (b ∷ front) events j (read_loop events k)) (take j ((b ∷ front) ++ bs))
            (drop j ((b ∷ front) ++ bs)))
        (sym e)
        (short_chunk events bs (b ∷ front) k _ (omega arith)
          (read_loop-Takes k c (omega (arith, length-append (b ∷ front) bs))))
]

-- Wherever a stream that carries `size` bytes or more is cut into chunks, and however often the
-- call is interrupted, `read_all` answers 1 with its first `size` bytes, and the other bytes are
-- still to come.
pub read_all-Takes :
    {events : List Event} {bs : List ℕ} (size : ℕ)
    → Carries events bs
    → size ≤ length bs
    → Takes (read_all events size) (take size bs) (drop size bs)
unfolding read_all
read_all-Takes size c h = read_loop-Takes size c h

chunk_done :
    (xs : List ℕ) (events : List Event) (n : ℕ) (r : Received)
    → 0 < length xs
    → length xs ≤ n
    → (take_chunk xs events n r).done ≡ r.done
unfolding take_chunk
chunk_done xs events n r h k =
    let some : (length xs == 0) ≡ false = ground arith in rw (some, le→ltb n (length xs) k)

read_loop_short :
    {events : List Event} {bs : List ℕ} (size : ℕ)
    → Carries events bs
    → length bs < size
    → (read_loop events size).done ≡ false
unfolding read_loop
read_loop_short zero c h = absurd (omega arith)
read_loop_short (suc n) end h = refl
read_loop_short (suc n) (again c) h = read_loop_short (suc n) c h
read_loop_short (suc n) (more {events} {bs} b front c) h =
    let k = length-append (b ∷ front) bs in
    chunk_done (b ∷ front) events (suc n) _ (omega arith) (omega arith)
    ∙ read_loop_short (suc n - suc (length front)) c (omega arith)

-- A stream that carries fewer than `size` bytes before it ends makes `read_all` answer 0.
pub read_all_short :
    {events : List Event} {bs : List ℕ} (size : ℕ)
    → Carries events bs
    → length bs < size
    → (read_all events size).done ≡ false
unfolding read_all
read_all_short size c h = read_loop_short size c h

-- Of a stream that carries `bs` and then ends, wherever it is cut into chunks, and however often the call
-- is interrupted: `read_all` answers 1 with its first `size` bytes and leaves the others, or there
-- are fewer and it answers 0.
pub read_all_result :
    {events : List Event} {bs : List ℕ} (size : ℕ)
    → Carries events bs
    → ((size ≤ length bs) × Takes (read_all events size) (take size bs) (drop size bs))
      ⊎ ((length bs < size) × ((read_all events size).done ≡ false))
read_all_result {events} {bs} size c = elim (dec_lt (length bs) size) [
  | yes short ↦ inr (short, read_all_short size c short)
  | no enough ↦ inl (omega arith, read_all-Takes size c (omega arith))
]

-- A stream that begins with `xs`.
pub read_exact :
    {events : List Event} (xs ys : List ℕ) (n : ℕ)
    → length xs ≡ n
    → Carries events (xs ++ ys)
    → Takes (read_all events n) xs ys
read_exact {events} xs ys n e c =
    rw (take-append xs ys, drop-append xs ys) at
      (subst
        (λ (k : ℕ).
          Takes (read_all events k) (take (length xs) (xs ++ ys)) (drop (length xs) (xs ++ ys)))
        e (read_all-Takes (length xs) c (omega (arith, length-append xs ys))))

-- Without limits a write takes everything.
pub write_free :
    (net : Net) (bytes : List ℕ)
    → net.limits ≡ []
    → write net bytes ≡ (some (length bytes), record net { sent = net.sent ++ bytes })
unfolding write
write_free net bytes free = ap (λ l. limited l net bytes) free

-- A write that takes `length bytes` has sent them all.
limited_whole :
    (limits : List (Option ℕ)) (net net' : Net) (bytes : List ℕ)
    → limited limits net bytes ≡ (some (length bytes), net')
    → (net'.sent ≡ net.sent ++ bytes) × (net'.events ≡ net.events)
unfolding limited
limited_whole [] net net' bytes h = (cc, cc)
limited_whole (none ∷ limits) net net' bytes h = absurd (cc)
limited_whole (some k ∷ limits) net net' bytes h = elim (Bool-cases (leb (length bytes) k)) [
  | inl whole ↦ let g = rw whole at h in (cc, cc)
  | inr part ↦
      let g = rw part at h in let k_is : k ≡ length bytes = cc in absurd (grind (tests, part, k_is))
]

pub write_whole :
    (net net' : Net) (bytes : List ℕ)
    → write net bytes ≡ (some (length bytes), net')
    → (net'.sent ≡ net.sent ++ bytes) × (net'.events ≡ net.events)
unfolding write
write_whole net net' bytes h = limited_whole net.limits net net' bytes h

-- Reading sends nothing.
read_event_sent :
    (net : Net) (events : List Event) (size : ℕ) → (read_event net events size).1.sent ≡ net.sent
unfolding read_event
read_event_sent net [] size = refl
read_event_sent net (chunk bs ∷ events) size = elim (Bool-cases (ltb size (length bs))) [
  | inl longer ↦ rw longer
  | inr whole ↦ rw whole
]
read_event_sent net (interrupted ∷ events) size = refl
read_event_sent net (Event.failed ∷ events) size = refl

pub read_sent : (net : Net) (size : ℕ) → (read net size).1.sent ≡ net.sent
unfolding read
read_sent net size = read_event_sent net net.events size
