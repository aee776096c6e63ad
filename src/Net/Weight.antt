-- ===== src/Net/Weight.antt =====
-- How much of a stream `read_all` uses up.
use lnsocket.Prelude.{
  ℕ, zero, suc, ◌+◌, ◌-◌, ◌≤◌, ◌≡◌, refl, inl, inr, true, Bool-cases, List, [], ◌∷◌, arith, tests,
  length, length-take, length-append, ltb→lt, ltb→le, length-drop, ltb, ◌==◌,
}
use lnsocket.Net.{Event, chunk, interrupted, Received, take_chunk, read_loop, read_all}

-- The bytes that are still to come.
unfoldable pub weight : List Event → ℕ
weight [] = 0
weight (chunk bs ∷ events) = length bs + weight events
weight (interrupted ∷ events) = weight events
weight (Event.failed ∷ events) = weight events

take_chunk-weight :
    (bs : List ℕ) (events : List Event) (n : ℕ) (more : Received)
    → (more.done ≡ true → weight more.rest + (n - length bs) ≡ weight events)
    → (take_chunk bs events n more).done ≡ true
    → weight (take_chunk bs events n more).rest + n ≡ length bs + weight events
unfolding take_chunk weight
take_chunk-weight bs events n more h done = elim (Bool-cases (length bs == 0)) [
  | inl empty ↦ absurd (let d = rw empty at done in cc)
  | inr some ↦ elim (Bool-cases (ltb n (length bs))) [
    | inl longer ↦ rw (some, longer) (let k = length-drop n bs in grind (tests, longer, k))
    | inr whole ↦
        (let d = rw (some, whole) at done in
          rw (some, whole) (let e = h d in grind (tests, whole, e)))
  ]
]

read_loop-weight :
    (events : List Event) (n : ℕ)
    → (read_loop events n).done ≡ true
    → weight (read_loop events n).rest + n ≡ weight events
unfolding read_loop weight
read_loop-weight events zero done = omega arith
read_loop-weight [] (suc n) done = absurd (cc)
read_loop-weight (chunk bs ∷ events) (suc n) done =
    take_chunk-weight bs events (suc n) _ (λ d. read_loop-weight events (suc n - length bs) d) done
read_loop-weight (interrupted ∷ events) (suc n) done = read_loop-weight events (suc n) done
read_loop-weight (Event.failed ∷ events) (suc n) done = absurd (cc)

-- Where it answers 1, it has taken `size` bytes of what was to come.
pub read_all-weight :
    (events : List Event) (size : ℕ)
    → (read_all events size).done ≡ true
    → weight (read_all events size).rest + size ≡ weight events
unfolding read_all
read_all-weight events size done = read_loop-weight events size done

-- It never gives more than it was asked for, and all of it where it answers 1.
take_chunk-length :
    (bs : List ℕ) (events : List Event) (n : ℕ) (more : Received)
    → length more.bytes ≤ n - length bs
    → (more.done ≡ true → length more.bytes ≡ n - length bs)
    → (length (take_chunk bs events n more).bytes ≤ n)
      × ((take_chunk bs events n more).done ≡ true → length (take_chunk bs events n more).bytes ≡ n)
unfolding take_chunk
take_chunk-length bs events n more h d = elim (Bool-cases (length bs == 0)) [
  | inl empty ↦ rw empty (omega arith, λ e. absurd (cc))
  | inr some ↦ elim (Bool-cases (ltb n (length bs))) [
    | inl longer ↦
        let k = length-take n bs in
        let less = ltb→lt n (length bs) longer in
        rw (some, longer) (omega (arith, k, less), λ e. omega (arith, k, less))
    | inr whole ↦
        let k = length-append bs more.bytes in
        let less = ltb→le n (length bs) whole in
        rw (some, whole) (omega (arith, k, less, h), λ e. omega (arith, k, less, d e))
  ]
]

read_loop-length :
    (events : List Event) (n : ℕ)
    → (length (read_loop events n).bytes ≤ n)
      × ((read_loop events n).done ≡ true → length (read_loop events n).bytes ≡ n)
unfolding read_loop
read_loop-length events zero = (omega arith, λ e. refl)
read_loop-length [] (suc n) = (omega arith, λ e. absurd (cc))
read_loop-length (chunk bs ∷ events) (suc n) =
    let ih = read_loop-length events (suc n - length bs) in
    take_chunk-length bs events (suc n) _ ih.0 ih.1
read_loop-length (interrupted ∷ events) (suc n) = read_loop-length events (suc n)
read_loop-length (Event.failed ∷ events) (suc n) = (omega arith, λ e. absurd (cc))

pub read_all-length :
    (events : List Event) (n : ℕ)
    → (length (read_all events n).bytes ≤ n)
      × ((read_all events n).done ≡ true → length (read_all events n).bytes ≡ n)
unfolding read_all
read_all-length events n = read_loop-length events n
