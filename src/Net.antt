-- ===== src/Net.antt =====
-- The connection of a socket: what successive calls of `read` and `write` answer is given by the
-- environment. `read_all` of lnsocket.c loops over `read`.
pub mod Stream
pub mod Weight
use lnsocket.Prelude.{
  ℕ, zero, suc, ◌-◌, Bool, true, false, List, [], ◌∷◌, ◌++◌, Option, none, some, leb, ltb, ◌==◌,
  if◌then◌else◌, length, take, drop,
}

-- What `read` meets: bytes that have come (none of them is the end of the stream), a call that a
-- signal interrupts, or one that fails.
pub data Event : Type 0 where
  chunk : List ℕ → Event
  interrupted : Event
  failed : Event

-- `events` is all that is still to come: behind it the stream ends. `limits` bounds the bytes that
-- each call of `write` takes, `none` for a call that fails; behind it all are taken.
pub record Net : Type 0 where
  pub events : List Event
  pub limits : List (Option ℕ)
  pub sent : List ℕ

-- The answer, the bytes that came, and what is left.
pub record Received : Type 0 where
  pub done : Bool
  pub bytes : List ℕ
  pub rest : List Event

abbrev pub prepend : List ℕ → Received → Received
prepend bs r = record { done = r.done; bytes = bs ++ r.bytes; rest = r.rest }

-- A chunk serves the call if it has `size` bytes, and what it has more stays for the next call.
take_chunk : List ℕ → List Event → ℕ → Received → Received
take_chunk bs events size more =
    if length bs == 0
    then record { done = false; bytes = []; rest = events }
    else if ltb size (length bs)
    then record { done = true; bytes = take size bs; rest = chunk (drop size bs) ∷ events }
    else prepend bs more

read_loop : List Event → ℕ → Received
unfolding take_chunk
read_loop events zero = record { done = true; bytes = []; rest = events }
read_loop [] (suc n) = record { done = false; bytes = []; rest = [] }
read_loop (chunk bs ∷ events) (suc n) =
    let more = read_loop events (suc n - length bs) in take_chunk bs events (suc n) more
read_loop (interrupted ∷ events) (suc n) = read_loop events (suc n)
read_loop (failed ∷ events) (suc n) = record { done = false; bytes = []; rest = events }

unfoldable pub read_all : List Event → ℕ → Received
unfolding read_loop
read_all events size = read_loop events size

-- One call of `read` for at most `size` bytes: what it reads, `none` for -1. Of a chunk that has
-- more, the rest stays for the next call.
unfoldable pub read_event : Net → List Event → ℕ → Option (List ℕ) × Net
read_event net [] size = (some [], net)
read_event net (chunk bs ∷ events) size =
    if ltb size (length bs)
    then (some (take size bs), record net { events = chunk (drop size bs) ∷ events })
    else (some bs, record net { events = events })
read_event net (interrupted ∷ events) size = (none, record net { events = events })
read_event net (failed ∷ events) size = (none, record net { events = events })

unfoldable pub read : Net → ℕ → Option (List ℕ) × Net
unfolding read_event
read net size = read_event net net.events size

unfoldable pub limited : List (Option ℕ) → Net → List ℕ → Option ℕ × Net
limited [] net bytes = (some (length bytes), record net { sent = net.sent ++ bytes })
limited (none ∷ limits) net bytes = (none, record net { limits = limits })
limited (some k ∷ limits) net bytes =
    if leb (length bytes) k
    then (some (length bytes), record net { limits = limits; sent = net.sent ++ bytes })
    else (some k, record net { limits = limits; sent = net.sent ++ take k bytes })

-- `write(fd, bytes, length bytes)`: the count that it answers, `none` for -1, and the connection.
unfoldable pub write : Net → List ℕ → Option ℕ × Net
unfolding limited
write net bytes = limited net.limits net bytes
