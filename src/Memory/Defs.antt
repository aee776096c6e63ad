-- ===== src/Memory/Defs.antt =====
-- Memory as a function from addresses, written and read byte by byte.
use lnsocket.Prelude.{ℕ, zero, suc, List, [], ◌∷◌, ◌==◌, if◌then◌else◌}

abbrev pub Ptr : Type 0
Ptr = ℕ

abbrev pub Memory : Type 0
Memory = Ptr → ℕ

unfoldable pub update : Memory → Ptr → ℕ → Memory
update m a v x = if x == a then v else m x

unfoldable pub store : Memory → Ptr → List ℕ → Memory
unfolding update
store m a [] = m
store m a (b ∷ bs) = store (update m a b) (suc a) bs

unfoldable pub load : Memory → Ptr → ℕ → List ℕ
load m a zero = []
load m a (suc n) = m a ∷ load m (suc a) n

-- A memory of zeros.
abbrev pub zeroed : Memory
zeroed _ = 0
