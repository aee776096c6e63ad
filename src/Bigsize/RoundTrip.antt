-- ===== src/Bigsize/RoundTrip.antt =====
-- `bigsize_put` and `bigsize_get` of bigsize.c together.
use lnsocket.Prelude.{
  ℕ, ◌≤◌, ◌<◌, ◌≡◌, inl, inr, some, List, [], ◌∷◌, arith, length, ltb, leb, Bool-cases,
}
use lnsocket.Prelude.Bytes.{join4, join8, byte_of, IsU64}
use lnsocket.Memory.{Memory, Ptr, load, load_three, load_five, load_nine}
use lnsocket.Bigsize.{bigsize_len, bigsize_put, bigsize_get}

-- The announced length is the number of bytes written.
pub length-bigsize_put : (v : ℕ) → length (bigsize_put v) ≡ bigsize_len v
unfolding bigsize_put bigsize_len
length-bigsize_put v = ground arith

-- Each form of the encoding is read back.
module _ (m : Memory) (p : Ptr) (max v : ℕ) where
  abbrev Reads : List ℕ → Type 0
  Reads bs = load m p (length bs) ≡ bs → length bs ≤ max → bigsize_get m p max ≡ (length bs, some v)

  Reads-one : v < 0xfd → Reads (byte_of 0 v ∷ [])
  unfolding bigsize_get load
  Reads-one h e room = ground arith

  Reads-three : 0xfd ≤ v → v ≤ 0xffff → Reads (0xfd ∷ byte_of 1 v ∷ byte_of 0 v ∷ [])
  unfolding bigsize_get
  Reads-three lo hi e room = let f = load_three m p e in rw (f.0, f.1, f.2) (ground arith)

  Reads-five :
      0x1_0000 ≤ v
      → v ≤ 0xffff_ffff
      → Reads (0xfe ∷ byte_of 3 v ∷ byte_of 2 v ∷ byte_of 1 v ∷ byte_of 0 v ∷ [])
  unfolding bigsize_get
  Reads-five lo hi e room =
      let f = load_five m p e in rw (f.0, f.1, f.2, f.3, f.4, join4 v (omega arith)) (ground arith)

  Reads-nine :
      0x1_0000_0000 ≤ v
      → IsU64 v
      → Reads (
          0xff
          ∷ byte_of 7 v
          ∷ byte_of 6 v
          ∷ byte_of 5 v
          ∷ byte_of 4 v
          ∷ byte_of 3 v
          ∷ byte_of 2 v
          ∷ byte_of 1 v
          ∷ byte_of 0 v
          ∷ [])
  unfolding bigsize_get
  Reads-nine lo hi e room =
      let f = load_nine m p e in
      rw (f.0, f.1, f.2, f.3, f.4, f.5, f.6, f.7, f.8, join8 v hi) (ground arith)

  Reads-put : IsU64 v → Reads (bigsize_put v)
  unfolding bigsize_put
  Reads-put h = elim (Bool-cases (ltb v 0xfd)) [
    | inl a ↦ rw a (Reads-one (ground arith))
    | inr a ↦ rw a (elim (Bool-cases (leb v 0xffff)) [
      | inl b ↦ rw b (Reads-three (ground arith) (ground arith))
      | inr b ↦ rw b (elim (Bool-cases (leb v 0xffff_ffff)) [
        | inl c ↦ rw c (Reads-five (ground arith) (ground arith))
        | inr c ↦ rw c (Reads-nine (ground arith) h)
      ])
    ])
  ]

-- Where the bytes that `bigsize_put v` gives for a u64 `v` stand at `p`, `bigsize_get` with a limit of
-- at least their number returns this number and stores `v`.
pub bigsize_get-put :
    (m : Memory) (p : Ptr) (max v : ℕ)
    → IsU64 v
    → load m p (length (bigsize_put v)) ≡ bigsize_put v
    → length (bigsize_put v) ≤ max
    → bigsize_get m p max ≡ (length (bigsize_put v), some v)
bigsize_get-put m p max v h e room = Reads-put m p max v h e room
