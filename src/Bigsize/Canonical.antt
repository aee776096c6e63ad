-- ===== src/Bigsize/Canonical.antt =====
-- What `bigsize_get` of bigsize.c accepts.
use lnsocket.Prelude.{
  ℕ, suc, ◌+◌, ◌*◌, ◌^◌, ◌≤◌, ◌<◌, ◌≡◌, ◌⊎◌, inl, inr, refl, some, arith, length, le→ltb, le→leb,
  lt→leb,
}
use lnsocket.Prelude.Bytes.{byte_of, IsU64, IsByte}
use lnsocket.Memory.{Memory, Ptr, load}
use lnsocket.Bigsize.{bigsize_put, bigsize_get}

-- The value of the bytes that follow the first one, as the decoder computes it.
abbrev value4 : ℕ → ℕ → ℕ → ℕ → ℕ
value4 a b c d = a * 2 ^ 24 + b * 2 ^ 16 + c * 2 ^ 8 + d

abbrev value8 : ℕ → ℕ → ℕ → ℕ → ℕ → ℕ → ℕ → ℕ → ℕ
value8 a b c d e f g h =
    a * 2 ^ 56 + b * 2 ^ 48 + c * 2 ^ 40 + d * 2 ^ 32 + e * 2 ^ 24 + f * 2 ^ 16 + g * 2 ^ 8 + h

bytes4 :
    (a b c d : ℕ)
    → IsByte a
    → IsByte b
    → IsByte c
    → IsByte d
    → (byte_of 3 (value4 a b c d) ≡ a)
      × (byte_of 2 (value4 a b c d) ≡ b)
      × (byte_of 1 (value4 a b c d) ≡ c)
      × (byte_of 0 (value4 a b c d) ≡ d)
bytes4 a b c d ha hb hc hd = omega arith

bytes8 :
    (a b c d e f g h : ℕ)
    → IsByte a
    → IsByte b
    → IsByte c
    → IsByte d
    → IsByte e
    → IsByte f
    → IsByte g
    → IsByte h
    → (byte_of 7 (value8 a b c d e f g h) ≡ a)
      × (byte_of 6 (value8 a b c d e f g h) ≡ b)
      × (byte_of 5 (value8 a b c d e f g h) ≡ c)
      × (byte_of 4 (value8 a b c d e f g h) ≡ d)
      × (byte_of 3 (value8 a b c d e f g h) ≡ e)
      × (byte_of 2 (value8 a b c d e f g h) ≡ f)
      × (byte_of 1 (value8 a b c d e f g h) ≡ g)
      × (byte_of 0 (value8 a b c d e f g h) ≡ h)
bytes8 a b c d e f g h ha hb hc hd he hf hg hh = omega arith

-- What a successful answer says: `n` bytes from `p` on are the encoding of `v`.
abbrev pub Encodes : Memory → Ptr → ℕ → ℕ → Type 0
Encodes m p n v = IsU64 v × (load m p n ≡ bigsize_put v) × (n ≡ length (bigsize_put v))

module _ (m : Memory) (p : Ptr) (bytes : (x : Ptr) → IsByte (m x)) where
  Encodes-one : m p < 0xfd → Encodes m p 1 (m p)
  unfolding load bigsize_put
  Encodes-one h = ground arith

  abbrev value_fd : ℕ
  value_fd = m (p + 1) * 2 ^ 8 + m (p + 2)

  Encodes-three : m p ≡ 0xfd → 0xfd ≤ value_fd → Encodes m p 3 value_fd
  unfolding load bigsize_put
  Encodes-three e h = ground (arith, bytes (p + 1), bytes (p + 2))

  abbrev value_fe : ℕ
  value_fe = value4 (m (p + 1)) (m (p + 2)) (m (p + 3)) (m (p + 4))

  Encodes-five : m p ≡ 0xfe → 2 ^ 16 ≤ value_fe → Encodes m p 5 value_fe
  unfolding load bigsize_put
  Encodes-five e h =
      let f = bytes4 _ _ _ _ (bytes (p + 1)) (bytes (p + 2)) (bytes (p + 3)) (bytes (p + 4)) in
      let top : value_fe < 2 ^ 32 =
        omega (arith, bytes (p + 1), bytes (p + 2), bytes (p + 3), bytes (p + 4)) in
      rw
        (
          le→ltb value_fe 0xfd (omega arith),
          lt→leb value_fe 0xffff h,
          le→leb value_fe 0xffff_ffff (omega arith),
          f.0,
          f.1,
          f.2,
          f.3,
        )
        (omega arith, ground arith, refl)

  abbrev value_ff : ℕ
  value_ff =
      value8 (m (p + 1)) (m (p + 2)) (m (p + 3)) (m (p + 4)) (m (p + 5)) (m (p + 6)) (m (p + 7))
        (m (p + 8))

  Encodes-nine : m p ≡ 0xff → 2 ^ 32 ≤ value_ff → Encodes m p 9 value_ff
  unfolding load bigsize_put
  Encodes-nine e h =
      let f =
        bytes8 _ _ _ _ _ _ _ _ (bytes (p + 1)) (bytes (p + 2)) (bytes (p + 3)) (bytes (p + 4))
          (bytes (p + 5)) (bytes (p + 6)) (bytes (p + 7)) (bytes (p + 8)) in
      let top : value_ff < 2 ^ 64 = omega (
        arith,
        bytes (p + 1),
        bytes (p + 2),
        bytes (p + 3),
        bytes (p + 4),
        bytes (p + 5),
        bytes (p + 6),
        bytes (p + 7),
        bytes (p + 8),
      ) in
      rw
        (
          le→ltb value_ff 0xfd (omega arith),
          lt→leb value_ff 0xffff (omega arith),
          lt→leb value_ff 0xffff_ffff h,
          f.0,
          f.1,
          f.2,
          f.3,
          f.4,
          f.5,
          f.6,
          f.7,
        )
        (top, ground arith, refl)

  -- The four ways to succeed.
  get_forms :
      (max n v : ℕ)
      → bigsize_get m p max ≡ (suc n, some v)
      → (suc n ≤ max)
        × (((suc n ≡ 1) × (v ≡ m p) × (m p < 0xfd))
            ⊎ ((suc n ≡ 3) × (v ≡ value_fd) × (m p ≡ 0xfd) × (0xfd ≤ value_fd))
            ⊎ ((suc n ≡ 5) × (v ≡ value_fe) × (m p ≡ 0xfe) × (2 ^ 16 ≤ value_fe))
            ⊎ ((suc n ≡ 9) × (v ≡ value_ff) × (m p ≡ 0xff) × (2 ^ 32 ≤ value_ff)))
  unfolding bigsize_get
  get_forms max n v e = ground (arith, bytes p)

-- Whatever `bigsize_get` reads with success is the encoding of the value that it stores, within
-- the `max` bytes that it may read, and the value is a u64: no value has a second encoding.
pub bigsize_get_canonical :
    (m : Memory) (p : Ptr) (max n v : ℕ)
    → ((x : Ptr) → IsByte (m x))
    → bigsize_get m p max ≡ (suc n, some v)
    → (suc n ≤ max) × Encodes m p (suc n) v
bigsize_get_canonical m p max n v bytes e =
    let (room, form) = get_forms m p bytes max n v e in
    (
      room,
      elim form [
        | inl (k, u, b) ↦ rw (k, u) (Encodes-one m p bytes b)
        | inr (inl (k, u, a, b)) ↦ rw (k, u) (Encodes-three m p bytes a b)
        | inr (inr (inl (k, u, a, b))) ↦ rw (k, u) (Encodes-five m p bytes a b)
        | inr (inr (inr (k, u, a, b))) ↦ rw (k, u) (Encodes-nine m p bytes a b)
      ],
    )
