-- ===== src/Memory/Laws.antt =====
-- What a store changes, what it leaves alone, and what a load reads after it.
use lnsocket.Prelude.{
  ℕ, zero, suc, ◌+◌, ◌≤◌, ◌<◌, ◌≡◌, refl, sym, ap, ◌∙◌, append_split, length-append, take, drop,
  take-append-drop, length-take, length-drop, ◌-◌, List, [], ◌∷◌, ◌++◌, arith, length,
}
use lnsocket.Memory.Defs.{Memory, Ptr, update, store, load}

pub store_below : (m : Memory) (a : Ptr) (bs : List ℕ) (x : Ptr) → x < a → store m a bs x ≡ m x
unfolding store
store_below m a [] x h = refl
store_below m a (b ∷ bs) x h = ground (arith, store_below (update m a b) (suc a) bs x)

pub store_above :
    (m : Memory) (a : Ptr) (bs : List ℕ) (x : Ptr) → a + length bs ≤ x → store m a bs x ≡ m x
unfolding store
store_above m a [] x h = refl
store_above m a (b ∷ bs) x h = ground (arith, store_above (update m a b) (suc a) bs x)

pub load_same :
    (m w : Memory) (a : Ptr) (n : ℕ)
    → ((x : Ptr) → a ≤ x → x < a + n → w x ≡ m x)
    → load w a n ≡ load m a n
unfolding load
load_same m w a zero h = refl
load_same m w a (suc n) h =
    ground (arith, h a, load_same m w (suc a) n (λ x lo hi. h x (omega arith) (omega arith)))

pub load-store : (m : Memory) (a : Ptr) (bs : List ℕ) → load (store m a bs) a (length bs) ≡ bs
unfolding load store
load-store m a [] = refl
load-store m a (b ∷ bs) =
    ground (arith, store_below (update m a b) (suc a) bs a, load-store (update m a b) (suc a) bs)

pub store-append :
    (m : Memory) (a : Ptr) (xs ys : List ℕ)
    → store m a (xs ++ ys) ≡ store (store m a xs) (a + length xs) ys
unfolding store
store-append m a [] ys = ap (λ (p : ℕ). store m p ys) (omega arith)
store-append m a (x ∷ xs) ys =
    store-append (update m a x) (suc a) xs ys
    ∙ ap (λ (p : ℕ). store (store (update m a x) (suc a) xs) p ys) (omega arith)

pub load-append :
    (m : Memory) (a : Ptr) (j k : ℕ) → load m a (j + k) ≡ load m a j ++ load m (a + j) k
unfolding load
load-append m a zero k =
    let e : 0 + k ≡ k = omega arith in let f : a + 0 ≡ a = omega arith in rw (e, f)
load-append m a (suc j) k =
    let e : suc j + k ≡ suc (j + k) = omega arith in
    let f : a + suc j ≡ suc a + j = omega arith in
    rw (e, f) (ap (λ (t : List ℕ). m a ∷ t) (load-append m (suc a) j k))

pub length-load : (m : Memory) (a : Ptr) (n : ℕ) → length (load m a n) ≡ n
unfolding load
length-load m a zero = refl
length-load m a (suc n) = ap suc (length-load m (suc a) n)

-- A load of a few bytes, read one by one.
pub load_three :
    (m : Memory) (p : Ptr) {a b c : ℕ}
    → load m p 3 ≡ a ∷ b ∷ c ∷ []
    → (m p ≡ a) × (m (p + 1) ≡ b) × (m (p + 2) ≡ c)
unfolding load
load_three m p e = ground arith

pub load_five :
    (m : Memory) (p : Ptr) {a b c d f : ℕ}
    → load m p 5 ≡ a ∷ b ∷ c ∷ d ∷ f ∷ []
    → (m p ≡ a) × (m (p + 1) ≡ b) × (m (p + 2) ≡ c) × (m (p + 3) ≡ d) × (m (p + 4) ≡ f)
unfolding load
load_five m p e = ground arith

pub load_nine :
    (m : Memory) (p : Ptr) {a b c d f g h i j : ℕ}
    → load m p 9 ≡ a ∷ b ∷ c ∷ d ∷ f ∷ g ∷ h ∷ i ∷ j ∷ []
    → (m p ≡ a)
      × (m (p + 1) ≡ b)
      × (m (p + 2) ≡ c)
      × (m (p + 3) ≡ d)
      × (m (p + 4) ≡ f)
      × (m (p + 5) ≡ g)
      × (m (p + 6) ≡ h)
      × (m (p + 7) ≡ i)
      × (m (p + 8) ≡ j)
unfolding load
load_nine m p e = ground arith

-- Two texts that stand one behind the other.
pub load_split :
    (m : Memory) (p : Ptr) (xs ys : List ℕ)
    → load m p (length (xs ++ ys)) ≡ xs ++ ys
    → (load m p (length xs) ≡ xs) × (load m (p + length xs) (length ys) ≡ ys)
load_split m p xs ys l =
    let n : length (xs ++ ys) ≡ length xs + length ys = length-append xs ys in
    append_split (load m p (length xs)) xs (load m (p + length xs) (length ys)) ys
      (length-load m p (length xs)) (sym (load-append m p (length xs) (length ys)) ∙ rw n at l)

-- The rest of a text behind its first `k` bytes.
pub load-drop :
    (m : Memory) (a : Ptr) (bs : List ℕ) (k : ℕ)
    → k ≤ length bs
    → load (store m a bs) (a + k) (length bs - k) ≡ drop k bs
load-drop m a bs k h =
    let whole : load (store m a bs) a (length (take k bs ++ drop k bs)) ≡ take k bs ++ drop k bs =
      rw (take-append-drop k bs) (load-store m a bs) in
    let n : length (take k bs) ≡ k = omega (arith, length-take k bs) in
    let d : length (drop k bs) ≡ length bs - k = length-drop k bs in
    let (_, back) = load_split (store m a bs) a (take k bs) (drop k bs) whole in
    rw d at (rw n at back)
