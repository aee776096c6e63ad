-- ===== src/Tests/Toy.antt =====
-- Toy primitives that meet the laws: the ciphertext is a tag, made from key, nonce and data, in
-- front of the plaintext; a point is its secret.
use lnsocket.Prelude.{
  length-replicate, ℕ, ◌+◌, ◌%◌, ◌≡◌, refl, ap, Bool, true, false, ◌&&◌, Option, none, some, List,
  [], ◌∷◌, ◌++◌, arith, length, length-append, take, drop, drop-append, take-append, replicate,
  length-take, length-drop, not, ◌*◌, ◌==◌, ==_iff, if◌then◌else◌,
}
use lnsocket.Primitives.{Aead, AeadLaws, Hkdf, Pubkey, Secp, SecpLaws, Externals}

unfoldable pub sum : List ℕ → ℕ
sum [] = 0
sum (x ∷ xs) = x + sum xs

unfoldable pub list_eq : List ℕ → List ℕ → Bool
list_eq [] [] = true
list_eq [] (y ∷ ys) = false
list_eq (x ∷ xs) [] = false
list_eq (x ∷ xs) (y ∷ ys) = (x == y) && list_eq xs ys

list_eq_refl : (xs : List ℕ) → list_eq xs xs ≡ true
unfolding list_eq
list_eq_refl [] = refl
list_eq_refl (x ∷ xs) = rw ((==_iff x x).1 refl, list_eq_refl xs)

list_eq→eq : (xs ys : List ℕ) → list_eq xs ys ≡ true → xs ≡ ys
unfolding list_eq
list_eq→eq [] [] h = refl
list_eq→eq [] (y ∷ ys) h = cc
list_eq→eq (x ∷ xs) [] h = cc
list_eq→eq (x ∷ xs) (y ∷ ys) h = ground (arith, list_eq→eq xs ys)

unfoldable pub tag : List ℕ → List ℕ → List ℕ → List ℕ
unfolding sum
tag k n ad = replicate 16 ((sum k + sum n + sum ad) % 256)

length-tag : (k n ad : List ℕ) → length (tag k n ad) ≡ 16
unfolding tag
length-tag k n ad = refl

unfoldable pub open_toy : List ℕ → List ℕ → List ℕ → List ℕ → Option (List ℕ)
open_toy k n ad c = if list_eq (take 16 c) (tag k n ad) then some (drop 16 c) else none

abbrev pub toy_aead : Aead
toy_aead = record {
  encrypt = λ k n ad m. tag k n ad ++ m;
  decrypt = open_toy;
  overlapped = λ k n m msg mlen out. replicate (mlen + 16) 0;
}

open-tag : (k n ad m : List ℕ) → open_toy k n ad (tag k n ad ++ m) ≡ some m
unfolding open_toy
open-tag k n ad m =
    let t : take 16 (tag k n ad ++ m) ≡ tag k n ad =
      rw (length-tag k n ad) at (take-append (tag k n ad) m) in
    let d : drop 16 (tag k n ad ++ m) ≡ m =
      rw (length-tag k n ad) at (drop-append (tag k n ad) m) in
    rw (t, d, list_eq_refl (tag k n ad))

chosen :
    (b : Bool) (d m : List ℕ)
    → ◌≡◌ {A = Option (List ℕ)} (if b then some d else none) (some m)
    → (b ≡ true) × (d ≡ m)
chosen true d m h = (refl, cc)
chosen false d m h = absurd (cc)

length-open : (k n ad c m : List ℕ) → open_toy k n ad c ≡ some m → length c ≡ length m + 16
unfolding open_toy
length-open k n ad c m h =
    let (e, d) = chosen (list_eq (take 16 c) (tag k n ad)) (drop 16 c) m h in
    let t : take 16 c ≡ tag k n ad = list_eq→eq (take 16 c) (tag k n ad) e in
    omega (arith, ap length t, length-tag k n ad, ap length d, length-take 16 c, length-drop 16 c)

toy_length : (k n ad m : List ℕ) → length (tag k n ad ++ m) ≡ length m + 16
toy_length k n ad m = omega (arith, length-append (tag k n ad) m, length-tag k n ad)

pub toy_aead_laws : AeadLaws toy_aead
toy_aead_laws = record {
  length-encrypt = toy_length;
  decrypt-encrypt = open-tag;
  length-overlapped = λ k n m msg mlen out. length-replicate {A = ℕ} (mlen + 16) 0;
  length-decrypt = length-open;
}

abbrev pub toy_hkdf : Hkdf
toy_hkdf = λ size salt ikm info. replicate size ((length salt + 2 * length ikm + size) % 256)

unfoldable pub is_zero_key : List ℕ → Bool
unfolding sum
is_zero_key x = sum x == 0

unfoldable pub create_toy : List ℕ → Option Pubkey
unfolding is_zero_key
create_toy x = if length x == 32 && not (is_zero_key x) then some x else none

unfoldable pub parse_toy : List ℕ → Option Pubkey
parse_toy [] = none
parse_toy (b ∷ p) = some p

unfoldable pub add_lists : List ℕ → List ℕ → List ℕ
add_lists [] ys = ys
add_lists (x ∷ xs) [] = x ∷ xs
add_lists (x ∷ xs) (y ∷ ys) = ((x + y) % 256) ∷ add_lists xs ys

add_lists_comm : (xs ys : List ℕ) → add_lists xs ys ≡ add_lists ys xs
unfolding add_lists
add_lists_comm [] [] = refl
add_lists_comm [] (y ∷ ys) = refl
add_lists_comm (x ∷ xs) [] = refl
add_lists_comm (x ∷ xs) (y ∷ ys) =
    let e : x + y ≡ y + x = omega arith in rw (e, add_lists_comm xs ys)

abbrev pub toy_secp : Secp
toy_secp = record {
  pubkey_create = create_toy;
  pubkey_serialize = λ p. 2 ∷ p;
  pubkey_parse = parse_toy;
  ecdh = λ p x. some (add_lists p x);
}

created : (x : List ℕ) (p : Pubkey) → create_toy x ≡ some p → (x ≡ p) × (length x ≡ 32)
unfolding create_toy
created x p h =
    let (e, d) = chosen (length x == 32 && not (is_zero_key x)) x p h in (d, ground arith)

toy_length-serialize : (x : List ℕ) (p : Pubkey) → create_toy x ≡ some p → length (2 ∷ p) ≡ 33
toy_length-serialize x p h = let (e, n) = created x p h in omega (arith, n, ap length e)

toy_agree :
    (x y : List ℕ) (px py : Pubkey)
    → create_toy x ≡ some px
    → create_toy y ≡ some py
    → (z : List ℕ) × (◌≡◌ {A = Option (List ℕ)} (some (add_lists px y)) (some z))
      × (◌≡◌ {A = Option (List ℕ)} (some (add_lists py x)) (some z))
toy_agree x y px py hx hy =
    let (ex, _) = created x px hx in
    let (ey, _) = created y py hy in
    (add_lists px y, refl, rw (← ex, ← ey, add_lists_comm y x) refl)

toy_parse : (p : Pubkey) → parse_toy (2 ∷ p) ≡ some p
unfolding parse_toy
toy_parse p = refl

pub toy_secp_laws : SecpLaws toy_secp
toy_secp_laws = record {
  parse-serialize = λ x p h. toy_parse p;
  length-serialize = toy_length-serialize;
  ecdh_agree = toy_agree;
}

abbrev pub toy : Externals
toy = record {
  aead = toy_aead;
  hkdf = toy_hkdf;
  secp = toy_secp;
  sha256 = λ bytes. replicate 32 (length bytes % 256);
  format = λ n. 101 ∷ 114 ∷ 114 ∷ [];
  format_fits = λ n. omega arith;
  overrun = λ msg m errs. (m, errs);
}
