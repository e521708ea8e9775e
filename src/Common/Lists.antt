-- ===== src/Common/Lists.antt =====
-- Lists measured and indexed by native numbers, under the library's names, and the predicates
-- `All` and `Any` by recursion.
use mathlib.Core.Option.{Option, none, some}
use Prim.Native.Nat.{ℕ, zero, suc, ◌+◌, ◌≤◌}
use mathlib.Core.Path.{◌≡◌, refl}
use mathlib.Core.Logic.{◌⊎◌, inl, inr}
use mathlib.Core.Bool.{Bool, false, true}
use mathlib.Core.List.{List, [], ◌∷◌, ◌++◌}
use native.Mathlib.Omega.{arith}
use Prim.{Unit, tt}
use session_pressure.Common.Tests.{if◌then◌else◌, Bool-cases}

module _ {ℓ} {A : Type ℓ} where
  abbrev pub length : List A → ℕ
  length [] = 0
  length (x ∷ xs) = suc (length xs)

  abbrev pub is_empty : List A → Bool
  is_empty [] = true
  is_empty (x ∷ xs) = false

  abbrev pub take : ℕ → List A → List A
  take zero xs = []
  take (suc n) [] = []
  take (suc n) (x ∷ xs) = x ∷ take n xs

  -- The element at a place is changed; a place out of bounds changes nothing.
  abbrev pub update_at : ℕ → (A → A) → List A → List A
  update_at i f [] = []
  update_at zero f (x ∷ xs) = f x ∷ xs
  update_at (suc i) f (x ∷ xs) = x ∷ update_at i f xs

  -- The elements that pass a test, in order.
  abbrev pub keep_if : (A → Bool) → List A → List A
  keep_if p [] = []
  keep_if p (x ∷ xs) = let rest = keep_if p xs in if p x then x ∷ rest else rest

  -- A sum over a list.
  abbrev pub sum_of : (A → ℕ) → List A → ℕ
  sum_of f [] = 0
  sum_of f (x ∷ xs) = f x + sum_of f xs

  abbrev pub All {κ} : (A → Type κ) → List A → Type κ
  All P [] = Unit
  All P (x ∷ xs) = P x × All P xs

  abbrev pub Any : (A → Type 0) → List A → Type 0
  Any P [] = ⊥
  Any P (x ∷ xs) = P x ⊎ Any P xs

module _ {ℓ} {A : Type ℓ} where
  pub length-append : (xs ys : List A) → length (xs ++ ys) ≡ length xs + length ys
  length-append [] ys = omega arith
  length-append (x ∷ xs) ys = omega (arith, length-append xs ys)

  pub sum_of-append : (f : A → ℕ) (xs ys : List A) → sum_of f (xs ++ ys) ≡ sum_of f xs + sum_of f ys
  sum_of-append f [] ys = omega arith
  sum_of-append f (x ∷ xs) ys = omega (arith, sum_of-append f xs ys)

  pub sum_of-keep_if_le :
      (f : A → ℕ) (p : A → Bool) (xs : List A) → sum_of f (keep_if p xs) ≤ sum_of f xs
  sum_of-keep_if_le f p [] = omega arith
  sum_of-keep_if_le f p (x ∷ xs) = ground (arith, sum_of-keep_if_le f p xs)

  pub length-keep_if_le : (p : A → Bool) (xs : List A) → length (keep_if p xs) ≤ length xs
  length-keep_if_le p [] = omega arith
  length-keep_if_le p (x ∷ xs) = ground (arith, length-keep_if_le p xs)

  -- A predicate holds along two lists, so along both in a row.
  pub All-append {κ} :
      (P : A → Type κ) (front back : List A) → All P front → All P back → All P (front ++ back)
  All-append P [] back all_front all_back = all_back
  All-append P (x ∷ front) back (first, others) all_back =
      (first, All-append P front back others all_back)

  pub All-append_left {κ} :
      (P : A → Type κ) (front back : List A) → All P (front ++ back) → All P front
  All-append_left P [] back all_both = tt
  All-append_left P (x ∷ front) back (first, others) = (first, All-append_left P front back others)

  pub All-append_right {κ} :
      (P : A → Type κ) (front back : List A) → All P (front ++ back) → All P back
  All-append_right P [] back all_both = all_both
  All-append_right P (x ∷ front) back (first, others) = All-append_right P front back others

  pub All-map {κ μ} :
      (P : A → Type κ) (Q : A → Type μ) (xs : List A) → ((x : A) → P x → Q x) → All P xs → All Q xs
  All-map P Q [] f h = tt
  All-map P Q (x ∷ xs) f h = (f x h.0, All-map P Q xs f h.1)

  pub Any-map : (P Q : A → Type 0) (xs : List A) → ((x : A) → P x → Q x) → Any P xs → Any Q xs
  Any-map P Q [] f h = elim h [ ]
  Any-map P Q (x ∷ xs) f (inl h) = inl (f x h)
  Any-map P Q (x ∷ xs) f (inr h) = inr (Any-map P Q xs f h)

  -- What holds of a member and of all holds of it together.
  pub Any-All : (P Q : A → Type 0) (xs : List A) → Any P xs → All Q xs → Any (λ x. P x × Q x) xs
  Any-All P Q [] h a = elim h [ ]
  Any-All P Q (x ∷ xs) (inl h) a = inl (h, a.0)
  Any-All P Q (x ∷ xs) (inr h) a = inr (Any-All P Q xs h a.1)

  pub All-keep_if {κ} :
      (P : A → Type κ) (p : A → Bool) (xs : List A) → All P xs → All P (keep_if p xs)
  All-keep_if P p [] h = tt
  All-keep_if P p (x ∷ xs) h = elim (Bool-cases (p x)) [
    | inl e ↦ rw e (h.0, All-keep_if P p xs h.1)
    | inr e ↦ rw e (All-keep_if P p xs h.1)
  ]

  pub All-take {κ} : (P : A → Type κ) (n : ℕ) (xs : List A) → All P xs → All P (take n xs)
  All-take P zero xs h = tt
  All-take P (suc n) [] h = tt
  All-take P (suc n) (x ∷ xs) h = (h.0, All-take P n xs h.1)

  pub Any-take : (P : A → Type 0) (n : ℕ) (xs : List A) → Any P (take n xs) → Any P xs
  Any-take P zero xs h = elim h [ ]
  Any-take P (suc n) [] h = elim h [ ]
  Any-take P (suc n) (x ∷ xs) (inl h) = inl h
  Any-take P (suc n) (x ∷ xs) (inr h) = inr (Any-take P n xs h)

-- A row of guards, each returning its error: the first test that holds decides.
module _ {ℓ} {E : Type ℓ} where
  abbrev pub first_error : List (Bool × E) → Option E
  first_error [] = none
  first_error ((failed, e) ∷ checks) =
      let rest = first_error checks in if failed then some e else rest

  -- No guard was taken if there is no error.
  pub first_error-none :
      (checks : List (Bool × E)) → first_error checks ≡ none → All (λ c. c.0 ≡ false) checks
  first_error-none [] h = tt
  first_error-none ((true, e) ∷ checks) h = cc
  first_error-none ((false, e) ∷ checks) h = (refl, first_error-none checks h)
