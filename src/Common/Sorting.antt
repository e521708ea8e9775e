-- ===== src/Common/Sorting.antt =====
-- Stable insertion sort by a Boolean order, for `sort.Slice` and `sort.SliceStable`.
use native.Mathlib.Omega.{arith}
use mathlib.Core.Path.{◌≡◌, refl}
use Prim.Native.Nat.{ℕ, ◌+◌}
use mathlib.Core.Bool.{Bool, false, true}
use mathlib.Core.List.{List, [], ◌∷◌}
use mathlib.Core.List.{Perm}
use mathlib.Core.List.Perm
use mathlib.Core.Logic.{inl, inr}
use session_pressure.Common.Lists.{sum_of, All-map, All}
use session_pressure.Common.Tests.{if◌then◌else◌, Bool-cases}

module _ {ℓ} {A : Type ℓ} (before : A → A → Bool) where
  -- `x` goes in front of the first element that it is before.
  unfoldable pub insert_by : A → List A → List A
  insert_by x [] = x ∷ []
  insert_by x (y ∷ ys) = let rest = insert_by x ys in if before x y then x ∷ y ∷ ys else y ∷ rest

  -- The last element is inserted first, so that equal elements keep their order.
  unfoldable pub sort_by : List A → List A
  unfolding insert_by
  sort_by [] = []
  sort_by (x ∷ xs) = insert_by x (sort_by xs)

  insert_by-perm : (x : A) (ys : List A) → Perm (insert_by x ys) (x ∷ ys)
  unfolding insert_by
  insert_by-perm x [] = Perm.rfl
  insert_by-perm x (y ∷ ys) = elim (Bool-cases (before x y)) [
    | inl e ↦ rw e Perm.rfl
    | inr e ↦ rw e (Perm.trans (Perm.cons y (insert_by-perm x ys)) (Perm.swap x y ys))
  ]

  pub sort_by-perm : (xs : List A) → Perm (sort_by xs) xs
  unfolding sort_by
  sort_by-perm [] = Perm.rfl
  sort_by-perm (x ∷ xs) = Perm.trans (insert_by-perm x (sort_by xs)) (Perm.cons x (sort_by-perm xs))

  pub All-insert_by {κ} :
      (P : A → Type κ) (x : A) (xs : List A) → P x → All P xs → All P (insert_by x xs)
  unfolding insert_by
  All-insert_by P x [] px h = (px, tt)
  All-insert_by P x (y ∷ ys) px h = elim (Bool-cases (before x y)) [
    | inl e ↦ rw e (px, h)
    | inr e ↦ rw e (h.0, All-insert_by P x ys px h.1)
  ]

  pub All-sort_by {κ} : (P : A → Type κ) (xs : List A) → All P xs → All P (sort_by xs)
  unfolding sort_by
  All-sort_by P [] h = tt
  All-sort_by P (x ∷ xs) h = All-insert_by P x (sort_by xs) h.0 (All-sort_by P xs h.1)

  pub sum_of-insert_by :
      (f : A → ℕ) (x : A) (ys : List A) → sum_of f (insert_by x ys) ≡ f x + sum_of f ys
  unfolding insert_by
  sum_of-insert_by f x [] = refl
  sum_of-insert_by f x (y ∷ ys) = elim (Bool-cases (before x y)) [
    | inl e ↦ rw e refl
    | inr e ↦ rw e (omega (arith, sum_of-insert_by f x ys))
  ]

  pub sum_of-sort_by : (f : A → ℕ) (xs : List A) → sum_of f (sort_by xs) ≡ sum_of f xs
  unfolding sort_by
  sum_of-sort_by f [] = refl
  sum_of-sort_by f (x ∷ xs) = omega (arith, sum_of-insert_by f x (sort_by xs), sum_of-sort_by f xs)

  -- No element is before one that stands in front of it.
  abbrev pub SortedBy : List A → Type 0
  SortedBy [] = Unit {0}
  SortedBy (x ∷ xs) = All (λ y. before y x ≡ false) xs × SortedBy xs

  module _ (behind : (x y : A) → before x y ≡ true → before y x ≡ false)
      (chain : (x y z : A) → before y x ≡ false → before z y ≡ false → before z x ≡ false) where
    insert_by-SortedBy : (x : A) (ys : List A) → SortedBy ys → SortedBy (insert_by x ys)
    unfolding insert_by
    insert_by-SortedBy x [] s = (tt, tt)
    insert_by-SortedBy x (y ∷ ys) s = elim (Bool-cases (before x y)) [
      | inl e ↦ rw e ((behind x y e, All-map _ _ ys (λ z p. chain x y z (behind x y e) p) s.0), s)
      | inr e ↦ rw e (All-insert_by _ x ys e s.0, insert_by-SortedBy x ys s.1)
    ]

    pub sort_by-SortedBy : (xs : List A) → SortedBy (sort_by xs)
    unfolding sort_by
    sort_by-SortedBy [] = tt
    sort_by-SortedBy (x ∷ xs) = insert_by-SortedBy x (sort_by xs) (sort_by-SortedBy xs)
