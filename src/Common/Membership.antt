-- ===== src/Common/Membership.antt =====
-- Boolean membership among numbers, lists with no repetition, and the removal of repetitions.
use mathlib.Core.Logic.{inl, inr}
use Prim.Native.Nat.{ℕ}
use mathlib.Core.Path.{◌≡◌, refl, sym, ◌∙◌}
use mathlib.Core.Bool.{Bool, false, ◌&&◌, ◌||◌, true, Bool-set}
use mathlib.Core.List.{
  List, [], ◌∷◌, ◌++◌, Mem, Sublist, not-mem-nil, mem-cons, Nodup, Perm, map, Nodup-nil, Nodup-cons,
}
use native.Mathlib.Omega.{arith}
use mathlib.Core.List.Sublist
use mathlib.Core.List.Nodup
use mathlib.Core.List.Perm
use mathlib.Core.Logic.Or
use session_pressure.Common.Tests.{◌==◌, Bool-cases, ==→eq}
use session_pressure.Common.Lists.{keep_if}

abbrev pub contains : ℕ → List ℕ → Bool
contains a [] = false
contains a (x ∷ xs) = a == x || contains a xs

abbrev pub Distinct : List ℕ → Type 0
Distinct [] = Unit {0}
Distinct (x ∷ xs) = (contains x xs ≡ false) × Distinct xs

pub contains-append :
    (a : ℕ) (xs ys : List ℕ) → contains a (xs ++ ys) ≡ (contains a xs || contains a ys)
contains-append a [] ys = refl
contains-append a (x ∷ xs) ys = ground (arith, contains-append a xs ys)

pub contains-keep_if :
    (a : ℕ) (p : ℕ → Bool) (xs : List ℕ) → contains a (keep_if p xs) ≡ (p a && contains a xs)
contains-keep_if a p [] = ground arith
contains-keep_if a p (x ∷ xs) = ground (arith, contains-keep_if a p xs)

pub Distinct-keep_if : (p : ℕ → Bool) (xs : List ℕ) → Distinct xs → Distinct (keep_if p xs)
Distinct-keep_if p [] d = tt
Distinct-keep_if p (x ∷ xs) d = ground (arith, Distinct-keep_if p xs d.1, contains-keep_if x p xs)

-- The Boolean membership decides the library's.
pub contains→mem : (a : ℕ) (xs : List ℕ) → contains a xs ≡ true → Mem a xs
contains→mem a [] h = cc
contains→mem a (x ∷ xs) h = elim (Bool-cases (a == x)) [
  | inl e ↦ mem-cons.1 (Or.inl (==→eq a x e))
  | inr e ↦ mem-cons.1 (Or.inr (contains→mem a xs (ground arith)))
]

pub mem→contains : (a : ℕ) (xs : List ℕ) → Mem a xs → contains a xs ≡ true
mem→contains a [] m = absurd (not-mem-nil m)
mem→contains a (x ∷ xs) m =
    Or.elim (Bool-set _ _) (mem-cons.0 m) (λ e. ground (arith, e))
      (λ r. ground (arith, mem→contains a xs r))

module _ {ℓ} {A : Type ℓ} where
  pub keep_if-sublist : (p : A → Bool) (xs : List A) → Sublist (keep_if p xs) xs
  keep_if-sublist p [] = Sublist.refl []
  keep_if-sublist p (x ∷ xs) = elim (Bool-cases (p x)) [
    | inl e ↦ rw e (Sublist.cons-cons x (keep_if-sublist p xs))
    | inr e ↦ rw e (Sublist.cons x (keep_if-sublist p xs))
  ]

pub clash : (b : Bool) → b ≡ true → b ≡ false → ⊥
clash b e f = cc

-- The Boolean form of having no repetition, and the library's.
pub Distinct→Nodup : (xs : List ℕ) → Distinct xs → Nodup xs
Distinct→Nodup [] d = Nodup-nil
Distinct→Nodup (x ∷ xs) d =
    Nodup-cons.1 ((λ m. clash (contains x xs) (mem→contains x xs m) d.0), Distinct→Nodup xs d.1)

pub Nodup→Distinct : (xs : List ℕ) → Nodup xs → Distinct xs
Nodup→Distinct [] d = tt
Nodup→Distinct (x ∷ xs) d = elim (Bool-cases (contains x xs)) [
  | inl e ↦ absurd ((Nodup-cons.0 d).0 (contains→mem x xs e))
  | inr e ↦ (e, Nodup→Distinct xs (Nodup-cons.0 d).1)
]

pub Distinct-perm : (xs ys : List ℕ) → Perm xs ys → Distinct ys → Distinct xs
Distinct-perm xs ys p d = Nodup→Distinct xs (Perm.nodup (Perm.symm p) (Distinct→Nodup ys d))

pub contains-perm : (a : ℕ) (xs ys : List ℕ) → Perm xs ys → contains a xs ≡ contains a ys
contains-perm a xs ys p = elim (Bool-cases (contains a xs)) [
  | inl e ↦ rw e (sym (mem→contains a ys (Perm.subset p a (contains→mem a xs e))))
  | inr e ↦ elim (Bool-cases (contains a ys)) [
    | inl e' ↦ absurd (
        clash (contains a xs)
          (mem→contains a xs (Perm.subset (Perm.symm p) a (contains→mem a ys e'))) e)
    | inr e' ↦ e ∙ sym e'
  ]
]

-- A sublist without what was dropped has no repetition either, in any context.
pub Distinct-sublist : (xs ys : List ℕ) → Sublist xs ys → Distinct ys → Distinct xs
Distinct-sublist xs ys s d = Nodup→Distinct xs (Nodup.sublist s (Distinct→Nodup ys d))

module _ {ℓ} {A : Type ℓ} where
  pub map-keep_if-sublist :
      (f : A → ℕ) (p : A → Bool) (xs : List A) → Sublist (map f (keep_if p xs)) (map f xs)
  map-keep_if-sublist f p [] = Sublist.refl []
  map-keep_if-sublist f p (x ∷ xs) = elim (Bool-cases (p x)) [
    | inl e ↦ rw e (Sublist.cons-cons (f x) (map-keep_if-sublist f p xs))
    | inr e ↦ rw e (Sublist.cons (f x) (map-keep_if-sublist f p xs))
  ]

-- What stands in the first part does not stand in the second.
pub Distinct-append_apart :
    (a : ℕ) (xs ys : List ℕ) → Distinct (xs ++ ys) → contains a xs ≡ true → contains a ys ≡ false
Distinct-append_apart a [] ys d h = cc
Distinct-append_apart a (x ∷ xs) ys d h = elim (Bool-cases (a == x)) [
  | inl e ↦ ground (arith, d.0, contains-append x xs ys)
  | inr e ↦ Distinct-append_apart a xs ys d.1 (ground arith)
]

pub Distinct-append_left : (xs ys : List ℕ) → Distinct (xs ++ ys) → Distinct xs
Distinct-append_left [] ys d = tt
Distinct-append_left (x ∷ xs) ys d =
    (ground (arith, d.0, contains-append x xs ys), Distinct-append_left xs ys d.1)

pub Distinct-append_right : (xs ys : List ℕ) → Distinct (xs ++ ys) → Distinct ys
Distinct-append_right [] ys d = d
Distinct-append_right (x ∷ xs) ys d = Distinct-append_right xs ys d.1
