-- ===== src/Ledger/Reconcile/Rounds.antt =====
-- The rounds of the loops of `reconcile`, sessionpressure/worklease.go: what is read is fresh, and
-- what is kept is part of it.
use mathlib.Core.List.{Sublist}
use session_pressure.Ledger.Operations.{ok, Result, ◌>>=◌, err}
use session_pressure.Ledger.Reconcile.{keep_item, Kept}
use session_pressure.Common.{
  List, ℕ, ◌∷◌, contains, Distinct, Bool, ◌≡◌, arith, false, true, ==_refl, [], Bool-cases, ◌++◌,
  map, All, ◌==◌, contains-append, refl, inl, clash, ◌⊎◌, ap, inr, ==→eq, sym,
}
use session_pressure.Ledger.Results.{ok_inj}
use mathlib.Core.List.Sublist

-- The operations of what one loop read: none was seen before, and none stands twice.
abbrev pub Fresh : List ℕ → List ℕ → Type 0
Fresh seen [] = Unit {0}
Fresh seen (x ∷ xs) = (contains x seen ≡ false) × Fresh (x ∷ seen) xs

-- What was not seen before is not in what was seen before.
pub Fresh-apart :
    (a : ℕ) (seen xs : List ℕ) → contains a seen ≡ true → Fresh seen xs → contains a xs ≡ false
Fresh-apart a seen [] m f = refl
Fresh-apart a seen (x ∷ xs) m f = elim (Bool-cases (a == x)) [
  | inl e ↦ absurd (clash (contains a seen) m (rw (==→eq a x e) f.0))
  | inr e ↦ ground (arith, Fresh-apart a (x ∷ seen) xs (ground arith) f.1)
]

pub Fresh-Distinct : (seen xs : List ℕ) → Fresh seen xs → Distinct xs
Fresh-Distinct seen [] f = tt
Fresh-Distinct seen (x ∷ xs) f =
    (Fresh-apart x (x ∷ seen) xs (ground (arith, ==_refl x)) f.1, Fresh-Distinct (x ∷ seen) xs f.1)

-- Distinct operations, and fresh ones behind them, are distinct together.
pub Distinct-append :
    (xs ys seen : List ℕ)
    → ((a : ℕ) → contains a xs ≡ true → contains a seen ≡ true)
    → Distinct xs
    → Fresh seen ys
    → Distinct (xs ++ ys)
Distinct-append [] ys seen within d f = Fresh-Distinct seen ys f
Distinct-append (x ∷ xs) ys seen within d f = (
  rw (contains-append x xs ys, d.0)
      (Fresh-apart x seen ys (within x (ground (arith, ==_refl x))) f),
  Distinct-append xs ys seen (λ a m. within a (ground arith)) d.1 f,
)

-- What one round keeps of its item, in front of what the rest keeps.
abbrev pub Keeps {ℓ} : {A : Type ℓ} → Bool → A → List A → List A → Type ℓ
Keeps stays x rest items = (stays ≡ true) × (items ≡ x ∷ rest) ⊎ (stays ≡ false) × (items ≡ rest)

pub keep_item-Keeps :
    {A : Type 0} (stays changed : Bool) (x : A) (k r : Kept A)
    → ok (keep_item stays changed x k) ≡ ok r
    → Keeps stays x k.items r.items
unfolding keep_item
keep_item-Keeps true changed x k r e = inl (refl, ap (λ q. q.items) (sym (ok_inj _ r e)))
keep_item-Keeps false changed x k r e = inr (refl, ap (λ q. q.items) (sym (ok_inj _ r e)))

-- One round of a loop that succeeds.
pub round_ok :
    {A : Type 0} (check : Result Bool) (rest : Result (Kept A)) (changed : Bool) (x : A)
    (g : Kept A → Kept A) (r : Kept A)
    → ((k : Kept A) → (g k).items ≡ k.items)
    → (check >>= λ stays. rest >>= λ k. ok (keep_item stays changed x (g k))) ≡ ok r
    → (stays : Bool) × (check ≡ ok stays)
      × (k : Kept A) × (rest ≡ ok k)
      × Keeps stays x k.items r.items
round_ok (err f) rest changed x g r same e = cc
round_ok (ok stays) (err f) changed x g r same e = cc
round_ok (ok stays) (ok k) changed x g r same e =
    (stays, refl, k, refl, rw (sym (same k)) (keep_item-Keeps stays changed x (g k) r e))

-- What a loop keeps is part of what it read.
pub Keeps-sublist :
    {A : Type 0} (f : A → ℕ) (stays : Bool) (x : A) (rest items : List A) (ys : List ℕ)
    → Keeps stays x rest items
    → Sublist (map f rest) ys
    → Sublist (map f items) (f x ∷ ys)
Keeps-sublist f stays x rest items ys (inl (_, e)) s = rw e (Sublist.cons-cons (f x) s)
Keeps-sublist f stays x rest items ys (inr (_, e)) s = rw e (Sublist.cons (f x) s)

pub All-Keeps {κ} :
    {A : Type 0} (P : A → Type κ) (stays : Bool) (x : A) (rest items : List A)
    → Keeps stays x rest items
    → (stays ≡ true → P x)
    → All P rest
    → All P items
All-Keeps P stays x rest items (inl (stay, e)) px all = rw e (px stay, all)
All-Keeps P stays x rest items (inr (_, e)) px all = rw e all
