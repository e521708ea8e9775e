-- ===== src/Ledger/Runs/Phases.antt =====
-- The abstract view of the ledger of sessionpressure/worklease.go: each operation is absent, queued
-- or under lease, and one operation moves at a time. Orders, weights, marks and pins are forgotten.
use session_pressure.Common.{
  Bool, ℕ, List, contains, if◌then◌else◌, ◌≡◌, ◌==◌, ◌≢◌, not, false, map, true, ◌||◌, ◌&&◌,
  keep_if, ◌++◌, Bool-cases, arith, ◌∷◌, inl, [], ==→eq, refl, inr,
}
use session_pressure.Ledger.{WorkState, lease_operations, waiter_operations}

pub data Phase : Type 0 where
  absent queued leased : Phase

abbrev pub phase_of : Bool → Bool → Phase
phase_of true _ = leased
phase_of false true = queued
phase_of false false = absent

-- The phase of each operation in a state.
abbrev pub phase : WorkState → ℕ → Phase
phase s op =
    phase_of (contains op (lease_operations s.leases)) (contains op (waiter_operations s.waiters))

-- One operation is in a new phase.
abbrev pub moved : ℕ → Phase → (ℕ → Phase) → ℕ → Phase
moved op p v o = if o == op then p else v o

-- What may happen to the phases: an operation is admitted at once only where nobody queues.
pub data Move (v w : ℕ → Phase) : Type 0 where
  stays : ((o : ℕ) → w o ≡ v o) → Move v w
  enqueues : (op : ℕ) → v op ≡ absent → ((o : ℕ) → w o ≡ moved op queued v o) → Move v w
  admits :
      (op : ℕ)
      → v op ≡ absent
      → ((o : ℕ) → v o ≢ queued)
      → ((o : ℕ) → w o ≡ moved op leased v o)
      → Move v w
  starts : (op : ℕ) → v op ≡ queued → ((o : ℕ) → w o ≡ moved op leased v o) → Move v w
  gives_up : (op : ℕ) → v op ≡ queued → ((o : ℕ) → w o ≡ moved op absent v o) → Move v w
  ends : (op : ℕ) → v op ≡ leased → ((o : ℕ) → w o ≡ moved op absent v o) → Move v w
  yields : (op : ℕ) → v op ≡ leased → ((o : ℕ) → w o ≡ moved op queued v o) → Move v w

-- Where an operation is not, its leaving changes nothing.
pub left_absent :
    (ls : List ℕ) (op o : ℕ)
    → contains op ls ≡ false
    → (not (o == op) && contains o ls) ≡ contains o ls
left_absent ls op o h = elim (Bool-cases (o == op)) [
  | inl e ↦ rw (e, ==→eq o op e, h) refl
  | inr e ↦ rw e refl
]

module _ {ℓ} {A : Type ℓ} (f : A → ℕ) where
  pub contains-keep_if-not :
      (op o : ℕ) (xs : List A)
      → contains o (map f (keep_if (λ x. not (f x == op)) xs))
        ≡ (not (o == op) && contains o (map f xs))
  contains-keep_if-not op o [] = ground arith
  contains-keep_if-not op o (x ∷ xs) = ground (arith, contains-keep_if-not op o xs)

  pub contains-append_one :
      (o : ℕ) (x : A) (xs : List A)
      → contains o (map f (xs ++ x ∷ [])) ≡ (o == f x || contains o (map f xs))
  contains-append_one o x [] = refl
  contains-append_one o x (y ∷ xs) = ground (arith, contains-append_one o x xs)
