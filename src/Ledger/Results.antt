-- ===== src/Ledger/Results.antt =====
-- What a chain of the ledger's checks, in any file of sessionpressure, needed to succeed.
use session_pressure.Ledger.Operations.{Result, ok, err, ◌>>=◌, ◌>>◌, WorkError, require}
use session_pressure.Common.{◌≡◌, refl, Bool, true, false, ◌⊎◌, inl, inr}

pub bind_ok :
    {A B : Type 0} (m : Result A) (f : A → Result B) (b : B)
    → (m >>= f) ≡ ok b
    → (a : A) × (m ≡ ok a) × (f a ≡ ok b)
bind_ok (ok a) f b h = (a, refl, h)
bind_ok (err e) f b h = cc

-- A check passed, and the rest of the chain succeeded.
pub require_ok :
    {B : Type 0} (holds : Bool) (e : WorkError) (f : Unit {0} → Result B) (b : B)
    → (require holds e >>= f) ≡ ok b
    → (holds ≡ true) × (f tt ≡ ok b)
require_ok true e f b h = (refl, h)
require_ok false e f b h = cc

pub check_ok :
    {B : Type 0} (holds : Bool) (e : WorkError) (next : Result B) (b : B)
    → (require holds e >> next) ≡ ok b
    → (holds ≡ true) × (next ≡ ok b)
check_ok true e next b h = (refl, h)
check_ok false e next b h = cc

pub ok_inj : {A : Type 0} (a b : A) → ok a ≡ ok b → a ≡ b
ok_inj a b h = cc

pub Result-cases :
    {A : Type 0} (m : Result A) → ((e : WorkError) × (m ≡ err e)) ⊎ ((a : A) × (m ≡ ok a))
Result-cases (err e) = inl (e, refl)
Result-cases (ok a) = inr (a, refl)
