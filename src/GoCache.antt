-- ===== src/GoCache.antt =====
-- The bounded cache of build outputs: sessionpressure/gocachelru/lru.go. An object is a file whose
-- name is the hexadecimal action identity, with its meta file beside it; a file system error is not
-- modelled. Objects stand in the order of the directory walk.
pub mod Eviction
use session_pressure.Common.{
  ℕ, List, Bool, sum_of, ltb, ◌∷◌, if◌then◌else◌, Option, ◌-◌, leb, none, ◌==◌, [], sort_by, some,
}

pub record Object : Type 0 where
  pub action : ℕ
  pub mod_time : ℕ
  pub size : ℕ
  pub output : ℕ
  pub put_at : ℕ

abbrev pub total_size : List Object → ℕ
total_size = sum_of (λ o. o.size)

abbrev pub older : Object → Object → Bool
older a b = ltb a.mod_time b.mod_time

-- The first objects are removed while the rest is above the bound.
unfoldable pub drop_until : ℕ → ℕ → List Object → List Object
drop_until bound total [] = []
drop_until bound total (o ∷ os) =
    let rest = drop_until bound (total - o.size) os in if leb total bound then o ∷ os else rest

-- evictLocked.
unfoldable pub evict : ℕ → List Object → List Object
unfolding drop_until
evict bound os =
    if leb (total_size os) bound then os else drop_until bound (total_size os) (sort_by older os)

unfoldable pub find_object : ℕ → List Object → Option Object
find_object a [] = none
find_object a (o ∷ os) = let rest = find_object a os in if o.action == a then some o else rest

-- A file is written over, or added.
unfoldable pub write_object : Object → List Object → List Object
write_object new [] = new ∷ []
write_object new (o ∷ os) =
    let rest = write_object new os in if o.action == new.action then new ∷ os else o ∷ rest

unfoldable pub touch : ℕ → ℕ → List Object → List Object
touch a now [] = []
touch a now (o ∷ os) =
    let rest = touch a now os in
    if o.action == a then record o { mod_time = now } ∷ os else o ∷ rest

-- `get`: a hit makes the object the youngest.
unfoldable pub get : ℕ → ℕ → List Object → List Object × Option Object
unfolding touch find_object
get a now os = elim (find_object a os) [ none ↦ (os, none) | some o ↦ (touch a now os, some o) ]

-- `put`: the object is written, then the bound is restored.
unfoldable pub put : ℕ → ℕ → ℕ → ℕ → ℕ → List Object → List Object
unfolding write_object evict
put bound a output size now os = evict bound (
    write_object (record { action = a; mod_time = now; size = size; output = output; put_at = now })
      os)
