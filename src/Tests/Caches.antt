-- ===== src/Tests/Caches.antt =====
-- A cache of two objects, and a third.
use mathlib.Core.List.{Perm}
use session_pressure.Common.{List, ◌≤◌, ◌∷◌, [], ◌++◌, All, ◌≡◌, false, some, refl}
use session_pressure.GoCache.{Object, put, evict, find_object, write_object, drop_until, older}
use session_pressure.GoCache.Eviction.{evict_oldest, put_within, Needed}

abbrev old_object : Object
old_object = record { action = 1; mod_time = 10; size = 40; output = 1; put_at = 10 }

abbrev new_object : Object
new_object = record { action = 2; mod_time = 20; size = 50; output = 2; put_at = 20 }

abbrev two_objects : List Object
two_objects = new_object ∷ old_object ∷ []

evict_oldest_example :
    (gone : List Object) × Perm two_objects (gone ++ evict 60 two_objects)
    × All (λ g. All (λ k. older k g ≡ false) (evict 60 two_objects)) gone
    × Needed 60 (evict 60 two_objects) gone
evict_oldest_example = evict_oldest 60 two_objects

finds_third :
    find_object 3 (put 100 3 3 10 30 two_objects)
    ≡ some (record { action = 3; mod_time = 30; size = 10; output = 3; put_at = 30 })
unfolding put find_object write_object evict drop_until
finds_third = refl

put_within_example : 10 ≤ 100
put_within_example =
    put_within 100 3 3 10 30 3 two_objects
      (record { action = 3; mod_time = 30; size = 10; output = 3; put_at = 30 }) finds_third
