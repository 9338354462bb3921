-- ===== src/Utils/Validator/Maps.antt =====
-- Maps of counters: each key is listed once, and the value of a counter after an increase.
use di_orchestrator.Base.{ℕ, ◌+◌, ◌≤◌, ◌≡◌, refl, none, [], ◌∷◌, arith, All, if◌then◌else◌}
use di_orchestrator.Text.{Text, text_eq, text_eq_iff}
use di_orchestrator.Dict.{Dict, lookup, insert, lookup-insert}
use di_orchestrator.Utils.Validator.{number, increase}

-- No key is listed twice.
abbrev pub IsMap : Dict ℕ → Type 0
IsMap [] = Unit
IsMap ((k, v) ∷ m) = (lookup k m ≡ none) × IsMap m

pub insert-IsMap : (k : Text) (v : ℕ) (m : Dict ℕ) → IsMap m → IsMap (insert k v m)
unfolding insert lookup
insert-IsMap k v [] h = (refl, tt)
insert-IsMap k v ((j, w) ∷ m) h =
    ground (arith, insert-IsMap k v m h.1, lookup-insert k j v m, text_eq_iff j k, text_eq_iff k j)

pub number-increase :
    (k j : Text) (m : Dict ℕ)
    → number j (increase k m) ≡ (if text_eq k j then number j m + 1 else number j m)
number-increase k j m = ground (arith, lookup-insert k j (number k m + 1) m, text_eq_iff k j)

abbrev pub AtMostOne : Text × ℕ → Type 0
AtMostOne (k, n) = n ≤ 1

-- In a map with each key once, the entries and the values of the counters say the same.
pub All-number : (m : Dict ℕ) → All AtMostOne m → (k : Text) → number k m ≤ 1
unfolding lookup
All-number [] h k = omega arith
All-number ((j, w) ∷ m) h k = ground (arith, All-number m h.1 k)

pub number-All : (m : Dict ℕ) → IsMap m → ((k : Text) → number k m ≤ 1) → All AtMostOne m
unfolding lookup
number-All [] u h = tt
number-All ((j, w) ∷ m) u h = (
  ground (arith, h j, text_eq_iff j j),
  number-All m u.1 (λ k. ground (arith, h k, text_eq_iff j k, u.0)),
)
