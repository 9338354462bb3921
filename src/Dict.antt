-- ===== src/Dict.antt =====
-- Go maps with string keys, as association lists in the order of insertion.
use di_orchestrator.Base.{◌≡◌, refl, Option, none, some, List, [], ◌∷◌, arith, if◌then◌else◌}
use di_orchestrator.Text.{Text, text_eq, text_eq_iff}

abbrev pub Dict {ℓ} : Type ℓ → Type ℓ
Dict V = List (Text × V)

module _ {ℓ} {V : Type ℓ} where
  -- `v, ok := m[k]`
  unfoldable pub lookup : Text → Dict V → Option V
  lookup k [] = none
  lookup k ((j, v) ∷ m) = if text_eq j k then some v else lookup k m

  -- `m[k] = v`
  unfoldable pub insert : Text → V → Dict V → Dict V
  insert k v [] = (k, v) ∷ []
  insert k v ((j, w) ∷ m) = if text_eq j k then (j, v) ∷ m else (j, w) ∷ insert k v m

  -- `m[k]`, with the zero value of the type for a missing key.
  abbrev pub get_or : Text → Dict V → V → V
  get_or k m z = elim (lookup k m) [ none ↦ z | some v ↦ v ]

  -- `for k, v := range from { to[k] = v }`
  unfoldable pub insert_all : Dict V → Dict V → Dict V
  insert_all [] to = to
  insert_all ((k, v) ∷ from) to = insert_all from (insert k v to)

  pub lookup-insert :
      (k j : Text) (v : V) (m : Dict V)
      → lookup j (insert k v m) ≡ (if text_eq k j then some v else lookup j m)
  unfolding lookup insert
  lookup-insert k j v [] = refl
  lookup-insert k j v ((i, w) ∷ m) =
      ground (arith, text_eq_iff k j, text_eq_iff i k, text_eq_iff i j, lookup-insert k j v m)

-- `m[k]` in a map of strings.
abbrev pub text_at : Text → Dict Text → Text
text_at k m = get_or k m []
