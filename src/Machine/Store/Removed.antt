-- ===== src/Machine/Store/Removed.antt =====
-- The pods that are left when some are deleted, by their names.
use di_orchestrator.Base.{
  ◌≡◌, refl, sym, ap, ◌∙◌, Bool, Bool-cases, true, false, not, inl, inr, List, [], ◌∷◌, arith,
  filter,
}
use di_orchestrator.Text.{Text, text_eq_refl}
use di_orchestrator.Kube.{Pod}
use di_orchestrator.Machine.Store.{is_pod, holds, Seen}

abbrev pub other_than : Pod → Pod → Bool
other_than pod p = not (is_pod pod.namespace pod.name p)

abbrev pub remove_all : List Pod → List Pod → List Pod
remove_all [] held = held
remove_all (pod ∷ pods) held = remove_all pods (filter (other_than pod) held)

filter-filter :
    {A : Type 0} (p q : A → Bool) (xs : List A) → filter p (filter q xs) ≡ filter q (filter p xs)
filter-filter p q [] = refl
filter-filter p q (x ∷ xs) = elim (Bool-cases (p x)) [
  | inl px ↦ elim (Bool-cases (q x)) [
    | inl qx ↦ rw (px, qx) (rw px (ap (λ l. x ∷ l) (filter-filter p q xs)))
    | inr qx ↦ rw (px, qx) (filter-filter p q xs)
  ]
  | inr px ↦ elim (Bool-cases (q x)) [
    | inl qx ↦ rw (px, qx) (rw px (filter-filter p q xs))
    | inr qx ↦ rw (px, qx) (filter-filter p q xs)
  ]
]

pub remove_all-filter :
    (p : Pod → Bool) (pods held : List Pod)
    → filter p (remove_all pods held) ≡ remove_all pods (filter p held)
remove_all-filter p [] held = refl
remove_all-filter p (pod ∷ pods) held =
    remove_all-filter p pods (filter (other_than pod) held)
    ∙ ap (remove_all pods) (filter-filter p (other_than pod) held)

is_pod_self : (p : Pod) → is_pod p.namespace p.name p ≡ true
is_pod_self p = rw (text_eq_refl p.namespace, text_eq_refl p.name) refl

-- Nothing is left of pods that are deleted as they were seen.
pub remove_all-Seen : (seen pods : List Pod) → Seen seen pods → remove_all seen pods ≡ []
remove_all-Seen [] [] h = refl
remove_all-Seen [] (_ ∷ _) h = absurd h
remove_all-Seen (_ ∷ _) [] h = absurd h
remove_all-Seen (p ∷ seen) (q ∷ pods) h =
    ap (remove_all seen) (rw gone refl)
    ∙ (sym (remove_all-filter (other_than p) seen pods)
        ∙ ap (filter (other_than p)) (remove_all-Seen seen pods h.1))
  where
    gone : is_pod p.namespace p.name q ≡ true
    gone = ap (λ r. is_pod r.namespace r.name q) h.0.0 ∙ is_pod_self q

filter-holds :
    (p : Pod → Bool) (namespace name : Text) (held : List Pod)
    → holds namespace name held ≡ false
    → holds namespace name (filter p held) ≡ false
filter-holds p namespace name [] h = refl
filter-holds p namespace name (x ∷ held) h = elim (Bool-cases (p x)) [
  | inl kept ↦ rw kept (ground (arith, filter-holds p namespace name held))
  | inr gone ↦ rw gone (filter-holds p namespace name held (ground arith))
]

-- A name that is free stays free.
pub remove_all-holds :
    (pods : List Pod) (namespace name : Text) (held : List Pod)
    → holds namespace name held ≡ false
    → holds namespace name (remove_all pods held) ≡ false
remove_all-holds [] namespace name held h = h
remove_all-holds (pod ∷ pods) namespace name held h =
    remove_all-holds pods namespace name (filter (other_than pod) held)
      (filter-holds (other_than pod) namespace name held h)

-- Where none passes a test, all pass its negation.
pub filter-not :
    {A : Type 0} (p : A → Bool) (xs : List A) → filter p xs ≡ [] → filter (λ x. not (p x)) xs ≡ xs
filter-not p [] h = refl
filter-not p (x ∷ xs) h = elim (Bool-cases (p x)) [
  | inl yes_ ↦ cc (rw yes_ at h)
  | inr no_ ↦ rw no_ (ap (λ l. x ∷ l) (filter-not p xs (rw no_ at h)))
]
