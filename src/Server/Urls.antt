-- ===== src/Server/Urls.antt =====
-- Which addresses getNamespacedReplicas collects, and where it puts them (pkg/server/processor.go).
use mathlib.Core.Path.{subst₂}
use di_orchestrator.Base.{
  ℕ, zero, suc, ◌+◌, ◌<◌, ◌≡◌, refl, sym, subst, ap, ◌∙◌, Bool, Bool-cases, true, false, not, ◌&&◌,
  Option, none, some, List, [], ◌∷◌, ◌⊎◌, inl, inr, ℤ, pos, negsuc, ◌==◌, All, length, replicate,
  length-set, length-replicate, arith, set, if◌then◌else◌,
}
use di_orchestrator.Text.{Text, is_empty, atoi}
use di_orchestrator.Dict.{text_at}
use di_orchestrator.Kube.{Pod}
use di_orchestrator.Job.{annotation_replicas, annotation_rank}
use di_orchestrator.Server.Requests.{
  put_url, set_url, url_of, place, allocated_urls, number_of, unless_panic, collect_urls,
}

-- A pod without an address, or one of a job with `n` replicas whose rank is one of theirs.
abbrev pub IsPlaced : ℕ → Pod → Type 0
IsPlaced n pod =
    (is_empty pod.status.pod_ip ≡ true)
    ⊎ ((atoi (text_at annotation_replicas pod.annotations) ≡ some (pos n))
        × ((rank : ℕ) × (atoi (text_at annotation_rank pod.annotations) ≡ some (pos rank))
            × (rank < n)))

abbrev is_at : ℕ → Option ℤ → Bool
is_at i none = false
is_at i (some (pos n)) = n == i
is_at i (some (negsuc _)) = false

-- The pod has an address, and this rank.
abbrev pub answers : ℕ → Pod → Bool
answers i pod =
    not (is_empty pod.status.pod_ip) && is_at i (atoi (text_at annotation_rank pod.annotations))

-- The address of the last of the pods that has an address and this rank, or else the given one.
abbrev pub address_at : List Pod → ℕ → Text → Text
address_at [] i url = url
address_at (pod ∷ pods) i url = address_at pods i (if answers i pod then url_of pod else url)

-- The entries of a list, from rank `i` on, with the addresses of the pods put over them.
abbrev pub overlay : List Pod → ℕ → List Text → List Text
overlay pods i [] = []
overlay pods i (url ∷ urls) = address_at pods i url ∷ overlay pods (suc i) urls

abbrev pub some_address : List Pod → Bool
some_address [] = false
some_address (pod ∷ pods) = if is_empty pod.status.pod_ip then some_address pods else true

-- The addresses of the replicas, by their ranks: nil where no pod has an address.
abbrev pub addresses : ℕ → List Pod → Option (List Text)
addresses n pods = if some_address pods then some (overlay pods 0 (replicate n [])) else none

module _ (pod : Pod) (pods : List Pod) where
  pub overlay_none :
      (i : ℕ) (urls : List Text)
      → is_empty pod.status.pod_ip ≡ true
      → overlay (pod ∷ pods) i urls ≡ overlay pods i urls
  overlay_none i [] e = refl
  overlay_none i (url ∷ urls) e = rw (e, overlay_none (suc i) urls e) refl

  module _ (n : ℕ) (has : is_empty pod.status.pod_ip ≡ false)
      (rank : atoi (text_at annotation_rank pod.annotations) ≡ some (pos n)) where
    pub overlay_later :
        (i : ℕ) (urls : List Text) → n < i → overlay (pod ∷ pods) i urls ≡ overlay pods i urls
    overlay_later i [] h = refl
    overlay_later i (url ∷ urls) h =
        rw (has, rank, other i h, overlay_later (suc i) urls (omega arith)) refl
      where
        other : (i : ℕ) → n < i → (n == i) ≡ false
        other i h = ground arith

    overlay-set :
        (i k : ℕ) (urls : List Text)
        → n ≡ i + k
        → overlay (pod ∷ pods) i urls ≡ overlay pods i (set urls k (url_of pod))
    overlay-set i k [] h = refl
    overlay-set i zero (url ∷ urls) h =
        rw (has, rank, same i (omega arith), overlay_later (suc i) urls (omega arith)) refl
      where
        same : (i : ℕ) → n ≡ i → (n == i) ≡ true
        same i h = ground arith
    overlay-set i (suc k) (url ∷ urls) h =
        rw (has, rank, other i (omega arith), overlay-set (suc i) k urls (omega arith)) refl
      where
        other : (i : ℕ) → i < n → (n == i) ≡ false
        other i h = ground arith

number_of-some :
    (on_error : Text → ℤ) (t : Text) (n : ℤ) → atoi t ≡ some n → number_of on_error t ≡ n
number_of-some on_error t n e = rw (e, number_of) refl

set_url_inside :
    (urls : List Text) (rank : ℕ) (url : Text)
    → rank < length urls
    → set_url urls (pos rank) url ≡ some (set urls rank url)
set_url_inside urls rank url h = ground arith

-- The list that there is, or the one that is made for the first address.
abbrev started : ℕ → Option (List Text) → List Text
started n none = replicate n []
started n (some urls) = urls

abbrev IsLong : ℕ → Option (List Text) → Type 0
IsLong n none = Unit
IsLong n (some urls) = length urls ≡ n

put_url_lem :
    (on_error : Text → ℤ) (n : ℕ) (pod : Pod) (urls : Option (List Text)) (rank : ℕ)
    → atoi (text_at annotation_replicas pod.annotations) ≡ some (pos n)
    → atoi (text_at annotation_rank pod.annotations) ≡ some (pos rank)
    → rank < n
    → IsLong n urls
    → put_url on_error pod urls ≡ some (set (started n urls) rank (url_of pod))
unfolding put_url
put_url_lem on_error n pod urls rank a b lt long =
    subst₂
      (λ x y.
        place (allocated_urls urls x) y (url_of pod)
        ≡ some (set (started n urls) rank (url_of pod)))
      (sym (number_of-some on_error (text_at annotation_replicas pod.annotations) (pos n) a))
      (sym (number_of-some on_error (text_at annotation_rank pod.annotations) (pos rank) b))
      (placed urls long)
  where
    placed :
        (urls : Option (List Text))
        → IsLong n urls
        → place (allocated_urls urls (pos n)) (pos rank) (url_of pod)
          ≡ some (set (started n urls) rank (url_of pod))
    placed none long =
        set_url_inside (replicate n []) rank (url_of pod)
          (subst (λ k. rank < k) (sym (length-replicate n [])) lt)
    placed (some all) long = set_url_inside all rank (url_of pod) (omega arith)

started-length : (n : ℕ) (urls : Option (List Text)) → IsLong n urls → length (started n urls) ≡ n
started-length n none long = length-replicate n []
started-length n (some urls) long = long

-- What the loop leaves, from the list that it has so far.
abbrev collected : ℕ → List Pod → Option (List Text) → Option (List Text)
collected n pods none = addresses n pods
collected n pods (some urls) = some (overlay pods 0 urls)

collected_none :
    (n : ℕ) (pod : Pod) (pods : List Pod) (urls : Option (List Text))
    → is_empty pod.status.pod_ip ≡ true
    → collected n (pod ∷ pods) urls ≡ collected n pods urls
collected_none n pod pods none e = rw (overlay_none pod pods 0 (replicate n []) e) (rw e refl)
collected_none n pod pods (some urls) e = ap some (overlay_none pod pods 0 urls e)

collected-set :
    (n : ℕ) (pod : Pod) (pods : List Pod) (urls : Option (List Text)) (rank : ℕ)
    → is_empty pod.status.pod_ip ≡ false
    → atoi (text_at annotation_rank pod.annotations) ≡ some (pos rank)
    → collected n (pod ∷ pods) urls ≡ some (overlay pods 0 (set (started n urls) rank (url_of pod)))
collected-set n pod pods none rank has at =
    rw (overlay-set pod pods rank has at 0 rank (replicate n []) (omega arith)) (rw has refl)
collected-set n pod pods (some urls) rank has at =
    ap some (overlay-set pod pods rank has at 0 rank urls (omega arith))

overlay_nil : (i : ℕ) (urls : List Text) → overlay [] i urls ≡ urls
overlay_nil i [] = refl
overlay_nil i (url ∷ urls) = ap (λ l. url ∷ l) (overlay_nil (suc i) urls)

collect_urls-collected :
    (on_error : Text → ℤ) (n : ℕ) (pods : List Pod) (urls : Option (List Text))
    → All (IsPlaced n) pods
    → IsLong n urls
    → collect_urls on_error pods urls ≡ some (collected n pods urls)
unfolding collect_urls
collect_urls-collected on_error n [] none h long = refl
collect_urls-collected on_error n [] (some urls) h long =
    ap (λ l. some (some l)) (sym (overlay_nil 0 urls))
collect_urls-collected on_error n (pod ∷ pods) urls h long =
    elim (Bool-cases (is_empty pod.status.pod_ip)) [
      | inl no_ip ↦ rw no_ip (
          collect_urls-collected on_error n pods urls h.1 long
          ∙ ap some (sym (collected_none n pod pods urls no_ip)))
      | inr has ↦
          rw has (
            placed (λ all same. collect_urls-collected on_error n pods (some all) h.1 same) has h.0)
    ]
  where
    placed :
        ((all : List Text)
          → length all ≡ n
          → collect_urls on_error pods (some all) ≡ some (some (overlay pods 0 all)))
        → is_empty pod.status.pod_ip ≡ false
        → IsPlaced n pod
        → unless_panic (put_url on_error pod urls) (λ all. collect_urls on_error pods (some all))
          ≡ some (collected n (pod ∷ pods) urls)
    placed next has (inl no_ip) = cc
    placed next has (inr (a, (rank, b, lt))) =
        rw (put_url_lem on_error n pod urls rank a b lt long) (
          next (set (started n urls) rank (url_of pod))
            (length-set (started n urls) rank (url_of pod) ∙ started-length n urls long)
          ∙ ap some (sym (collected-set n pod pods urls rank has b)))

-- For pods of a job with `n` replicas, in any order, each without an address or with a rank below
-- `n`, the loop of getNamespacedReplicas does not panic. Where no pod has an address it returns nil,
-- and else a list of `n` entries: at each rank the address of the last of the pods that has one and
-- is marked with this rank, and an empty text where there is none.
pub collect_urls-addresses :
    (on_error : Text → ℤ) (n : ℕ) (pods : List Pod)
    → All (IsPlaced n) pods
    → collect_urls on_error pods none ≡ some (addresses n pods)
collect_urls-addresses on_error n pods h = collect_urls-collected on_error n pods none h tt
