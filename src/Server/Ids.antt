-- ===== src/Server/Ids.antt =====
-- The names that a job is known by, and back: parseJobID (pkg/server/utils.go) and
-- SplitNamespaceName (pkg/utils/util.go).
use di_orchestrator.Base.{
  ℕ, ◌≡◌, refl, ap, ◌∙◌, sym, [], ◌∷◌, ◌++◌, ==_iff, inr, append_assoc, append-nil,
}
use di_orchestrator.Text.{Text, split, split_from}
use di_orchestrator.Text.Bytes.{IsFree}
use di_orchestrator.Utils.Names.{namespaced_name, split_namespace_name, pair_of}
use di_orchestrator.Server.Requests.{parse_job_id, two_items}

split_from-free : (sep : ℕ) (cur s : Text) → IsFree sep s → split_from sep cur s ≡ (cur ++ s) ∷ []
unfolding split_from
split_from-free sep cur [] h = ap (λ t. t ∷ []) (sym (append-nil cur))
split_from-free sep cur (c ∷ s) h =
    rw h.0
      (split_from-free sep (cur ++ c ∷ []) s h.1 ∙ ap (λ t. t ∷ []) (append_assoc cur (c ∷ []) s))

split_from-sep :
    (sep : ℕ) (cur s rest : Text)
    → IsFree sep s
    → split_from sep cur (s ++ sep ∷ rest) ≡ (cur ++ s) ∷ split_from sep [] rest
unfolding split_from
split_from-sep sep cur [] rest h =
    rw ((==_iff sep sep).1 refl) (ap (λ t. t ∷ split_from sep [] rest) (sym (append-nil cur)))
split_from-sep sep cur (c ∷ s) rest h = rw h.0 (
    split_from-sep sep (cur ++ c ∷ []) s rest h.1
    ∙ ap (λ t. t ∷ split_from sep [] rest) (append_assoc cur (c ∷ []) s))

split_two :
    (sep : ℕ) (s t : Text) → IsFree sep s → IsFree sep t → split sep (s ++ sep ∷ t) ≡ s ∷ t ∷ []
unfolding split
split_two sep s t h k = split_from-sep sep [] s t h ∙ ap (λ l. s ∷ l) (split_from-free sep [] t k)

-- A namespace and a name without a slash come back from the text that NamespacedName makes of them.
pub split_namespace_name-namespaced_name :
    (namespace name : Text)
    → IsFree b'/' namespace
    → IsFree b'/' name
    → split_namespace_name (namespaced_name namespace name)
      ≡ inr (record { namespace = namespace; name = name })
unfolding split_namespace_name namespaced_name
split_namespace_name-namespaced_name namespace name h k =
    ap (pair_of (namespaced_name namespace name)) (split_two b'/' namespace name h k)

-- A job id `namespace.name`, where neither part has a dot, is parsed into its parts.
pub parse_job_id_dotted :
    (namespace name : Text)
    → IsFree b'.' namespace
    → IsFree b'.' name
    → parse_job_id (namespace ++ b'.' ∷ name) ≡ inr (record { namespace = namespace; name = name })
unfolding parse_job_id
parse_job_id_dotted namespace name h k =
    ap (two_items (namespace ++ b'.' ∷ name)) (split_two b'.' namespace name h k)
