-- ===== src/Text/Bytes.antt =====
-- Texts cut at a byte: a text ends in one way only in a separator and a part without it.
use di_orchestrator.Base.{ℕ, ◌≡◌, refl, sym, subst, false, [], ◌∷◌, ◌++◌, arith, ◌==◌, All}
use di_orchestrator.Text.{Text}

-- A byte does not occur in a text.
abbrev pub IsFree : ℕ → Text → Type 0
IsFree sep s = All (λ c. (c == sep) ≡ false) s

pub append_cancel : (s t u : Text) → s ++ t ≡ s ++ u → t ≡ u
append_cancel [] t u e = e
append_cancel (c ∷ s) t u e = append_cancel s t u (cc)

not_free : (sep : ℕ) (s t : Text) → IsFree sep (s ++ sep ∷ t) → ⊥
not_free sep [] t h = ground arith
not_free sep (c ∷ s) t h = not_free sep s t h.1

pub tail_eq : {c d : ℕ} {s t : Text} → c ∷ s ≡ d ∷ t → s ≡ t
tail_eq e = cc

-- The part after the last separator, and the part before it.
pub last_part :
    (sep : ℕ) (a b s t : Text)
    → IsFree sep s
    → IsFree sep t
    → a ++ sep ∷ s ≡ b ++ sep ∷ t
    → (a ≡ b) × (s ≡ t)
last_part sep [] [] s t h k e = (refl, tail_eq e)
last_part sep [] (c ∷ b) s t h k e = absurd (not_free sep b t (subst (IsFree sep) (tail_eq e) h))
last_part sep (c ∷ a) [] s t h k e =
    absurd (not_free sep a s (subst (IsFree sep) (sym (tail_eq e)) k))
last_part sep (c ∷ a) (d ∷ b) s t h k e =
    let rest = last_part sep a b s t h k (tail_eq e) in (cc rest.0, rest.1)
