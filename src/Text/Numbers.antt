-- ===== src/Text/Numbers.antt =====
-- strconv: reading back what Itoa prints.
use di_orchestrator.Base.{
  ℕ, zero, suc, ◌+◌, ◌/◌, ◌%◌, ◌<◌, ◌≤◌, ◌≡◌, refl, Bool-cases, inl, inr, some, [], ◌∷◌, arith, ltb,
  pos, ◌∙◌,
}
use di_orchestrator.Text.{Text, digits_from, itoa, parse_digits, atoi}
use di_orchestrator.Text.Bytes.{IsFree}

parse_digits-digits_from :
    (f n : ℕ) (acc : Text) → n < f → parse_digits (digits_from f n acc) 0 ≡ parse_digits acc n
unfolding digits_from parse_digits
parse_digits-digits_from zero n acc h = elim h [ ]
parse_digits-digits_from (suc f) n acc h =
    ground (arith, parse_digits-digits_from f (n / 10) ((48 + n % 10) ∷ acc))

-- The printed number begins with a digit.
data StartsWithDigit : Text → Type 0 where
  digit : (c : ℕ) (s : Text) → 48 ≤ c → c ≤ 57 → StartsWithDigit (c ∷ s)

digits_from-StartsWithDigit : (f n : ℕ) (acc : Text) → n < f → StartsWithDigit (digits_from f n acc)
unfolding digits_from
digits_from-StartsWithDigit zero n acc h = elim h [ ]
digits_from-StartsWithDigit (suc f) n acc h = elim (Bool-cases (ltb n 10)) [
  | inl small ↦ rw small (digit (48 + n) acc (omega arith) (ground arith))
  | inr big ↦ rw big (digits_from-StartsWithDigit f (n / 10) ((48 + n % 10) ∷ acc) (ground arith))
]

atoi_digits :
    {t : Text} (n : ℕ)
    → StartsWithDigit t
    → parse_digits t 0 ≡ some n
    → n < 9223372036854775808
    → atoi t ≡ some (pos n)
unfolding atoi
atoi_digits n (digit c s lo hi) e h = ground arith

-- Atoi reads back every number that Itoa prints, below 2^63.
pub atoi-itoa : (n : ℕ) → n < 9223372036854775808 → atoi (itoa n) ≡ some (pos n)
unfolding itoa
atoi-itoa n h =
    atoi_digits n (digits_from-StartsWithDigit (suc n) n [] (omega arith))
      (parse_digits-digits_from (suc n) n [] (omega arith) ∙ empty) h
  where
    empty : parse_digits [] n ≡ some n
    empty = unfold parse_digits in refl

-- Different numbers are printed differently.
pub itoa_inj : (m n : ℕ) → itoa m ≡ itoa n → m ≡ n
unfolding itoa parse_digits
itoa_inj m n e =
    let back = λ (k : ℕ). parse_digits-digits_from (suc k) k [] (omega arith) in cc (back m, back n)

digits_from-IsFree :
    (f n : ℕ) (acc : Text) → n < f → IsFree b'-' acc → IsFree b'-' (digits_from f n acc)
unfolding digits_from
digits_from-IsFree zero n acc h k = elim h [ ]
digits_from-IsFree (suc f) n acc h k = elim (Bool-cases (ltb n 10)) [
  | inl small ↦ rw small (ground arith, k)
  | inr big ↦
      rw big (digits_from-IsFree f (n / 10) ((48 + n % 10) ∷ acc) (ground arith) (ground arith, k))
]

-- A printed number has no dash.
pub itoa-IsFree : (n : ℕ) → IsFree b'-' (itoa n)
unfolding itoa
itoa-IsFree n = digits_from-IsFree (suc n) n [] (omega arith) tt
