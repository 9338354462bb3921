-- ===== src/Text.antt =====
-- Go strings as lists of bytes, and the functions of Go's standard library that the program calls
-- on them: comparison, strconv.Itoa and Atoi, strings.Split, Join, HasPrefix, ReplaceAll, ToUpper.
pub mod Numbers
pub mod Bytes
use Prim.Native.Char.{code}
use Prim.Native.String.{String}
use di_orchestrator.Base.{
  ℕ, zero, suc, ◌+◌, ◌-◌, ◌*◌, ◌/◌, ◌%◌, ◌≡◌, refl, ◌↔◌, Bool, true, false, ◌&&◌, Option, none,
  some, List, [], ◌∷◌, ◌++◌, map, arith, ltb, leb, ◌==◌, if◌then◌else◌, ℤ, pos, negsuc,
}

abbrev pub Text : Type 0
Text = List ℕ

-- The bytes of a literal (all literals of the program are ASCII).
abbrev pub codes : String → Text
codes String.[] = []
codes (String.◌∷◌ c s) = code c ∷ codes s

-- `s == t`
unfoldable pub text_eq : Text → Text → Bool
text_eq [] [] = true
text_eq [] (_ ∷ _) = false
text_eq (_ ∷ _) [] = false
text_eq (c ∷ s) (d ∷ t) = (c == d) && text_eq s t

pub text_eq_refl : (s : Text) → text_eq s s ≡ true
unfolding text_eq
text_eq_refl [] = refl
text_eq_refl (c ∷ s) = ground (arith, text_eq_refl s)

pub text_eq→eq : (s t : Text) → text_eq s t ≡ true → s ≡ t
unfolding text_eq
text_eq→eq [] [] h = refl
text_eq→eq [] (_ ∷ _) h = cc
text_eq→eq (_ ∷ _) [] h = cc
text_eq→eq (c ∷ s) (d ∷ t) h = ground (arith, text_eq→eq s t)

pub text_eq_iff : (s t : Text) → (text_eq s t ≡ true) ↔ (s ≡ t)
text_eq_iff s t = (text_eq→eq s t, λ e. ground (arith, text_eq_refl s))

-- `s == ""`
abbrev pub is_empty : Text → Bool
is_empty [] = true
is_empty (_ ∷ _) = false

-- strings.HasPrefix
unfoldable pub has_prefix : Text → Text → Bool
has_prefix s [] = true
has_prefix [] (_ ∷ _) = false
has_prefix (c ∷ s) (d ∷ p) = (c == d) && has_prefix s p

-- strings.ReplaceAll where the old and the new string are one byte each.
abbrev pub replace_byte : ℕ → ℕ → Text → Text
replace_byte old new = map (λ c. if c == old then new else c)

-- strings.Join
unfoldable pub join : Text → List Text → Text
join sep [] = []
join sep (s ∷ []) = s
join sep (s ∷ t ∷ rest) = s ++ sep ++ join sep (t ∷ rest)

-- strings.Split at a separator of one byte: `cur` is the piece being read.
unfoldable pub split_from : ℕ → Text → Text → List Text
split_from sep cur [] = cur ∷ []
split_from sep cur (c ∷ s) =
    let skip = split_from sep [] s in
    let keep = split_from sep (cur ++ c ∷ []) s in if c == sep then cur ∷ skip else keep

unfoldable pub split : ℕ → Text → List Text
unfolding split_from
split sep = split_from sep []

-- The decimal digits of a number, in front of `acc`; one round of fuel for each digit.
unfoldable pub digits_from : ℕ → ℕ → Text → Text
digits_from zero n acc = acc
digits_from (suc f) n acc =
    let rest = digits_from f (n / 10) ((48 + n % 10) ∷ acc) in
    if ltb n 10 then (48 + n) ∷ acc else rest

-- strconv.Itoa on a number that is not negative.
unfoldable pub itoa : ℕ → Text
unfolding digits_from
itoa n = digits_from (suc n) n []

-- `%d` of an integer.
unfoldable pub itoa_ℤ : ℤ → Text
unfolding itoa
itoa_ℤ (pos n) = itoa n
itoa_ℤ (negsuc n) = b'-' ∷ itoa (suc n)

abbrev is_digit : ℕ → Bool
is_digit c = leb 48 c && leb c 57

unfoldable pub parse_digits : Text → ℕ → Option ℕ
parse_digits [] acc = some acc
parse_digits (c ∷ s) acc =
    let rest = parse_digits s (acc * 10 + (c - 48)) in if is_digit c then rest else none

abbrev unsigned : Text → Option ℕ
unsigned [] = none
unsigned (c ∷ s) = parse_digits (c ∷ s) 0

-- An int of 64 bits holds -2^63 to 2^63 - 1.
abbrev in_range : Bool → ℕ → Option ℤ
in_range false n = if ltb n 9223372036854775808 then some (pos n) else none
in_range true zero = some (pos zero)
in_range true (suc n) = if ltb n 9223372036854775808 then some (negsuc n) else none

abbrev signed : Bool → Option ℕ → Option ℤ
signed neg none = none
signed neg (some n) = in_range neg n

-- strconv.Atoi; `none` is an error (no digits, another character, out of range).
unfoldable pub atoi : Text → Option ℤ
unfolding parse_digits
atoi [] = none
atoi (c ∷ s) =
    if c == b'-'
    then signed true (unsigned s)
    else if c == b'+'
    then signed false (unsigned s)
    else signed false (unsigned (c ∷ s))
