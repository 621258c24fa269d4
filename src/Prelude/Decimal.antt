-- ===== src/Prelude/Decimal.antt =====
-- std::to_string and std::from_chars of an int, as the servers use them on counters and user ids.
use mathlib.Core.Path.{◌≡◌, refl, sym, ap, ◌∙◌}
use mathlib.Core.Logic.{inl, inr}
use mathlib.Core.Bool.{Bool, true, false, ◌&&◌}
use mathlib.Core.List.{[], ◌∷◌}
use Prim.Native.Nat.{ℕ, zero, suc, ◌+◌, ◌-◌, ◌*◌, ◌/◌, ◌%◌, ◌≤◌, ◌<◌}
use native.Mathlib.Omega.{arith}
use xiguchat.Prelude.Tests.{ltb, leb, ◌==◌, if◌then◌else◌, Bool-cases}
use xiguchat.Prelude.Text.{Text}
use xiguchat.Prelude.Int.{ℤ, pos, negsuc}

-- The decimal digits of n before the text acc; one unit of fuel for each digit.
digits : ℕ → ℕ → Text → Text
digits zero n acc = acc
digits (suc fuel) n acc = elim (n / 10 == 0) [
  | true ↦ (48 + n % 10) ∷ acc
  | false ↦ digits fuel (n / 10) ((48 + n % 10) ∷ acc)
]

unfoldable pub to_text : ℕ → Text
unfolding digits
to_text n = digits (suc n) n []

unfoldable pub to_string : ℤ → Text
unfolding to_text
to_string (pos n) = to_text n
to_string (negsuc n) = b'-' ∷ to_text (suc n)

abbrev pub is_digit : ℕ → Bool
is_digit c = leb b'0' c && leb c b'9'

-- The value of the digits at the head of a text, and the text behind them.
unfoldable pub parse_digits : ℕ → Text → ℕ × Text
parse_digits acc [] = (acc, [])
parse_digits acc (c ∷ cs) = elim (is_digit c) [
  | true ↦ parse_digits (acc * 10 + (c - 48)) cs
  | false ↦ (acc, c ∷ cs)
]

pub data Parsed : Type 0 where
  value : ℤ → Text → Parsed
  invalid_argument : Parsed
  out_of_range : Parsed

abbrev pub int_max : ℕ
int_max = 2147483647

starts_digit : Text → Bool
starts_digit [] = false
starts_digit (c ∷ cs) = is_digit c

in_range : ℕ → (ℕ → ℤ) → ℕ × Text → Parsed
in_range limit sign (n, rest) = if ltb limit n then out_of_range else value (sign n) rest

-- -n
abbrev pub negated : ℕ → ℤ
negated zero = pos 0
negated (suc n) = negsuc n

-- A minus sign is accepted, and a digit must follow; the range is that of a 32-bit int.
unfoldable pub from_chars : Text → Parsed
unfolding starts_digit in_range
from_chars [] = invalid_argument
from_chars (c ∷ cs) =
    if c == b'-'
    then (if starts_digit cs
        then in_range (suc int_max) negated (parse_digits 0 cs)
        else invalid_argument)
    else if is_digit c
    then in_range int_max pos (parse_digits 0 (c ∷ cs))
    else invalid_argument

parse_digits-digits :
    (fuel n : ℕ) (acc : Text) → n < fuel → parse_digits 0 (digits fuel n acc) ≡ parse_digits n acc
unfolding parse_digits digits
parse_digits-digits zero n acc h = elim h [ ]
parse_digits-digits (suc fuel) n acc h = elim (Bool-cases (n / 10 == 0)) [
  | inl last ↦ ground (arith, last)
  | inr more ↦ rw (more, digits) (parse_digits-digits fuel (n / 10) _ (ground arith) ∙ one_more)
]
  where
    one_more : parse_digits (n / 10) ((48 + n % 10) ∷ acc) ≡ parse_digits n acc
    one_more = ground arith

pub parse_digits-to_text : (n : ℕ) → parse_digits 0 (to_text n) ≡ (n, [])
unfolding to_text
parse_digits-to_text n =
    parse_digits-digits (suc n) n [] (omega arith) ∙ unfold parse_digits in refl

-- Different numbers have different texts.
pub to_text-injective : (m n : ℕ) → to_text m ≡ to_text n → m ≡ n
to_text-injective m n e =
    ap (λ (p : ℕ × Text). p.0)
      (sym (parse_digits-to_text m) ∙ ap (parse_digits 0) e ∙ parse_digits-to_text n)

digits-head :
    (fuel n : ℕ) (acc : Text)
    → n < fuel
    → (c : ℕ) × (cs : Text) × (digits fuel n acc ≡ c ∷ cs) × (48 ≤ c) × (c ≤ 57)
unfolding digits
digits-head zero n acc h = elim h [ ]
digits-head (suc fuel) n acc h = elim (Bool-cases (n / 10 == 0)) [
  | inl last ↦ rw (last, digits) (48 + n % 10, acc, refl, omega arith, omega arith)
  | inr more ↦ rw (more, digits) (digits-head fuel (n / 10) _ (ground arith))
]

to_text-head : (n : ℕ) → (c : ℕ) × (cs : Text) × (to_text n ≡ c ∷ cs) × (48 ≤ c) × (c ≤ 57)
unfolding to_text
to_text-head n = digits-head (suc n) n [] (omega arith)

from_chars-digits :
    (c n : ℕ) (cs : Text)
    → 48 ≤ c
    → c ≤ 57
    → n ≤ int_max
    → parse_digits 0 (c ∷ cs) ≡ (n, [])
    → from_chars (c ∷ cs) ≡ value (pos n) []
unfolding from_chars
from_chars-digits c n cs low high h e = rw e (ground arith)

-- What to_string writes of an int that is not negative, from_chars reads back to the last byte.
pub from_chars-to_text : (n : ℕ) → n ≤ int_max → from_chars (to_text n) ≡ value (pos n) []
from_chars-to_text n h =
    let (c, cs, e, low, high) = to_text-head n in
    rw e (from_chars-digits c n cs low high h (rw e at (parse_digits-to_text n)))
