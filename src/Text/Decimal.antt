-- ===== src/Text/Decimal.antt =====
-- Decimal numbers as the standard library writes and reads them: `to_string`, `stoul` (base 10) and
-- `stoi`. `unsigned long` and `size_t` have 64 bits, `int` has 32.
use tp.Common.{
  ℕ, zero, suc, ◌+◌, ◌-◌, ◌*◌, ◌/◌, ◌%◌, ◌^◌, ◌<◌, ◌≡◌, refl, sym, ap, ◌∙◌, ◌≢◌, Bool, true, false,
  ◌&&◌, ◌||◌, [], ◌∷◌, ◌++◌, Option, none, some, arith, ltb, leb, ◌==◌, All, All-append, Bool-cases,
  inl, inr, if◌then◌else◌,
}
use tp.Text.{Text}

abbrev pub word : ℕ
word = 2 ^ 64

abbrev pub is_digit : ℕ → Bool
is_digit c = leb b'0' c && leb c b'9'

digits_of : ℕ → ℕ → Text
digits_of zero n = []
digits_of (suc fuel) n =
    let higher = digits_of fuel (n / 10) in
    if ltb n 10 then (b'0' + n) ∷ [] else higher ++ (b'0' + n % 10) ∷ []

-- `n + 1` rounds are more than there are digits.
unfoldable pub to_string : ℕ → Text
unfolding digits_of
to_string n = digits_of (suc n) n

pub data Conversion : Type 0 where
  value : ℕ → Conversion
  invalid_argument out_of_range : Conversion

abbrev is_space : ℕ → Bool
is_space c = (leb 9 c && leb c 13) || c == 32

skip_space : Text → Text
skip_space [] = []
skip_space (c ∷ s) = let rest = skip_space s in if is_space c then rest else c ∷ s

-- The number at the start of a text; what follows its digits is ignored.
read_digits : ℕ → Text → ℕ
read_digits n [] = n
read_digits n (c ∷ s) =
    let rest = read_digits (n * 10 + (c - b'0')) s in if is_digit c then rest else n

read_magnitude : Text → Option ℕ
unfolding read_digits
read_magnitude [] = none
read_magnitude (c ∷ s) = if is_digit c then some (read_digits 0 (c ∷ s)) else none

-- A sign, and whether it is a minus.
read_sign : Text → Bool × Text
read_sign [] = (false, [])
read_sign (c ∷ s) =
    if c == b'-' then (true, s) else if c == b'+' then (false, s) else (false, c ∷ s)

read_number : Bool × Text → Option (Bool × ℕ)
unfolding read_magnitude
read_number (negative, s) = elim (read_magnitude s) [ none ↦ none | some n ↦ some (negative, n) ]

-- A minus negates modulo the word.
to_unsigned : Option (Bool × ℕ) → Conversion
to_unsigned none = invalid_argument
to_unsigned (some (negative, n)) =
    if leb word n then out_of_range else value (if negative then (word - n) % word else n)

unfoldable pub stoul : Text → Conversion
unfolding skip_space read_sign read_number to_unsigned
stoul s = to_unsigned (read_number (read_sign (skip_space s)))

-- `stoi`, for a caller that only counts down from a positive value: a negative one is 0.
to_count : Option (Bool × ℕ) → Conversion
to_count none = invalid_argument
to_count (some (negative, n)) =
    if negative
    then (if ltb (2 ^ 31) n then out_of_range else value 0)
    else (if leb (2 ^ 31) n then out_of_range else value n)

unfoldable pub stoi_count : Text → Conversion
unfolding skip_space read_sign read_number to_count
stoi_count s = to_count (read_number (read_sign (skip_space s)))

test_round : stoul (to_string 90210) ≡ value 90210
unfolding stoul to_string
test_round = refl

abbrev pub Digits : Text → Type 0
Digits = All (λ c. is_digit c ≡ true)

read_digits-append :
    (n : ℕ) (xs : Text) (d : ℕ)
    → Digits xs
    → d < 10
    → read_digits n (xs ++ (b'0' + d) ∷ []) ≡ read_digits n xs * 10 + d
unfolding read_digits
read_digits-append n [] d h lt = ground arith
read_digits-append n (c ∷ xs) d h lt = ground (arith, read_digits-append (n * 10 + (c - b'0')) xs d)

digits_of-Digits : (fuel n : ℕ) → Digits (digits_of fuel n)
unfolding digits_of
digits_of-Digits zero n = tt
digits_of-Digits (suc fuel) n = elim (Bool-cases (ltb n 10)) [
  | inl small ↦ rw small (ground arith)
  | inr large ↦
      rw large
        (All-append (λ c. is_digit c ≡ true) _ _ (digits_of-Digits fuel (n / 10)) (ground arith))
]

read_digits-digits_of : (fuel n : ℕ) → n < fuel → read_digits 0 (digits_of fuel n) ≡ n
unfolding digits_of read_digits
read_digits-digits_of zero n h = elim h [ ]
read_digits-digits_of (suc fuel) n h = elim (Bool-cases (ltb n 10)) [
  | inl small ↦ rw small (ground arith)
  | inr large ↦ rw large (
      ground (
        arith,
        read_digits-append 0 (digits_of fuel (n / 10)) (n % 10) (digits_of-Digits fuel (n / 10)),
        read_digits-digits_of fuel (n / 10),
      ))
]

-- A text that starts with a digit is read from there.
stoul_digits :
    (c : ℕ) (s : Text)
    → is_digit c ≡ true
    → stoul (c ∷ s) ≡ to_unsigned (some (false, read_digits 0 (c ∷ s)))
unfolding stoul
stoul_digits c s h = ground arith

stoul-Digits :
    (s : Text) → s ≢ [] → Digits s → stoul s ≡ to_unsigned (some (false, read_digits 0 s))
stoul-Digits [] ne h = absurd (ne refl)
stoul-Digits (c ∷ s) ne h = stoul_digits c s h.0

append_ne_nil : (s : Text) (c : ℕ) → s ++ c ∷ [] ≢ []
append_ne_nil [] c e = cc
append_ne_nil (a ∷ s) c e = cc

digits_of_nonempty : (fuel n : ℕ) → digits_of (suc fuel) n ≢ []
unfolding digits_of
digits_of_nonempty fuel n e =
    ground (arith, append_ne_nil (digits_of fuel (n / 10)) (b'0' + n % 10))

-- A number below 2 ^ 64 that `to_string` writes is read back by `stoul`.
pub stoul-to_string : (n : ℕ) → n < word → stoul (to_string n) ≡ value n
unfolding to_string to_unsigned
stoul-to_string n h =
    rw
      (
        stoul-Digits (digits_of (suc n) n) (digits_of_nonempty n n) (digits_of-Digits (suc n) n),
        read_digits-digits_of (suc n) n (omega arith),
      )
      (ground arith)

pub to_string-Digits : (n : ℕ) → Digits (to_string n)
unfolding to_string
to_string-Digits n = digits_of-Digits (suc n) n

pub to_string_nonempty : (n : ℕ) → to_string n ≢ []
unfolding to_string
to_string_nonempty n = digits_of_nonempty n n

-- Two numbers are written alike only if they are equal.
pub to_string_injective : (a b : ℕ) → to_string a ≡ to_string b → a ≡ b
unfolding to_string
to_string_injective a b h =
    sym (read_digits-digits_of (suc a) a (omega arith))
    ∙ ap (read_digits 0) h
    ∙ read_digits-digits_of (suc b) b (omega arith)
