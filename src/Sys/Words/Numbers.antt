-- ===== src/Sys/Words/Numbers.antt =====
-- Printed numbers and names are read back.
use ecat_v2_master.Base.{
  ℕ, zero, suc, ◌+◌, ◌*◌, ◌-◌, ◌/◌, ◌%◌, ◌^◌, ◌≤◌, ◌<◌, ◌≡◌, refl, ap, inl, inr, pos, true, false,
  [], ◌∷◌, ◌++◌, All, ◌==◌, ltb, leb, Bool-cases, length, length-append, replicate, arith,
}
use ecat_v2_master.Config.{Key}
use ecat_v2_master.Sys.Words.{
  is_space, is_digit, lines, skip_spaces, word, digits, after_digits, value_of, extracted,
  number_of, number, from_start, extract_int, digit_list,
}

abbrev pub AreDigits : Key → Type 0
AreDigits s = All (λ c. is_digit c ≡ true) s

-- Not continued by a digit
abbrev pub EndsDigits : Key → Type 0
EndsDigits [] = Unit
EndsDigits (c ∷ s) = is_digit c ≡ false

digits_before : (ds rest : Key) → AreDigits ds → EndsDigits rest → digits (ds ++ rest) ≡ ds
digits_before [] [] v w = refl
digits_before [] (c ∷ rest) v w = rw w refl
digits_before (c ∷ ds) rest (v, vs) w = rw v (ap (λ s. c ∷ s) (digits_before ds rest vs w))

after_digits_lem :
    (ds rest : Key) → AreDigits ds → EndsDigits rest → after_digits (ds ++ rest) ≡ rest
after_digits_lem [] [] v w = refl
after_digits_lem [] (c ∷ rest) v w = rw w refl
after_digits_lem (c ∷ ds) rest (v, vs) w = rw v (after_digits_lem ds rest vs w)

All-append : (P : ℕ → Type 0) (xs ys : Key) → All P xs → All P ys → All P (xs ++ ys)
All-append P [] ys v w = w
All-append P (x ∷ xs) ys (v, vs) w = (v, All-append P xs ys vs w)

digit_list-AreDigits : (fuel n : ℕ) → AreDigits (digit_list fuel n)
digit_list-AreDigits zero n = tt
digit_list-AreDigits (suc fuel) n = elim (Bool-cases (ltb n 10)) [
  | inl small ↦ rw small (ground arith, tt)
  | inr large ↦ rw large (
      All-append (λ c. is_digit c ≡ true) (digit_list fuel (n / 10)) ((48 + n % 10) ∷ [])
        (digit_list-AreDigits fuel (n / 10)) (ground arith, tt))
]

value_of-append : (acc : ℕ) (xs ys : Key) → value_of acc (xs ++ ys) ≡ value_of (value_of acc xs) ys
value_of-append acc [] ys = refl
value_of-append acc (x ∷ xs) ys = value_of-append (10 * acc + (x - 48)) xs ys

value_of-digit_list : (fuel n : ℕ) → n < 10 ^ fuel → value_of 0 (digit_list fuel n) ≡ n
value_of-digit_list zero n h = omega arith
value_of-digit_list (suc fuel) n h = elim (Bool-cases (ltb n 10)) [
  | inl small ↦ rw small (omega arith)
  | inr large ↦
      let before : value_of 0 (digit_list fuel (n / 10)) ≡ n / 10 =
        value_of-digit_list fuel (n / 10) (omega arith) in
      rw (large, value_of-append 0 (digit_list fuel (n / 10)) ((48 + n % 10) ∷ []), before)
        (omega arith)
]

digit_list-not_empty : (fuel n : ℕ) → 0 < length (digit_list (suc fuel) n)
digit_list-not_empty fuel n = elim (Bool-cases (ltb n 10)) [
  | inl small ↦ rw small (omega arith)
  | inr large ↦
      rw large (omega (arith, length-append (digit_list fuel (n / 10)) ((48 + n % 10) ∷ [])))
]

number_of-value :
    (ds rest : Key) (n : ℕ)
    → value_of 0 ds ≡ n
    → 0 < length ds
    → leb n 2147483647 ≡ true
    → number_of false ds rest ≡ extracted (pos n) rest
number_of-value [] rest n e h v = absurd (omega arith)
number_of-value (c ∷ ds) rest n e h v = rw (e, v) refl

from_start-digits :
    (ds rest : Key)
    → AreDigits ds
    → 0 < length ds
    → from_start (skip_spaces (ds ++ rest)) ≡ number false (ds ++ rest)
from_start-digits [] rest v h = absurd (omega arith)
from_start-digits (c ∷ ds) rest (v, vs) h = rw (no_space c v) (no_sign c (ds ++ rest) v)
  where
    no_space : (c : ℕ) → is_digit c ≡ true → is_space c ≡ false
    no_space c v = ground arith

    no_sign : (c : ℕ) (s : Key) → is_digit c ≡ true → from_start (c ∷ s) ≡ number false (c ∷ s)
    no_sign c s v = ground arith

skip_spaces-replicate : (i : ℕ) (s : Key) → skip_spaces (replicate i 32 ++ s) ≡ skip_spaces s
skip_spaces-replicate zero s = refl
skip_spaces-replicate (suc i) s = skip_spaces-replicate i s

extract_digits :
    (i n : ℕ) (ds rest : Key)
    → AreDigits ds
    → 0 < length ds
    → value_of 0 ds ≡ n
    → n ≤ 2147483647
    → EndsDigits rest
    → extract_int (replicate i 32 ++ (ds ++ rest)) ≡ extracted (pos n) rest
extract_digits i n ds rest all long e h v =
    rw
      (
        skip_spaces-replicate i (ds ++ rest),
        from_start-digits ds rest all long,
        digits_before ds rest all v,
        after_digits_lem ds rest all v,
      )
      (number_of-value ds rest n e long (ground arith))

-- A number of type int, with spaces before it, is read up to what follows its digits.
pub extract_int-printed :
    (i n : ℕ) (rest : Key)
    → n ≤ 2147483647
    → EndsDigits rest
    → extract_int (replicate i 32 ++ (digit_list 10 n ++ rest)) ≡ extracted (pos n) rest
extract_int-printed i n rest h v =
    extract_digits i n (digit_list 10 n) rest (digit_list-AreDigits 10 n) (digit_list-not_empty 9 n)
      (value_of-digit_list 10 n (omega arith)) h v

-- A name and what ends it
abbrev pub IsName : Key → Type 0
IsName s = (0 < length s) × All (λ c. is_space c ≡ false) s

abbrev pub EndsName : Key → Type 0
EndsName [] = Unit
EndsName (c ∷ s) = is_space c ≡ true

word_before :
    (s rest : Key) → All (λ c. is_space c ≡ false) s → EndsName rest → word (s ++ rest) ≡ s
word_before [] [] v w = refl
word_before [] (c ∷ rest) v w = rw w refl
word_before (c ∷ s) rest (v, vs) w = rw v (ap (λ s. c ∷ s) (word_before s rest vs w))

-- The next word is a name that stands there.
pub word-printed : (s rest : Key) → IsName s → EndsName rest → word (skip_spaces (s ++ rest)) ≡ s
word-printed [] rest (h, v) w = absurd (omega arith)
word-printed (c ∷ s) rest (h, (v, vs)) w =
    rw (kept c (s ++ rest) v) (word_before (c ∷ s) rest (v, vs) w)
  where
    kept : (c : ℕ) (s : Key) → is_space c ≡ false → skip_spaces (c ∷ s) ≡ c ∷ s
    kept c s v = rw v refl

-- No line break
abbrev pub IsLine : Key → Type 0
IsLine s = All (λ c. (c == 10) ≡ false) s

pub lines-printed : (s rest : Key) → IsLine s → lines (s ++ 10 ∷ rest) ≡ s ∷ lines rest
lines-printed [] rest v = refl
lines-printed (c ∷ s) rest (v, vs) = rw (v, lines-printed s rest vs) refl

pub IsLine-append : (xs ys : Key) → IsLine xs → IsLine ys → IsLine (xs ++ ys)
IsLine-append xs ys v w = All-append (λ c. (c == 10) ≡ false) xs ys v w

pub IsLine-replicate : (i : ℕ) → IsLine (replicate i 32)
IsLine-replicate zero = tt
IsLine-replicate (suc i) = (refl, IsLine-replicate i)

pub IsLine-digits : (s : Key) → AreDigits s → IsLine s
IsLine-digits [] v = tt
IsLine-digits (c ∷ s) (v, vs) = (ground arith, IsLine-digits s vs)

pub IsLine-number : (n : ℕ) → IsLine (digit_list 10 n)
IsLine-number n = IsLine-digits (digit_list 10 n) (digit_list-AreDigits 10 n)

pub IsLine-name : (s : Key) → All (λ c. is_space c ≡ false) s → IsLine s
IsLine-name [] v = tt
IsLine-name (c ∷ s) (v, vs) = (ground arith, IsLine-name s vs)
