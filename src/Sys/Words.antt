-- ===== src/Sys/Words.antt =====
-- The texts that src/soem_wrapper/src/utils/sys_utils.cpp reads and prints with the C++ standard
-- library, as lists of character codes.
pub mod Numbers
use ecat_v2_master.Base.{
  ℕ, zero, suc, ◌+◌, ◌*◌, ◌-◌, ◌/◌, ◌%◌, ℤ, pos, negsuc, Bool, true, false, not, ◌&&◌, ◌||◌, List,
  [], ◌∷◌, ◌++◌, ◌==◌, ltb, leb, if◌then◌else◌,
}
use ecat_v2_master.Config.{Key}

-- std::isspace
abbrev pub is_space : ℕ → Bool
is_space c = c == 32 || (leb 9 c && leb c 13)

abbrev pub is_digit : ℕ → Bool
is_digit c = leb 48 c && leb c 57

-- The lines that repeated calls of std::getline give
abbrev pub push : ℕ → List Key → List Key
push c [] = (c ∷ []) ∷ []
push c (l ∷ ls) = (c ∷ l) ∷ ls

abbrev pub lines : Key → List Key
lines [] = []
lines (c ∷ s) = let rest = lines s in if c == 10 then [] ∷ rest else push c rest

abbrev pub skip_spaces : Key → Key
skip_spaces [] = []
skip_spaces (c ∷ s) = let rest = skip_spaces s in if is_space c then rest else c ∷ s

-- What an extraction of a std::string reads behind the spaces
abbrev pub word : Key → Key
word [] = []
word (c ∷ s) = let rest = word s in if is_space c then [] else c ∷ rest

abbrev pub digits : Key → Key
digits [] = []
digits (c ∷ s) = let rest = digits s in if is_digit c then c ∷ rest else []

abbrev pub after_digits : Key → Key
after_digits [] = []
after_digits (c ∷ s) = let rest = after_digits s in if is_digit c then rest else c ∷ s

abbrev pub value_of : ℕ → Key → ℕ
value_of n [] = n
value_of n (c ∷ s) = value_of (10 * n + (c - 48)) s

-- What an extraction of an int does to the variable: at the end of the stream nothing, without a
-- number or out of range it sets a value and fails.
pub data Extracted : Type 0 where
  untouched : Extracted
  failed : (z : ℤ) → Extracted
  extracted : (z : ℤ) → (rest : Key) → Extracted

abbrev pub signed : Bool → ℕ → ℤ
signed false n = pos n
signed true zero = pos 0
signed true (suc n) = negsuc n

abbrev pub limit : Bool → ℕ
limit false = 2147483647
limit true = 2147483648

-- The digits behind the sign and what follows them
abbrev pub number_of : Bool → Key → Key → Extracted
number_of minus [] rest = failed (pos 0)
number_of minus (c ∷ ds) rest =
    let n = value_of 0 (c ∷ ds) in
    if leb n (limit minus)
    then extracted (signed minus n) rest
    else failed (signed minus (limit minus))

abbrev pub number : Bool → Key → Extracted
number minus s = number_of minus (digits s) (after_digits s)

abbrev pub from_start : Key → Extracted
from_start [] = untouched
from_start (c ∷ s) =
    if c == 45 then number true s else (if c == 43 then number false s else number false (c ∷ s))

abbrev pub extract_int : Key → Extracted
extract_int s = from_start (skip_spaces s)

-- std::to_string of a number of at most ten digits
abbrev pub digit_list : ℕ → ℕ → Key
digit_list zero n = []
digit_list (suc fuel) n =
    let rest = digit_list fuel (n / 10) in
    if ltb n 10 then (48 + n) ∷ [] else rest ++ ((48 + n % 10) ∷ [])

abbrev pub to_string : ℤ → Key
to_string (pos n) = digit_list 10 n
to_string (negsuc n) = 45 ∷ digit_list 10 (suc n)

abbrev pub starts_with : Key → Key → Bool
starts_with [] s = true
starts_with (c ∷ p) [] = false
starts_with (c ∷ p) (d ∷ s) = c == d && starts_with p s

-- s.find(p) != std::string::npos
abbrev pub contains : Key → Key → Bool
contains p [] = starts_with p []
contains p (c ∷ s) = starts_with p (c ∷ s) || contains p s

abbrev pub same_text : Key → Key → Bool
same_text [] [] = true
same_text (c ∷ s) (d ∷ t) = c == d && same_text s t
same_text _ _ = false
