-- ===== src/Io/Splice.antt =====
-- What a chain of writes promises: the bytes of a list, put over the storage from an offset on,
-- and nothing else changed.
use ecat_v2_master.Base.{
  ℕ, zero, suc, ◌+◌, ◌/◌, ◌%◌, ◌*◌, ◌≤◌, ◌<◌, ◌≡◌, refl, ap, List, [], ◌∷◌, ◌++◌, arith, length,
  get_elem?,
}

abbrev pub overlay : List ℕ → List ℕ → List ℕ
overlay [] xs = xs
overlay (b ∷ bs) [] = []
overlay (b ∷ bs) (x ∷ xs) = b ∷ overlay bs xs

-- `bs` over `xs`, from `i` on; the length of `xs` stays.
abbrev pub splice : ℕ → List ℕ → List ℕ → List ℕ
splice zero bs xs = overlay bs xs
splice (suc i) bs [] = []
splice (suc i) bs (x ∷ xs) = x ∷ splice i bs xs

-- The `n` low bytes of a number, the lowest first.
abbrev pub le_bytes : ℕ → ℕ → List ℕ
le_bytes zero v = []
le_bytes (suc n) v = (v % 256) ∷ le_bytes n (v / 256)

-- The number that a list of bytes stands for, the lowest byte first.
abbrev pub le_value : List ℕ → ℕ
le_value [] = 0
le_value (b ∷ bs) = b + 256 * le_value bs

length-overlay : (bs xs : List ℕ) → length (overlay bs xs) ≡ length xs
length-overlay [] xs = refl
length-overlay (b ∷ bs) [] = refl
length-overlay (b ∷ bs) (x ∷ xs) = ap suc (length-overlay bs xs)

pub length-splice : (i : ℕ) (bs xs : List ℕ) → length (splice i bs xs) ≡ length xs
length-splice zero bs xs = length-overlay bs xs
length-splice (suc i) bs [] = refl
length-splice (suc i) bs (x ∷ xs) = ap suc (length-splice i bs xs)

overlay-nil : (i : ℕ) (xs : List ℕ) → splice i [] xs ≡ xs
overlay-nil zero xs = refl
overlay-nil (suc i) [] = refl
overlay-nil (suc i) (x ∷ xs) = ap (λ ys. x ∷ ys) (overlay-nil i xs)

pub splice-nil : (i : ℕ) (xs : List ℕ) → splice i [] xs ≡ xs
splice-nil i xs = overlay-nil i xs

splice-nil_right : (i : ℕ) (bs : List ℕ) → splice i bs [] ≡ []
splice-nil_right zero [] = refl
splice-nil_right zero (b ∷ bs) = refl
splice-nil_right (suc i) bs = refl

splice-overlay : (cs bs xs : List ℕ) → splice (length cs) bs (overlay cs xs) ≡ overlay (cs ++ bs) xs
splice-overlay [] bs xs = refl
splice-overlay (a ∷ cs) bs [] = refl
splice-overlay (a ∷ cs) bs (x ∷ xs) = ap (λ ys. a ∷ ys) (splice-overlay cs bs xs)

-- Two adjacent pieces are one.
pub splice-splice :
    (i : ℕ) (cs bs xs : List ℕ)
    → splice (i + length cs) bs (splice i cs xs) ≡ splice i (cs ++ bs) xs
splice-splice zero cs bs xs = rw zero_add_length (splice-overlay cs bs xs)
  where
    zero_add_length : 0 + length cs ≡ length cs
    zero_add_length = omega arith
splice-splice (suc i) cs bs [] = splice-nil_right (suc i + length cs) bs
splice-splice (suc i) cs bs (x ∷ xs) = rw step (ap (λ ys. x ∷ ys) (splice-splice i cs bs xs))
  where
    step : suc i + length cs ≡ suc (i + length cs)
    step = omega arith

get_elem?-overlay_in :
    (bs xs : List ℕ) (j : ℕ)
    → j < length bs
    → length bs ≤ length xs
    → get_elem? (overlay bs xs) j ≡ get_elem? bs j
get_elem?-overlay_in [] xs j h k = absurd (omega arith)
get_elem?-overlay_in (b ∷ bs) [] j h k = absurd (omega arith)
get_elem?-overlay_in (b ∷ bs) (x ∷ xs) zero h k = refl
get_elem?-overlay_in (b ∷ bs) (x ∷ xs) (suc j) h k =
    get_elem?-overlay_in bs xs j (omega arith) (omega arith)

-- Inside the range the bytes of the list are found.
pub get_elem?-splice_in :
    (i : ℕ) (bs xs : List ℕ) (j : ℕ)
    → j < length bs
    → i + length bs ≤ length xs
    → get_elem? (splice i bs xs) (i + j) ≡ get_elem? bs j
get_elem?-splice_in zero bs xs j h k = rw e (get_elem?-overlay_in bs xs j h (omega arith))
  where
    e : 0 + j ≡ j
    e = omega arith
get_elem?-splice_in (suc i) bs [] j h k = absurd (omega arith)
get_elem?-splice_in (suc i) bs (x ∷ xs) j h k = rw e (get_elem?-splice_in i bs xs j h (omega arith))
  where
    e : suc i + j ≡ suc (i + j)
    e = omega arith

-- Before and behind the range nothing changes.
pub get_elem?-splice_before :
    (i : ℕ) (bs xs : List ℕ) (j : ℕ) → j < i → get_elem? (splice i bs xs) j ≡ get_elem? xs j
get_elem?-splice_before zero bs xs j h = absurd (omega arith)
get_elem?-splice_before (suc i) bs [] j h = refl
get_elem?-splice_before (suc i) bs (x ∷ xs) zero h = refl
get_elem?-splice_before (suc i) bs (x ∷ xs) (suc j) h =
    get_elem?-splice_before i bs xs j (omega arith)

get_elem?-overlay_behind :
    (bs xs : List ℕ) (j : ℕ) → length bs ≤ j → get_elem? (overlay bs xs) j ≡ get_elem? xs j
get_elem?-overlay_behind [] xs j h = refl
get_elem?-overlay_behind (b ∷ bs) [] j h = refl
get_elem?-overlay_behind (b ∷ bs) (x ∷ xs) zero h = absurd (omega arith)
get_elem?-overlay_behind (b ∷ bs) (x ∷ xs) (suc j) h =
    get_elem?-overlay_behind bs xs j (omega arith)

pub get_elem?-splice_behind :
    (i : ℕ) (bs xs : List ℕ) (j : ℕ)
    → i + length bs ≤ j
    → get_elem? (splice i bs xs) j ≡ get_elem? xs j
get_elem?-splice_behind zero bs xs j h = get_elem?-overlay_behind bs xs j (omega arith)
get_elem?-splice_behind (suc i) bs [] j h = refl
get_elem?-splice_behind (suc i) bs (x ∷ xs) zero h = absurd (omega arith)
get_elem?-splice_behind (suc i) bs (x ∷ xs) (suc j) h =
    get_elem?-splice_behind i bs xs j (omega arith)

pub overlay-whole : (bs xs : List ℕ) → length bs ≡ length xs → overlay bs xs ≡ bs
overlay-whole [] [] e = refl
overlay-whole [] (x ∷ xs) e = absurd (omega (arith, e))
overlay-whole (b ∷ bs) [] e = absurd (omega (arith, e))
overlay-whole (b ∷ bs) (x ∷ xs) e = ap (λ ys. b ∷ ys) (overlay-whole bs xs (omega (arith, e)))
