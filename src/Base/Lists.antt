-- ===== src/Base/Lists.antt =====
-- Lists measured and indexed by native numbers, under the library's names.
use Prim.Native.Nat.{ℕ, zero, suc, ◌+◌, ◌≤◌, ◌<◌}
use mathlib.Core.Path.{◌≡◌, refl, ap, ◌∙◌}
use mathlib.Core.List.{List, [], ◌∷◌, ◌++◌}
use mathlib.Core.Option.{Option, none, some}
use native.Mathlib.Nat.{add-zero}
use native.Mathlib.Omega.{arith}

module _ {ℓ} {A : Type ℓ} where
  abbrev pub length : List A → ℕ
  length [] = 0
  length (x ∷ xs) = suc (length xs)

  abbrev pub get_elem? : List A → ℕ → Option A
  get_elem? [] i = none
  get_elem? (x ∷ xs) zero = some x
  get_elem? (x ∷ xs) (suc i) = get_elem? xs i

  abbrev pub get_or : List A → ℕ → A → A
  get_or [] i d = d
  get_or (x ∷ xs) zero d = x
  get_or (x ∷ xs) (suc i) d = get_or xs i d

  abbrev pub drop : ℕ → List A → List A
  drop zero xs = xs
  drop (suc n) [] = []
  drop (suc n) (x ∷ xs) = drop n xs

  abbrev pub replicate : ℕ → A → List A
  replicate zero a = []
  replicate (suc n) a = a ∷ replicate n a

  abbrev pub All {κ} : (A → Type κ) → List A → Type κ
  All P [] = Unit
  All P (x ∷ xs) = P x × All P xs

  pub length-append : (xs ys : List A) → length (xs ++ ys) ≡ length xs + length ys
  length-append [] ys = omega arith
  length-append (x ∷ xs) ys = omega (arith, length-append xs ys)

  pub length-replicate : (n : ℕ) (a : A) → length (replicate n a) ≡ n
  length-replicate zero a = refl
  length-replicate (suc n) a = ap suc (length-replicate n a)

  pub get_elem?-in_range :
      (xs : List A) (i : ℕ) → i < length xs → (a : A) × (get_elem? xs i ≡ some a)
  get_elem?-in_range [] i h = absurd (omega arith)
  get_elem?-in_range (x ∷ xs) zero h = (x, refl)
  get_elem?-in_range (x ∷ xs) (suc i) h = get_elem?-in_range xs i (omega arith)

  pub get_elem?-out_of_range : (xs : List A) (i : ℕ) → length xs ≤ i → get_elem? xs i ≡ none
  get_elem?-out_of_range [] i h = refl
  get_elem?-out_of_range (x ∷ xs) zero h = absurd (omega arith)
  get_elem?-out_of_range (x ∷ xs) (suc i) h = get_elem?-out_of_range xs i (omega arith)

  pub All-get_elem? {κ} :
      (P : A → Type κ) (xs : List A) (i : ℕ) (a : A) → All P xs → get_elem? xs i ≡ some a → P a
  All-get_elem? P [] i a h e = absurd (cc)
  All-get_elem? P (x ∷ xs) zero a h e = ground (arith, h.0)
  All-get_elem? P (x ∷ xs) (suc i) a h e = All-get_elem? P xs i a h.1 e

  pub get_elem?-drop :
      (i : ℕ) (xs : List A) {a : A} {rest : List A} → drop i xs ≡ a ∷ rest → get_elem? xs i ≡ some a
  get_elem?-drop zero [] e = absurd (cc)
  get_elem?-drop zero (x ∷ xs) e = cc e
  get_elem?-drop (suc i) [] e = absurd (cc)
  get_elem?-drop (suc i) (x ∷ xs) e = get_elem?-drop i xs e

  pub drop_next :
      (i : ℕ) (xs : List A) {a : A} {rest : List A} → drop i xs ≡ a ∷ rest → drop (i + 1) xs ≡ rest
  drop_next zero [] e = absurd (cc)
  drop_next zero (x ∷ xs) e = cc e
  drop_next (suc i) [] e = absurd (cc)
  drop_next (suc i) (x ∷ xs) e = rw one_more (drop_next i xs e)
    where
      one_more : suc i + 1 ≡ suc (i + 1)
      one_more = omega arith

  pub drop_behind :
      (i : ℕ) (xs ys : List A) {rest : List A}
      → drop i xs ≡ ys ++ rest
      → drop (i + length ys) xs ≡ rest
  drop_behind i xs [] e = rw add-zero e
  drop_behind i xs (y ∷ ys) e = rw (← add_one) (drop_behind (i + 1) xs ys (drop_next i xs e))
    where
      add_one : i + 1 + length ys ≡ i + suc (length ys)
      add_one = omega arith

  pub drop_in_range :
      (i : ℕ) (xs : List A)
      → i < length xs
      → (a : A) × (get_elem? xs i ≡ some a) × (drop i xs ≡ a ∷ drop (i + 1) xs)
  drop_in_range i [] h = absurd (omega arith)
  drop_in_range zero (x ∷ xs) h = (x, refl, refl)
  drop_in_range (suc i) (x ∷ xs) h =
      let (a, e, d) = drop_in_range i xs (omega arith) in (a, e, d ∙ rw one_more)
    where
      one_more : suc i + 1 ≡ suc (i + 1)
      one_more = omega arith

  pub drop_all : (i : ℕ) (xs : List A) → length xs ≤ i → drop i xs ≡ []
  drop_all zero [] h = refl
  drop_all zero (x ∷ xs) h = absurd (omega arith)
  drop_all (suc i) [] h = refl
  drop_all (suc i) (x ∷ xs) h = drop_all i xs (omega arith)
