-- ===== src/Config/Fields.antt =====
-- The map of the configuration: what is set is found, and what is removed is not.
use ecat_v2_master.Base.{
  ◌≡◌, ◌≢◌, refl, sym, ap, ap₂, ◌∙◌, inl, inr, true, false, [], ◌∷◌, Option, none, some, arith,
  Bool-cases, Option-cases, ◌==◌, ==_iff, if◌then◌else◌,
}
use ecat_v2_master.Config.{
  Variant, value, key_not_found, Key, Entries, same_key, set, find, get, has, erase, remove,
  get_field_as, get_field_or, held, or_default,
}

pub same_key_refl : (k : Key) → same_key k k ≡ true
same_key_refl [] = refl
same_key_refl (x ∷ xs) = ground (arith, same_key_refl xs)

pub same_key_eq : (k l : Key) → same_key k l ≡ true → k ≡ l
same_key_eq [] [] e = refl
same_key_eq [] (y ∷ ys) e = absurd (cc)
same_key_eq (x ∷ xs) [] e = absurd (cc)
same_key_eq (x ∷ xs) (y ∷ ys) e = elim (Bool-cases (x == y)) [
  | inl same ↦
      ap₂ (λ h t. h ∷ t) ((==_iff x y).0 same) (same_key_eq xs ys (ground (arith, e, same)))
  | inr other ↦ absurd (ground (arith, e, other))
]

find-set_same : (k : Key) (v : Variant) (es : Entries) → find k (set k v es) ≡ some v
unfolding find set
find-set_same k v [] = rw (same_key_refl k) refl
find-set_same k v ((l, w) ∷ es) = elim (Bool-cases (same_key l k)) [
  | inl same ↦ rw (same, same) refl
  | inr other ↦ rw (other, other) (find-set_same k v es)
]

same_key-false : (k l : Key) → k ≢ l → same_key k l ≡ false
same_key-false k l h = elim (Bool-cases (same_key k l)) [
  | inl same ↦ absurd (h (same_key_eq k l same))
  | inr other ↦ other
]

find-set_other : (k l : Key) (v : Variant) (es : Entries) → k ≢ l → find l (set k v es) ≡ find l es
unfolding find set
find-set_other k l v [] h = rw (same_key-false k l h) refl
find-set_other k l v ((m, w) ∷ es) h = elim (Bool-cases (same_key m k)) [
  | inl same ↦
      let m_not_l = same_key-false m l (rw (same_key_eq m k same) h) in rw same (rw m_not_l refl)
  | inr other ↦ rw other (ap (λ r. if same_key m l then some w else r) (find-set_other k l v es h))
]

different : (k l : Key) → same_key k l ≡ false → k ≢ l
different k l e h = absurd (cc (e, same_key_refl k, h))

get-set_same : (k : Key) (v : Variant) (es : Entries) → get k (set k v es) ≡ value v
unfolding get
get-set_same k v es = rw (get, find-set_same k v es) refl

-- After setting a value, a lookup of its key gives the value and a lookup of any other key gives
-- what it gave before.
pub get-set :
    (k l : Key) (v : Variant) (es : Entries)
    → get l (set k v es) ≡ (if same_key k l then value v else get l es)
unfolding get
get-set k l v es = elim (Bool-cases (same_key k l)) [
  | inl same ↦
      rw same (ap (λ n. get n (set k v es)) (sym (same_key_eq k l same)) ∙ get-set_same k v es)
  | inr other ↦ rw other (rw (get, find-set_other k l v es (different k l other)) refl)
]

-- Each key stands once.
pub data IsMap : Entries → Type 0 where
  empty : IsMap []
  entry : {k : Key} {v : Variant} {es : Entries} → find k es ≡ none → IsMap es → IsMap ((k, v) ∷ es)

-- Setting a value keeps the keys distinct.
pub set-IsMap : (k : Key) (v : Variant) (es : Entries) → IsMap es → IsMap (set k v es)
unfolding set find
set-IsMap k v [] empty = entry refl empty
set-IsMap k v ((m, w) ∷ es) (entry new rest) = elim (Bool-cases (same_key m k)) [
  | inl same ↦ rw same (entry new rest)
  | inr other ↦ rw other (
      entry (find-set_other k m v es (λ p. different m k other (sym p)) ∙ new)
        (set-IsMap k v es rest))
]

find-erase_same : (k : Key) (es : Entries) → IsMap es → find k (erase k es) ≡ none
unfolding find erase
find-erase_same k [] empty = refl
find-erase_same k ((m, w) ∷ es) (entry new rest) = elim (Bool-cases (same_key m k)) [
  | inl same ↦ rw same (rw (← same_key_eq m k same) new)
  | inr other ↦ rw (other, other) (find-erase_same k es rest)
]

find-erase_other : (k l : Key) (es : Entries) → k ≢ l → find l (erase k es) ≡ find l es
unfolding find erase
find-erase_other k l [] h = refl
find-erase_other k l ((m, w) ∷ es) h = elim (Bool-cases (same_key m k)) [
  | inl same ↦
      let m_not_l = same_key-false m l (rw (same_key_eq m k same) h) in rw same (rw m_not_l refl)
  | inr other ↦ rw other (ap (λ r. if same_key m l then some w else r) (find-erase_other k l es h))
]

remove_lem : (k : Key) (es : Entries) {es' : Entries} → remove k es ≡ value es' → erase k es ≡ es'
unfolding remove
remove_lem k es e = ground arith

get-erase_same : (k : Key) (es : Entries) → IsMap es → get k (erase k es) ≡ key_not_found
unfolding get
get-erase_same k es m = rw (get, find-erase_same k es m) refl

-- When the keys are distinct and a key is removed, its lookup throws, and a lookup of any other
-- key gives what it gave before.
get-remove :
    (k l : Key) (es es' : Entries)
    → IsMap es
    → remove k es ≡ value es'
    → get l es' ≡ (if same_key k l then key_not_found else get l es)
unfolding get
get-remove k l es es' m e =
    let removed = remove_lem k es e in
    elim (Bool-cases (same_key k l)) [
      | inl same ↦ rw same (
          ap (λ n. get n es') (sym (same_key_eq k l same)) ∙ rw (← removed) (get-erase_same k es m))
      | inr other ↦
          rw other (rw (get, ← removed, find-erase_other k l es (different k l other)) refl)
    ]

uncaught : {A : Type 0} (o : Option A) (default : A) → or_default default (held o) ≡ held o
uncaught none default = refl
uncaught (some a) default = refl

-- A lookup with a default gives the default exactly when the key is missing; when it is there the
-- result is that of the lookup without a default, also when that is the exception for a value of
-- another type.
get_field_or_lem :
    {A : Type 0} (alternative : Variant → Option A) (k : Key) (default : A) (es : Entries)
    → get_field_or alternative k default es
      ≡ (if has k es then get_field_as alternative k es else value default)
unfolding get_field_or get_field_as has
get_field_or_lem alternative k default es = elim (Option-cases (find k es)) [
  | inl missing ↦ ground (arith, missing)
  | inr (v, there) ↦ ground (arith, there, uncaught (alternative v) default)
]
