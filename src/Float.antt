-- ===== src/Float.antt =====
-- The float arithmetic that the code uses. Its type and operations are the compiler's and the
-- processor's, so they are a parameter; `IsExact` is what IEEE 754 says of comparisons between
-- integers that a float holds exactly.
use ecat_v2_master.Base.{◌≤◌, ℤ, pos, negsuc, Bool, true, ◌↔◌, ◌≡◌, ◌^◌, suc}

pub record Float : Type 1 where
  pub Real : Type 0
  pub of_int : ℤ → Real
  pub to_int : Real → ℤ
  pub le : Real → Real → Bool
  pub neg : Real → Real
  pub add : Real → Real → Real
  pub sub : Real → Real → Real
  pub mul : Real → Real → Real
  pub div : Real → Real → Real

abbrev pub ◌≤ℤ◌ : ℤ → ℤ → Type 0
◌≤ℤ◌ (pos a) (pos b) = a ≤ b
◌≤ℤ◌ (pos a) (negsuc b) = ⊥
◌≤ℤ◌ (negsuc a) (pos b) = Unit {0}
◌≤ℤ◌ (negsuc a) (negsuc b) = b ≤ a

-- At most 2 ^ 24 in absolute value.
abbrev pub IsSmall : ℤ → Type 0
IsSmall (pos a) = a ≤ 2 ^ 24
IsSmall (negsuc a) = suc a ≤ 2 ^ 24

abbrev pub IsExact : Float → Type 0
IsExact fl =
    (a b : ℤ) → IsSmall a → IsSmall b → (fl.le (fl.of_int a) (fl.of_int b) ≡ true) ↔ ◌≤ℤ◌ a b
