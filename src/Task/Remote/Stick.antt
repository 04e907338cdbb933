-- ===== src/Task/Remote/Stick.antt =====
-- The dead zone of a stick.
use ecat_v2_master.Base.{
  ℕ, ℤ, pos, negsuc, sub_ℕ, Bool, true, false, ◌&&◌, ◌≤◌, ◌<◌, ◌^◌, ◌≡◌, refl, arith, inl, inr,
  Bool-cases, ◌⊎◌, leb, if◌then◌else◌,
}
use ecat_v2_master.Float.{Float, IsExact, IsSmall, ◌≤ℤ◌}
use ecat_v2_master.Task.Remote.{get_percentage}

and-false : (b : Bool) → (b && false) ≡ false
and-false true = refl
and-false false = refl

offset_fits : (raw : ℕ) → raw < 2 ^ 11 → IsSmall (sub_ℕ raw 1024)
offset_fits raw h = ground arith

inside :
    (raw : ℕ)
    → 1019 ≤ raw
    → raw ≤ 1029
    → ◌≤ℤ◌ (negsuc 4) (sub_ℕ raw 1024) × ◌≤ℤ◌ (sub_ℕ raw 1024) (pos 5)
inside raw lo hi = ground arith

below : (raw : ℕ) → raw < 1019 → ¬ ◌≤ℤ◌ (negsuc 4) (sub_ℕ raw 1024)
below raw h = ground arith

above : (raw : ℕ) → 1029 < raw → ¬ ◌≤ℤ◌ (sub_ℕ raw 1024) (pos 5)
above raw h = ground arith

module _ (fl : Float) (exact : IsExact fl) where
  open fl use {of_int, div, le}

  le_false : (a b : ℤ) → IsSmall a → IsSmall b → ¬ ◌≤ℤ◌ a b → le (of_int a) (of_int b) ≡ false
  le_false a b ha hb n = elim (Bool-cases (le (of_int a) (of_int b))) [
    | inl yes_le ↦ absurd (n ((exact a b ha hb).0 yes_le))
    | inr no_le ↦ no_le
  ]

  module _ (raw : ℕ) (fits : raw < 2 ^ 11) where
    -- When the float comparison is exact on small integers, a stick value of eleven bits within
    -- five steps of the middle reads 0.
    get_percentage-dead_zone : 1019 ≤ raw → raw ≤ 1029 → get_percentage fl raw ≡ of_int (pos 0)
    unfolding get_percentage
    get_percentage-dead_zone lo hi = rw (
      (exact (negsuc 4) (sub_ℕ raw 1024) (omega arith) (offset_fits raw fits)).1
          (inside raw lo hi).0,
      (exact (sub_ℕ raw 1024) (pos 5) (offset_fits raw fits) (omega arith)).1 (inside raw lo hi).1,
    )

    -- When the float comparison is exact on small integers, a stick value of eleven bits more than
    -- five steps off the middle reads its offset from the middle over 660.
    get_percentage-outside :
        (raw < 1019) ⊎ (1029 < raw)
        → get_percentage fl raw ≡ div (of_int (sub_ℕ raw 1024)) (of_int (pos 660))
    unfolding get_percentage
    get_percentage-outside (inl low) =
        rw (le_false (negsuc 4) _ (omega arith) (offset_fits raw fits) (below raw low))
    get_percentage-outside (inr high) =
        rw (le_false _ (pos 5) (offset_fits raw fits) (omega arith) (above raw high), and-false)

    -- When the float comparison is exact on small integers, a stick value of eleven bits reads 0
    -- within five steps of the middle, and its offset from the middle over 660 otherwise.
    get_percentage_lem : get_percentage fl raw ≡ (
        if leb 1019 raw && leb raw 1029
        then of_int (pos 0)
        else div (of_int (sub_ℕ raw 1024)) (of_int (pos 660)))
    get_percentage_lem = elim (Bool-cases (leb 1019 raw && leb raw 1029)) [
      | inl near ↦ rw near (get_percentage-dead_zone (ground (arith, near)) (ground (arith, near)))
      | inr far ↦ rw far (get_percentage-outside (ground (arith, far)))
    ]
