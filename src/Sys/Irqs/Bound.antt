-- ===== src/Sys/Irqs/Bound.antt =====
-- The interrupts that `move_irq` binds, for a list of interrupts as the kernel prints it.
use ecat_v2_master.Base.{
  ℕ, zero, suc, ◌+◌, ◌*◌, ◌-◌, ◌/◌, ◌%◌, ◌^◌, ◌≤◌, ◌<◌, ◌≡◌, refl, ap, ◌∙◌, inl, inr, Bool, false,
  ◌&&◌, List, [], ◌∷◌, ◌++◌, Option, none, some, All, ◌==◌, ltb, Bool-cases, lt→ltb, if◌then◌else◌,
  replicate, arith,
}
use native.Mathlib.Nat.{pow-le-pow_right}
use ecat_v2_master.Config.{Key}
use ecat_v2_master.Config.Text.{codes}
use ecat_v2_master.Sys.Words.{is_space, lines, contains, skip_spaces, word}
use ecat_v2_master.Sys.Words.Numbers.{
  IsName, word-printed, IsLine, lines-printed, IsLine-append, IsLine-replicate, IsLine-name,
}
use ecat_v2_master.Sys.Irqs.{
  drop_colons, hex_digit, hex_list, Written, affinity_path, bind_lines, move_irq,
}

-- An interrupt's number or name, and what stands behind its colon
pub record Row : Type 0 where
  pub pad : ℕ
  pub irq : Key
  pub counts : Key

abbrev pub IsRow : Row → Type 0
IsRow r = IsName r.irq × All (λ c. (c == 58) ≡ false) r.irq × IsLine r.counts

abbrev pub row_text : Row → Key
row_text r = replicate r.pad 32 ++ ((r.irq ++ (58 ∷ [])) ++ (32 ∷ r.counts))

abbrev pub printed : List Row → Key
printed [] = []
printed (r ∷ rs) = row_text r ++ (10 ∷ printed rs)

-- The file begins with a line for the CPUs.
abbrev pub file : Key → List Row → Key
file header rs = header ++ (10 ∷ printed rs)

-- The value of lower case hexadecimal digits
abbrev pub hex_value : ℕ → Key → ℕ
hex_value n [] = n
hex_value n (c ∷ s) = hex_value (16 * n + (if ltb c 97 then c - 48 else c - 87)) s

-- The interrupts whose line names the device and whose file can be opened
abbrev pub wanted : Key → (Key → Bool) → Key → List Row → List Written
wanted nic_name opens text [] = []
wanted nic_name opens text (r ∷ rs) =
    let rest = wanted nic_name opens text rs in
    let path = codes "/proc/irq/" ++ r.irq ++ codes "/smp_affinity" in
    if contains nic_name (row_text r) && opens path then (path, text) ∷ rest else rest

hex_value-append :
    (acc : ℕ) (xs ys : Key) → hex_value acc (xs ++ ys) ≡ hex_value (hex_value acc xs) ys
hex_value-append acc [] ys = refl
hex_value-append acc (x ∷ xs) ys =
    hex_value-append (16 * acc + (if ltb x 97 then x - 48 else x - 87)) xs ys

hex_digit-value : (acc n : ℕ) → n < 16 → hex_value acc (hex_digit n ∷ []) ≡ 16 * acc + n
hex_digit-value acc n h = ground arith

hex_value-hex_list : (fuel n : ℕ) → n < 16 ^ fuel → hex_value 0 (hex_list fuel n) ≡ n
hex_value-hex_list zero n h = omega arith
hex_value-hex_list (suc fuel) n h = elim (Bool-cases (ltb n 16)) [
  | inl small ↦ rw small (omega (arith, hex_digit-value 0 n (ground arith)))
  | inr large ↦
      let before : hex_value 0 (hex_list fuel (n / 16)) ≡ n / 16 =
        hex_value-hex_list fuel (n / 16) (omega arith) in
      rw (large, hex_value-append 0 (hex_list fuel (n / 16)) (hex_digit (n % 16) ∷ []), before)
        (omega (arith, hex_digit-value (n / 16) (n % 16) (omega arith)))
]

drop_colons-name : (s : Key) → All (λ c. (c == 58) ≡ false) s → drop_colons (s ++ (58 ∷ [])) ≡ s
drop_colons-name [] v = refl
drop_colons-name (c ∷ s) (v, vs) = rw v (ap (λ s. c ∷ s) (drop_colons-name s vs))

skip_spaces-pad : (i : ℕ) (s : Key) → skip_spaces (replicate i 32 ++ s) ≡ skip_spaces s
skip_spaces-pad zero s = refl
skip_spaces-pad (suc i) s = skip_spaces-pad i s

IsName-colon : (s : Key) → IsName s → IsName (s ++ (58 ∷ []))
IsName-colon [] (h, v) = absurd (omega arith)
IsName-colon (c ∷ s) (h, (v, vs)) = (omega arith, (v, more s vs))
  where
    more :
        (s : Key) → All (λ c. is_space c ≡ false) s → All (λ c. is_space c ≡ false) (s ++ (58 ∷ []))
    more [] v = (refl, tt)
    more (c ∷ s) (v, vs) = (v, more s vs)

affinity_path-printed :
    (r : Row)
    → IsRow r
    → affinity_path (row_text r) ≡ codes "/proc/irq/" ++ r.irq ++ codes "/smp_affinity"
unfolding affinity_path
affinity_path-printed r (n, v, l) =
    ap (λ irq. codes "/proc/irq/" ++ irq ++ codes "/smp_affinity")
      (ap (λ s. drop_colons (word s))
          (skip_spaces-pad r.pad ((r.irq ++ (58 ∷ [])) ++ (32 ∷ r.counts)))
        ∙ ap drop_colons
            (word-printed (r.irq ++ (58 ∷ [])) (32 ∷ r.counts) (IsName-colon r.irq n) refl)
        ∙ drop_colons-name r.irq v)

row_text-IsLine : (r : Row) → IsRow r → IsLine (row_text r)
row_text-IsLine r (n, v, l) =
    IsLine-append (replicate r.pad 32) _ (IsLine-replicate r.pad)
      (IsLine-append (r.irq ++ (58 ∷ [])) _ (IsLine-name _ (IsName-colon r.irq n).1) (refl, l))

module _ (nic_name : Key) (opens : Key → Bool) where
  bind_lines-printed :
      (mask : ℕ) (rs : List Row)
      → All IsRow rs
      → bind_lines nic_name opens mask (lines (printed rs))
        ≡ wanted nic_name opens (hex_list 8 mask) rs
  unfolding bind_lines
  bind_lines-printed mask [] v = refl
  bind_lines-printed mask (r ∷ rs) (v, vs) =
      ap (bind_lines nic_name opens mask)
        (lines-printed (row_text r) (printed rs) (row_text-IsLine r v))
      ∙ ap
          (λ path.
            if contains nic_name (row_text r) && opens path
            then (path, hex_list 8 mask) ∷ bind_lines nic_name opens mask (lines (printed rs))
            else bind_lines nic_name opens mask (lines (printed rs)))
          (affinity_path-printed r v)
      ∙ ap
          (λ others.
            let path = codes "/proc/irq/" ++ r.irq ++ codes "/smp_affinity" in
            if contains nic_name (row_text r) && opens path
            then (path, hex_list 8 mask) ∷ others
            else others)
          (bind_lines-printed mask rs vs)

  -- The line of the CPUs names no device.
  bind_lines-file :
      (mask : ℕ) (header : Key) (rs : List Row)
      → IsLine header
      → contains nic_name header ≡ false
      → All IsRow rs
      → bind_lines nic_name opens mask (lines (file header rs))
        ≡ wanted nic_name opens (hex_list 8 mask) rs
  unfolding bind_lines
  bind_lines-file mask header rs l c v =
      ap (bind_lines nic_name opens mask) (lines-printed header (printed rs) l)
      ∙ ap
          (λ b.
            if b && opens (affinity_path header)
            then (affinity_path header, hex_list 8 mask)
              ∷ bind_lines nic_name opens mask (lines (printed rs))
            else bind_lines nic_name opens mask (lines (printed rs)))
          c
      ∙ bind_lines-printed mask rs v

  -- When the CPU's number is below 32 and the kernel prints a first line that does not contain the
  -- network device's name and then a list of interrupts, each with a name, a colon and a line of
  -- counts, then move_irq writes one text into the affinity file of exactly those interrupts whose
  -- line contains the network device's name and whose file opens, and the text is the hexadecimal
  -- number with the bit of the CPU.
  pub move_irq-printed :
      (cpu_id : ℕ) (header : Key) (rs : List Row)
      → cpu_id < 32
      → IsLine header
      → contains nic_name header ≡ false
      → All IsRow rs
      → (text : Key) × (hex_value 0 text ≡ 2 ^ cpu_id)
        × (move_irq cpu_id nic_name opens (file header rs) ≡ some (wanted nic_name opens text rs))
  unfolding move_irq
  move_irq-printed cpu_id header rs h l c v =
      let small : 2 ^ cpu_id ≤ 2 ^ 31 =
        pow-le-pow_right {n = 2} (omega arith) {i = cpu_id} {j = 31} (omega arith) in
      (
        hex_list 8 (2 ^ cpu_id),
        hex_value-hex_list 8 (2 ^ cpu_id) (omega (arith, small)),
        ap bound (ap (λ b. if b then some (2 ^ cpu_id) else none) (lt→ltb cpu_id 32 h))
            ∙ ap some (bind_lines-file (2 ^ cpu_id) header rs l c v),
      )
    where
      bound : Option ℕ → Option (List Written)
      bound o = elim o [
        | none ↦ none
        | some mask ↦ some (bind_lines nic_name opens mask (lines (file header rs)))
      ]
