-- ===== src/Task/Room.antt =====
-- The drivers' readers stay inside an input with room for their reports.
use ecat_v2_master.Base.{
  Bool, true, false, ap, Runs, Runs-bind, Runs-if, ℕ, ◌+◌, ◌≤◌, ◌≡◌, refl, List, Option, arith,
  length, get_elem?-in_range, get_elem?, bit_or, ◌<<<◌, ◌>>=◌, ◌==◌, if◌then◌else◌,
}
use ecat_v2_master.Float.{Float}
use ecat_v2_master.Io.{Cursor}
use ecat_v2_master.Io.Half.{Powers, read_float16, decode_half}
use ecat_v2_master.Io.Room.{Past, next8, next16, int16_after, int32_after}
use ecat_v2_master.Task.{TaskInfo}
use ecat_v2_master.Task.LkMotor
use ecat_v2_master.Task.LkMotor.{LkMotor, read_motor, read_multi, read_single}
use ecat_v2_master.Task.HipnucImu
use ecat_v2_master.Task.HipnucImu.{HipnucImuCan}
use ecat_v2_master.Task.SuperCap
use ecat_v2_master.Task.Pressure
use ecat_v2_master.Task.PmuCan

-- The reader returns.
abbrev pub Returns : {A : Type 0} → Option A → Type 0
Returns {A} o = Runs (λ (a : A). Unit {0}) o

abbrev Anything : {A : Type 0} → A → Type 0
Anything a = Unit {0}

abbrev start : List ℕ → ℕ → Cursor
start xs i = record { bytes = xs; offset = i }

pub super_cap_read-Returns :
    (t : TaskInfo) (stamp : ℕ) (xs : List ℕ)
    → t.pdoread_offset + 7 ≤ length xs
    → Returns (SuperCap.read t stamp xs)
unfolding SuperCap.read
super_cap_read-Returns t stamp xs h =
    let i = t.pdoread_offset in
    next8 Anything xs _ i _ (refl, omega arith) (omega (arith, h))
      λ v1 c1 p1. next8 Anything xs c1 (i + 1) _ p1 (omega (arith, h)) λ v2 c2 p2.
        next8 Anything xs c2 (i + 1 + 1) _ p2 (omega (arith, h)) λ v3 c3 p3.
          next8 Anything xs c3 (i + 1 + 1 + 1) _ p3 (omega (arith, h)) λ v4 c4 p4.
            next8 Anything xs c4 (i + 1 + 1 + 1 + 1) _ p4 (omega (arith, h)) λ v5 c5 p5.
              next8 Anything xs c5 (i + 1 + 1 + 1 + 1 + 1) _ p5 (omega (arith, h)) λ v6 c6 p6.
                next8 Anything xs c6 (i + 1 + 1 + 1 + 1 + 1 + 1) _ p6 (omega (arith, h))
                  λ v7 c7 p7. (_, refl, tt)

lk_motor-Past :
    (xs : List ℕ) (c : Cursor) (i : ℕ)
    → (c.bytes ≡ xs) × (c.offset ≤ i)
    → i + 8 ≤ length xs
    → Runs (Past xs (i + 8)) (read_motor c)
unfolding read_motor
lk_motor-Past xs c i p h =
    let Q = Past xs (i + 8) in
    next8 Q xs c i _ p (omega (arith, h)) λ v1 c1 p1.
      int16_after Q xs c1 (i + 1) _ p1 (omega (arith, h)) λ v2 c2 p2.
        int16_after Q xs c2 (i + 1 + 2) _ p2 (omega (arith, h)) λ v3 c3 p3.
          next16 Q xs c3 (i + 1 + 2 + 2) _ p3 (omega (arith, h)) λ v4 c4 p4.
            next8 Q xs c4 (i + 1 + 2 + 2 + 2) _ p4 (omega (arith, h))
              λ v5 c5 (e, k). (_, refl, (e, omega (arith, k)))

-- Four reports of eight bytes for a broadcast task, else one
abbrev pub lk_input : LkMotor → ℕ
lk_input t = if t.is_broadcast_mode then 32 else 8

lk_multi-Returns :
    (stamp i : ℕ) (xs : List ℕ) → i + 32 ≤ length xs → Returns (read_multi stamp (start xs i))
unfolding read_multi
lk_multi-Returns stamp i xs h =
    Runs-bind (Past xs (i + 8)) Anything (read_motor (start xs i)) _
      (lk_motor-Past xs (start xs i) i (refl, omega arith) (omega (arith, h)))
      λ (m1, c1) p1.
        Runs-bind (Past xs (i + 8 + 8)) Anything (read_motor c1) _
          (lk_motor-Past xs c1 (i + 8) p1 (omega (arith, h)))
          λ (m2, c2) p2.
            Runs-bind (Past xs (i + 8 + 8 + 8)) Anything (read_motor c2) _
              (lk_motor-Past xs c2 (i + 8 + 8) p2 (omega (arith, h)))
              λ (m3, c3) p3.
                Runs-bind (Past xs (i + 8 + 8 + 8 + 8)) Anything (read_motor c3) _
                  (lk_motor-Past xs c3 (i + 8 + 8 + 8) p3 (omega (arith, h)))
                  λ (m4, c4) p4. (_, refl, tt)

lk_single-Returns :
    (stamp i : ℕ) (xs : List ℕ) → i + 8 ≤ length xs → Returns (read_single stamp (start xs i))
unfolding read_single
lk_single-Returns stamp i xs h =
    next8 Anything xs _ i _ (refl, omega arith) (omega (arith, h))
      λ v1 c1 p1. int16_after Anything xs c1 (i + 1) _ p1 (omega (arith, h)) λ v2 c2 p2.
        int16_after Anything xs c2 (i + 1 + 2) _ p2 (omega (arith, h)) λ v3 c3 p3.
          next16 Anything xs c3 (i + 1 + 2 + 2) _ p3 (omega (arith, h)) λ v4 c4 p4.
            next8 Anything xs c4 (i + 1 + 2 + 2 + 2) _ p4 (omega (arith, h))
              λ v5 c5 p5. (_, refl, tt)

pub lk_read-Returns :
    (t : LkMotor) (stamp : ℕ) (xs : List ℕ)
    → t.info.pdoread_offset + lk_input t ≤ length xs
    → Returns (LkMotor.read t stamp xs)
unfolding LkMotor.read
lk_read-Returns t stamp xs h =
    let i = t.info.pdoread_offset in
    by_mode i t.is_broadcast_mode
      (λ k.
        Runs-bind Anything Anything (read_multi stamp (start xs i)) _
          (lk_multi-Returns stamp i xs k) λ r u. (_, refl, tt))
      (λ k.
        Runs-bind Anything Anything (read_single stamp (start xs i)) _
          (lk_single-Returns stamp i xs k) λ r u. (_, refl, tt))
      h
  where
    by_mode :
        {A : Type 0} {x y : Option A} (i : ℕ) {n : ℕ} (b : Bool)
        → (i + 32 ≤ n → Returns x)
        → (i + 8 ≤ n → Returns y)
        → i + (if b then 32 else 8) ≤ n
        → Returns (if b then x else y)
    by_mode i true f g h = f h
    by_mode i false f g h = g h

-- A read of the flag that stands behind the values
pub flag-Returns :
    {A : Type 0} (xs : List ℕ) (i : ℕ) (k : ℕ → Option A)
    → i + 1 ≤ length xs
    → ((flag : ℕ) → Returns (k flag))
    → Returns (get_elem? xs i >>= k)
flag-Returns xs i k h f =
    let (b, at) = get_elem?-in_range xs i (omega (arith, h)) in
    Runs-bind Anything Anything (get_elem? xs i) k (b, at, tt) λ flag u. f flag

module _ (fl : Float) where
  pub imu_read-Returns :
      (t : HipnucImuCan) (stamp : ℕ) (xs : List ℕ)
      → t.info.pdoread_offset + 20 ≤ length xs
      → Returns (HipnucImu.read fl t stamp xs)
  unfolding HipnucImu.read
  imu_read-Returns t stamp xs h =
      let i = t.info.pdoread_offset in
      int16_after Anything xs _ i _ (refl, omega arith) (omega (arith, h))
        λ v1 c1 p1. int16_after Anything xs c1 (i + 2) _ p1 (omega (arith, h)) λ v2 c2 p2.
          int16_after Anything xs c2 (i + 2 + 2) _ p2 (omega (arith, h)) λ v3 c3 p3.
            int16_after Anything xs c3 (i + 2 + 2 + 2) _ p3 (omega (arith, h)) λ v4 c4 p4.
              int16_after Anything xs c4 (i + 2 + 2 + 2 + 2) _ p4 (omega (arith, h)) λ v5 c5 p5.
                int16_after Anything xs c5 (i + 2 + 2 + 2 + 2 + 2) _ p5 (omega (arith, h))
                  λ v6 c6 p6.
                    int16_after Anything xs c6 (i + 2 + 2 + 2 + 2 + 2 + 2) _ p6 (omega (arith, h))
                      λ v7 c7 p7.
                        int16_after Anything xs c7 (i + 2 + 2 + 2 + 2 + 2 + 2 + 2) _ p7
                          (omega (arith, h))
                          λ v8 c8 p8.
                            int16_after Anything xs c8 (i + 2 + 2 + 2 + 2 + 2 + 2 + 2 + 2) _ p8
                              (omega (arith, h))
                              λ v9 c9 p9.
                                int16_after Anything xs c9 (i + 2 + 2 + 2 + 2 + 2 + 2 + 2 + 2 + 2) _
                                  p9 (omega (arith, h)) λ v10 c10 p10. (_, refl, tt)

  pub pressure_read-Returns :
      (t : TaskInfo) (stamp : ℕ) (xs : List ℕ) (last : Pressure.ReadMs5837Ba30 fl.Real)
      → t.pdoread_offset + 9 ≤ length xs
      → Returns (Pressure.read fl t stamp xs last)
  unfolding Pressure.read Pressure.read_values
  pressure_read-Returns t stamp xs last h =
      let i = t.pdoread_offset in
      flag-Returns xs (i + 8) _ (omega (arith, h)) λ flag.
        Runs-if Anything (flag == 0) _ _ (_, refl, tt)
          (int32_after Anything xs _ i _ (refl, omega arith) (omega (arith, h))
            λ v1 c1 p1.
              int32_after Anything xs c1 (i + 4) _ p1 (omega (arith, h)) λ v2 c2 p2. (_, refl, tt))

  module _ (p : Powers fl) where
    float16-Past :
        (xs : List ℕ) (c : Cursor) (i : ℕ)
        → (c.bytes ≡ xs) × (c.offset ≤ i)
        → i + 2 ≤ length xs
        → Runs (Past xs (i + 2)) (read_float16 fl p c)
    unfolding read_float16
    float16-Past xs c i (e, h) k =
        let (lo, at) = get_elem?-in_range c.bytes c.offset (omega (arith, h, k, ap length e)) in
        let (hi, at1) =
          get_elem?-in_range c.bytes (c.offset + 1) (omega (arith, h, k, ap length e)) in
        (
          (decode_half fl p (bit_or lo (hi <<< 8)), record c { offset = c.offset + 2 }),
          rw (at, at1) refl,
          (e, omega (arith, h)),
        )

    pub pmu_read-Returns :
        (t : TaskInfo) (stamp : ℕ) (xs : List ℕ) (last : PmuCan.ReadCanPmu fl.Real)
        → t.pdoread_offset + 7 ≤ length xs
        → Returns (PmuCan.read fl p t stamp xs last)
    unfolding PmuCan.read PmuCan.read_values
    pmu_read-Returns t stamp xs last h =
        let i = t.pdoread_offset in
        flag-Returns xs (i + 6) _ (omega (arith, h)) λ flag.
          Runs-if Anything (flag == 0) _ _ (_, refl, tt)
            (Runs-bind (Past xs (i + 2)) Anything (read_float16 fl p (start xs i)) _
              (float16-Past xs (start xs i) i (refl, omega arith) (omega (arith, h)))
              λ (v1, c1) p1.
                Runs-bind (Past xs (i + 2 + 2)) Anything (read_float16 fl p c1) _
                  (float16-Past xs c1 (i + 2) p1 (omega (arith, h)))
                  λ (v2, c2) p2.
                    Runs-bind (Past xs (i + 2 + 2 + 2)) Anything (read_float16 fl p c2) _
                      (float16-Past xs c2 (i + 2 + 2) p2 (omega (arith, h)))
                      λ (v3, c3) p3. (_, refl, tt))
