-- ===== src/Node/Checker.antt =====
-- A round of `state_check_callback` (src/soem_wrapper/src/ecat_node.cpp): when it checks, and the
-- check of all slaves. Reading the states gives a state for each slave.
use ecat_v2_master.Base.{
  get_elem?, taken, passed, Bool-cases, inl, inr, zero, suc, ℕ, ◌≡◌, refl, ◌∙◌, sym, ap, Bool, true,
  false, not, ◌&&◌, ◌||◌, List, [], ◌∷◌, ◌++◌, Option, none, some, ◌>>=◌, >>=-eq-some, ltb,
  if◌then◌else◌,
}
use ecat_v2_master.Task.Class.{TaskClass}
use ecat_v2_master.Device.{SlaveDevice, Event}
use ecat_v2_master.Node.Health.{EcState, Entry, Bus, check_slave}
use ecat_v2_master.Node.Health.Lost.{IsConsistent, check_slave-IsConsistent}
use ecat_v2_master.Node.Setup.{is_operational}

module _ (C : TaskClass) where
  open C use {Task, Shared, Message}

  -- What the bus answers for a slave: the state that is read, and the rest of the check
  pub record Reading : Type 0 where
    pub state : EcState
    pub bus : Bus C

  -- The state that the checker keeps, and what it works on
  pub record Checker : Type 0 where
    pub docheckstate : Bool
    pub devices : List (SlaveDevice Task)
    pub entries : List Entry
    pub shared : Shared

  -- The loop over the slaves
  unfoldable pub check_slaves :
      ℕ
      → List Reading
      → List (SlaveDevice Task)
      → List Entry
      → Shared
      → Option (List (SlaveDevice Task) × List Entry × Shared × List (Event Message))
  unfolding check_slave
  check_slaves now rs [] es s = some ([], es, s, [])
  check_slaves now [] (d ∷ ds) es s = none
  check_slaves now (r ∷ rs) (d ∷ ds) [] s = none
  check_slaves now (r ∷ rs) (d ∷ ds) (e ∷ es) s =
      check_slave C r.bus now d (record e { state = r.state }) s >>= λ (d', e', s', out).
      check_slaves now rs ds es s' >>= λ (ds', es', s'', rest).
      some (d' ∷ ds', e' ∷ es', s'', out ++ rest)

  -- ec_group[0].docheckstate after the loop: raised by a slave that is not operational
  abbrev pub any_not_operational : List Reading → List (SlaveDevice Task) → Bool
  any_not_operational rs [] = false
  any_not_operational [] (d ∷ ds) = false
  any_not_operational (r ∷ rs) (d ∷ ds) = not (is_operational r.state) || any_not_operational rs ds

  abbrev pub is_due : (in_operational : Bool) → (wkc expected : ℕ) → Checker → Bool
  is_due in_operational wkc expected k = in_operational && (ltb wkc expected || k.docheckstate)

  unfoldable pub check_all : ℕ → List Reading → Checker → Option (Checker × List (Event Message))
  unfolding check_slaves
  check_all now rs k = check_slaves now rs k.devices k.entries k.shared >>= λ (ds, es, s, out).
      some (
        record {
          docheckstate = any_not_operational rs k.devices;
          devices = ds;
          entries = es;
          shared = s;
        },
        out,
      )

  unfoldable pub state_check :
      (in_operational : Bool)
      → (wkc expected now : ℕ) → List Reading
      → Checker
      → Option (Checker × List (Event Message))
  unfolding check_all
  state_check in_operational wkc expected now rs k =
      if is_due in_operational wkc expected k then check_all now rs k else some (k, [])

  any_not_operational-at :
      (i : ℕ) (rs : List Reading) (ds : List (SlaveDevice Task)) (r : Reading)
      (d : SlaveDevice Task)
      → get_elem? rs i ≡ some r
      → get_elem? ds i ≡ some d
      → is_operational r.state ≡ false
      → any_not_operational rs ds ≡ true
  any_not_operational-at i [] ds r d h k down = absurd (cc)
  any_not_operational-at i (x ∷ rs) [] r d h k down = absurd (cc)
  any_not_operational-at zero (x ∷ rs) (y ∷ ds) r d h k down =
      let same : x ≡ r = cc h in rw (same, down) refl
  any_not_operational-at (suc i) (x ∷ rs) (y ∷ ds) r d h k down =
      raised (is_operational x.state) (any_not_operational-at i rs ds r d h k down)
    where
      raised : (b : Bool) {c : Bool} → c ≡ true → (not b || c) ≡ true
      raised true e = e
      raised false e = refl

  result_is :
      {c k : Checker} {out out' : List (Event Message)}
      → ◌≡◌ {A = Option (Checker × List (Event Message))} (some (c, out)) (some (k, out'))
      → c ≡ k
  result_is e = cc e

  -- When a check that is due has returned and a slave was read as not operational in it, then the
  -- next round in the operational phase checks all slaves again, whatever the working counter
  -- says.
  pub state_check-again :
      (wkc expected now : ℕ) (rs : List Reading) (k : Checker) {k' : Checker}
      {out : List (Event Message)} (i : ℕ) (r : Reading) (d : SlaveDevice Task)
      → is_due true wkc expected k ≡ true
      → state_check true wkc expected now rs k ≡ some (k', out)
      → get_elem? rs i ≡ some r
      → get_elem? k.devices i ≡ some d
      → is_operational r.state ≡ false
      → (wkc' expected' now' : ℕ) (rs' : List Reading)
      → state_check true wkc' expected' now' rs' k' ≡ check_all now' rs' k'
  unfolding state_check check_all
  state_check-again wkc expected now rs k {k'} i r d due e h g down wkc' expected' now' rs' =
      let (all, p, q) =
        >>=-eq-some (check_slaves now rs k.devices k.entries k.shared) _
          (taken (is_due true wkc expected k) _ _ due e) in
      let up = any_not_operational-at i rs k.devices r d h g down in
      again (check_all now' rs' k') (some (k', [])) (ltb wkc' expected')
        (ap (λ (c : Checker). c.docheckstate) (sym (result_is q)) ∙ up)
    where
      again :
          {A : Type 0} (x y : A) (b : Bool) {c : Bool}
          → c ≡ true
          → (if true && (b || c) then x else y) ≡ x
      again x y true e = refl
      again x y false {c} e = rw e refl

  -- No slave that is lost works.
  abbrev pub AreConsistent : List (SlaveDevice Task) → List Entry → Type 0
  AreConsistent [] es = Unit
  AreConsistent (d ∷ ds) [] = Unit
  AreConsistent (d ∷ ds) (e ∷ es) = IsConsistent C d e × AreConsistent ds es

  check_slaves-AreConsistent :
      (now : ℕ) (rs : List Reading) (ds : List (SlaveDevice Task)) (es : List Entry) (s : Shared)
      → AreConsistent ds es
      → {ds' : List (SlaveDevice Task)} {es' : List Entry} {s' : Shared}
        {out : List (Event Message)}
      → check_slaves now rs ds es s ≡ some (ds', es', s', out)
      → AreConsistent ds' es'
  unfolding check_slaves
  check_slaves-AreConsistent now rs [] es s v {ds'} {es'} e =
      let same : [] ≡ ds' = cc e in rw (← same) tt
  check_slaves-AreConsistent now [] (d ∷ ds) es s v e = absurd (cc)
  check_slaves-AreConsistent now (r ∷ rs) (d ∷ ds) [] s v e = absurd (cc)
  check_slaves-AreConsistent now (r ∷ rs) (d ∷ ds) (x ∷ es) s (v, vs) {ds'} {es'} e =
      let ((d1, x1, s1, out1), p, q) =
        >>=-eq-some (check_slave C r.bus now d (record x { state = r.state }) s) _ e in
      let ((ds1, es1, s2, out2), p', q') = >>=-eq-some (check_slaves now rs ds es s1) _ q in
      let same : d1 ∷ ds1 ≡ ds' = cc q' in
      let like : x1 ∷ es1 ≡ es' = cc q' in
      rw (← same, ← like)
        (
          check_slave-IsConsistent C r.bus now d (record x { state = r.state }) s v p,
          check_slaves-AreConsistent now rs ds es s1 vs p',
        )

  -- When no slave that is marked as lost is in the working state before a round of the state
  -- check, then none is after it, whatever the bus answers and whether the check was due or not.
  pub state_check-AreConsistent :
      (in_operational : Bool) (wkc expected now : ℕ) (rs : List Reading) (k : Checker)
      {k' : Checker} {out : List (Event Message)}
      → AreConsistent k.devices k.entries
      → state_check in_operational wkc expected now rs k ≡ some (k', out)
      → AreConsistent k'.devices k'.entries
  unfolding state_check check_all
  state_check-AreConsistent in_operational wkc expected now rs k {k'} v e =
      elim (Bool-cases (is_due in_operational wkc expected k)) [
        | inl due ↦
            let ((ds, es, s, out1), p, q) =
              >>=-eq-some (check_slaves now rs k.devices k.entries k.shared) _
                (taken (is_due in_operational wkc expected k) _ _ due e) in
            let same : ds ≡ k'.devices = ap (λ (c : Checker). c.devices) (result_is q) in
            let like : es ≡ k'.entries = ap (λ (c : Checker). c.entries) (result_is q) in
            rw (← same, ← like) (check_slaves-AreConsistent now rs k.devices k.entries k.shared v p)
        | inr skipped ↦
            let same : k ≡ k' = cc (passed (is_due in_operational wkc expected k) _ _ skipped e) in
            rw (← same) v
      ]
