-- ===== src/Sdo/Cleanup/Closed.antt =====
-- What init_sdo opens, cleanup closes.
use ecat_v2_master.Base.{
  ℕ, ◌≡◌, refl, Bool, true, false, ◌||◌, List, [], ◌∷◌, ◌++◌, All, ◌==◌, if◌then◌else◌,
}
use ecat_v2_master.Config.{Outcome, value}
use ecat_v2_master.Config.Buffer.{and_then-value}
use ecat_v2_master.Sdo.{◌>>=◌, Handler, Endpoint}
use ecat_v2_master.Sdo.Motors.{lk_handler, dm_handler}
use ecat_v2_master.Task.LkMotor.{LkMotor}
use ecat_v2_master.Task.DmMotor.{DmMotor}
use ecat_v2_master.Sdo.TaskList.{AnyTask, lk_motor, dm_motor}
use ecat_v2_master.Sdo.Cleanup.{
  Member, subscriber, same_member, Held, hold, reset_member, reset_members, members,
}

abbrev pub is_in : Member → List Member → Bool
is_in m [] = false
is_in m (n ∷ ns) = same_member n m || is_in m ns

-- Each handle stands under one of the members.
abbrev pub AreIn : List Member → Held → Type 0
AreIn ms held = All (λ (h : Member × Endpoint). is_in h.0 ms ≡ true) held

AreIn-reset :
    (m : Member) (ms : List Member) (held : Held)
    → AreIn (m ∷ ms) held
    → AreIn ms (reset_member m held)
AreIn-reset m ms [] v = tt
AreIn-reset m ms ((n, e) ∷ held) (v, vs) =
    kept (same_member m n) (reset_member m held) v (AreIn-reset m ms held vs)
  where
    kept :
        (b : Bool) (rest : Held)
        → (b || is_in n ms) ≡ true
        → AreIn ms rest
        → AreIn ms (if b then rest else (n, e) ∷ rest)
    kept true rest v vs = vs
    kept false rest v vs = (v, vs)

pub closed : (ms : List Member) (held : Held) → AreIn ms held → reset_members ms held ≡ []
closed [] [] v = refl
closed [] (h ∷ held) (v, vs) = absurd (cc v)
closed (m ∷ ms) held v = closed ms (reset_member m held) (AreIn-reset m ms held v)

-- If the outcome is a value, it has the property.
abbrev pub Yields : {A : Type 0} → (A → Type 0) → Outcome A → Type 0
Yields {A} P o = (a : A) → o ≡ value a → P a

pub Yields-bind :
    {A B : Type 0} (P : A → Type 0) (Q : B → Type 0) (o : Outcome A) (f : A → Outcome B)
    → Yields P o
    → ((a : A) → P a → Yields Q (f a))
    → Yields Q (o >>= f)
Yields-bind P Q o f h k b e = let (a, p, q) = and_then-value o f e in k a (h a p) b q

pub Yields-value : {A : Type 0} (P : A → Type 0) (a : A) → P a → Yields P (value a)
Yields-value P a p b e = let same : a ≡ b = cc e in rw (← same) p

anything : {A : Type 0} (o : Outcome A) → Yields (λ a. Unit {0}) o
anything o a e = tt

-- A step that may give anything
pub any_step :
    {A B : Type 0} (Q : B → Type 0) (o : Outcome A) (f : A → Outcome B)
    → ((a : A) → Yields Q (f a))
    → Yields Q (o >>= f)
any_step Q o f k = Yields-bind (λ a. Unit) Q o f (anything o) λ a u. k a

-- All that is held has a member that the cleanup of the task resets.
abbrev pub IsOwned : AnyTask → List Endpoint → Type 0
IsOwned t eps = AreIn (members t) (hold t eps)

pub IsOwned-append :
    (t : AnyTask) (eps : List Endpoint) (e : Endpoint)
    → IsOwned t eps
    → IsOwned t (e ∷ [])
    → IsOwned t (eps ++ (e ∷ []))
IsOwned-append t [] e v w = w
IsOwned-append t (x ∷ eps) e (v, vs) w = (v, IsOwned-append t eps e vs w)

-- The handlers have a member that the cleanup of the task resets.
abbrev pub AreOffered : AnyTask → List Handler → Type 0
AreOffered t hs = All (λ (h : Handler). is_in (subscriber h) (members t) ≡ true) hs

AreOffered-if :
    (t : AnyTask) (b : Bool) (hs ks : List Handler)
    → AreOffered t hs
    → AreOffered t ks
    → AreOffered t (if b then hs else ks)
AreOffered-if t true hs ks v w = v
AreOffered-if t false hs ks v w = w

pub lk_handler-AreOffered : (t : LkMotor) (type : ℕ) → AreOffered (lk_motor t) (lk_handler type)
unfolding lk_handler
lk_handler-AreOffered t type = either 1 _ _ refl (
    either 2 _ _ refl (
      either 3 _ _ refl (
        either 4 _ _ refl
          (either 5 _ _ refl (either 6 _ _ refl (either 7 _ _ refl (either 8 _ _ refl tt)))))))
  where
    either :
        (n : ℕ) (h : Handler) (ks : List Handler)
        → is_in (subscriber h) (members (lk_motor t)) ≡ true
        → AreOffered (lk_motor t) ks
        → AreOffered (lk_motor t) (if type == n then h ∷ [] else ks)
    either n h ks v w = AreOffered-if (lk_motor t) (type == n) (h ∷ []) ks (v, tt) w

pub dm_handler-AreOffered : (t : DmMotor ℕ) (type : ℕ) → AreOffered (dm_motor t) (dm_handler type)
unfolding dm_handler
dm_handler-AreOffered t type =
    AreOffered-if (dm_motor t) (type == 1) _ _ (refl, tt)
      (AreOffered-if (dm_motor t) (type == 2) _ _ (refl, tt)
        (AreOffered-if (dm_motor t) (type == 3) _ _ (refl, tt) tt))
