-- ===== src/Validation/Schedules.antt =====
-- Every run of the goroutines collects the same results (Validation.Workers), up to their order.
use mathlib.Core.List.{Perm, append-nil, append_assoc, perm_append_comm}
use mathlib.Core.List.Perm
use policy_agent.Prelude.{String, ◌≡◌, refl, sym, subst, List, [], ◌∷◌, ◌++◌, All, All-append}
use policy_agent.Domain.{PolicyValidation}
use policy_agent.Validation.Workers.{
  Outcome, violating, compliant, failed, crashed, Channels, empty, deliver, Pool, start, finished,
  Step, spawn, finish, Reach, here, next,
}

-- What an outcome sends into each channel.
abbrev pub violation_of : Outcome → List PolicyValidation
violation_of (violating v) = v ∷ []
violation_of _ = []

abbrev pub compliance_of : Outcome → List PolicyValidation
compliance_of (compliant v) = v ∷ []
compliance_of _ = []

abbrev pub error_of : Outcome → List String
error_of (failed e) = e ∷ []
error_of _ = []

abbrev pub crash_of : Outcome → List (Unit {0})
crash_of crashed = tt ∷ []
crash_of _ = []

module _ {Job : Type 0} {B : Type 0} (pick : Job → List B) where
  -- What the jobs send into one channel, one after the other.
  unfoldable pub gather : List Job → List B
  gather [] = []
  gather (j ∷ js) = pick j ++ gather js

  gather-append : (xs ys : List Job) → gather (xs ++ ys) ≡ gather xs ++ gather ys
  unfolding gather
  gather-append [] ys = refl
  gather-append (x ∷ xs) ys = rw (gather-append xs ys) (sym (append_assoc (pick x) _ _))

  gather-middle :
      (xs : List Job) (j : Job) (ys : List Job)
      → Perm (gather (xs ++ j ∷ ys)) (pick j ++ gather (xs ++ ys))
  unfolding gather
  gather-middle [] j ys = Perm.rfl
  gather-middle (x ∷ xs) j ys = Perm.trans (Perm.append_left (pick x) (gather-middle xs j ys)) (
      rw
        (
          ← append_assoc (pick x) (pick j) (gather (xs ++ ys)),
          ← append_assoc (pick j) (pick x) (gather (xs ++ ys)),
        )
        (Perm.append_right (gather (xs ++ ys)) (perm_append_comm (pick x) (pick j))))

-- One channel: what it holds, and what an outcome adds to it.
module _ {Job B : Type 0} (work : Job → Outcome) (chan : Channels → List B) (add : Outcome → List B)
    (law : (o : Outcome) (c : Channels) → chan (deliver o c) ≡ chan c ++ add o) where
  pending : Pool Job → List B
  pending s = chan s.channels ++ gather (λ j. add (work j)) (s.running ++ s.waiting)

  finish-gather :
      (c : Channels) (xs : List Job) (j : Job) (ys ws : List Job)
      → Perm
          (chan c ++ gather (λ k. add (work k)) ((xs ++ j ∷ ys) ++ ws))
          (chan (deliver (work j) c) ++ gather (λ k. add (work k)) ((xs ++ ys) ++ ws))
  finish-gather c xs j ys ws =
      rw (law (work j) c, append_assoc xs (j ∷ ys) ws, append_assoc xs ys ws, append_assoc (chan c))
        (Perm.append_left (chan c) (gather-middle (λ k. add (work k)) xs j (ys ++ ws)))

  Step-pending : {s t : Pool Job} → Step work s t → Perm (pending s) (pending t)
  unfolding pending
  Step-pending {s} {t} (spawn j js w room e) =
      rw (e, w, append_assoc s.running (j ∷ []) js) Perm.rfl
  Step-pending {s} {t} (finish xs j ys r e) = rw (e, r) (finish-gather s.channels xs j ys s.waiting)

  Reach-pending : {s t : Pool Job} → Reach work s t → Perm (pending s) (pending t)
  Reach-pending here = Perm.rfl
  Reach-pending (next r st) = Perm.trans (Reach-pending r) (Step-pending st)

  pub collects :
      (jobs : List Job) (c : Channels)
      → chan empty ≡ []
      → Reach work (start jobs) (finished c)
      → Perm (chan c) (gather (λ j. add (work j)) jobs)
  unfolding pending gather
  collects jobs c e r =
      let p = Reach-pending r in
      Perm.symm (subst (λ xs. Perm xs (chan c)) (rw e) (rw append-nil at p))

  -- What holds of all that the jobs send holds of all that the channel gets.
  pub Reach-All :
      (P : B → Type 0)
      → ((j : Job) → All P (add (work j)))
      → {s t : Pool Job} → Reach work s t
      → All P (chan s.channels)
      → All P (chan t.channels)
  Reach-All P each here h = h
  Reach-All P each (next r (spawn j js w room e)) h = rw e (Reach-All P each r h)
  Reach-All P each (next {t = t} r (finish xs j ys q e)) h =
      rw (e, law (work j) t.channels)
        (All-append P (chan t.channels) _ (Reach-All P each r h) (each j))

pub deliver-violations :
    (o : Outcome) (c : Channels) → (deliver o c).violations ≡ c.violations ++ violation_of o
unfolding deliver
deliver-violations (violating v) c = refl
deliver-violations _ c = sym (append-nil c.violations)

pub deliver-compliances :
    (o : Outcome) (c : Channels) → (deliver o c).compliances ≡ c.compliances ++ compliance_of o
unfolding deliver
deliver-compliances (compliant v) c = refl
deliver-compliances _ c = sym (append-nil c.compliances)

pub deliver-errors : (o : Outcome) (c : Channels) → (deliver o c).errors ≡ c.errors ++ error_of o
unfolding deliver
deliver-errors (failed e) c = refl
deliver-errors _ c = sym (append-nil c.errors)

pub deliver-crashes : (o : Outcome) (c : Channels) → (deliver o c).crashes ≡ c.crashes ++ crash_of o
unfolding deliver
deliver-crashes crashed c = refl
deliver-crashes _ c = sym (append-nil c.crashes)

-- What each channel gets from the jobs, taken one after the other.
pub record Collected {Job : Type 0} (work : Job → Outcome) (jobs : List Job) (c : Channels)
    : Type 0 where
  pub violations : Perm c.violations (gather (λ j. violation_of (work j)) jobs)
  pub compliances : Perm c.compliances (gather (λ j. compliance_of (work j)) jobs)
  pub errors : Perm c.errors (gather (λ j. error_of (work j)) jobs)
  pub crashes : Perm c.crashes (gather (λ j. crash_of (work j)) jobs)

-- Every run of the goroutines to the end leaves in each channel what the policies send when they are
-- evaluated one after the other, up to order; so does the count of panics.
pub Reach-Collected :
    {Job : Type 0} (work : Job → Outcome) (jobs : List Job) (c : Channels)
    → Reach work (start jobs) (finished c)
    → Collected work jobs c
Reach-Collected work jobs c r = record {
  violations = collects work (λ d. d.violations) violation_of deliver-violations jobs c refl r;
  compliances = collects work (λ d. d.compliances) compliance_of deliver-compliances jobs c refl r;
  errors = collects work (λ d. d.errors) error_of deliver-errors jobs c refl r;
  crashes = collects work (λ d. d.crashes) crash_of deliver-crashes jobs c refl r;
}
