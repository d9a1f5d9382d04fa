-- ===== src/Validation/Bounds.antt =====
-- The goroutines of `Validate` stay within their bounds, never block for good, and end.
use policy_agent.Prelude.{
  ℕ, suc, ◌+◌, ◌*◌, ◌≤◌, ◌<◌, ◌≡◌, refl, ap, ◌∙◌, ◌⊎◌, inl, inr, List, [], ◌∷◌, length,
  length-append, arith,
}
use policy_agent.Validation.Workers.{
  Outcome, violating, compliant, failed, Channels, deliver, max_workers, Pool, start, finished,
  Step, spawn, finish, Reach, here, next,
}

-- The limits that hold while `n` policies are being evaluated: the places in `bound`, and the
-- capacity `n` of each channel, which the results sent and those still to come fill at most.
pub record Within {Job : Type 0} (n : ℕ) (s : Pool Job) : Type 0 where
  pub workers : length s.running ≤ max_workers
  pub violations : length s.channels.violations + length s.running + length s.waiting ≤ n
  pub compliances : length s.channels.compliances + length s.running + length s.waiting ≤ n
  pub errors : length s.channels.errors + length s.running + length s.waiting ≤ n

length-deliver :
    (o : Outcome) (c : Channels)
    → (length (deliver o c).violations ≤ length c.violations + 1)
      × (length (deliver o c).compliances ≤ length c.compliances + 1)
      × (length (deliver o c).errors ≤ length c.errors + 1)
unfolding deliver
length-deliver (violating v) c = omega (arith, length-append c.violations (v ∷ []))
length-deliver (compliant v) c = omega (arith, length-append c.compliances (v ∷ []))
length-deliver (failed e) c = omega (arith, length-append c.errors (e ∷ []))
length-deliver _ c = omega arith

-- What is left to do.
abbrev pub work_left : {Job : Type 0} → Pool Job → ℕ
work_left s = 2 * length s.waiting + length s.running

module _ {Job : Type 0} {work : Job → Outcome} where
  Step-Within : {n : ℕ} {s t : Pool Job} → Within n s → Step work s t → Within n t
  Step-Within {n} {s} {t} v (spawn j js w room e) = rw e (record {
    workers = omega (arith, length-append s.running (j ∷ []));
    violations = omega (arith, v.violations, length-append s.running (j ∷ []), ap length w);
    compliances = omega (arith, v.compliances, length-append s.running (j ∷ []), ap length w);
    errors = omega (arith, v.errors, length-append s.running (j ∷ []), ap length w);
  })
  Step-Within {n} {s} {t} v (finish xs j ys r e) =
      let before = ap length r ∙ length-append xs (j ∷ ys) in
      let after = length-append xs ys in
      let sent = length-deliver (work j) s.channels in
      rw e (record {
        workers = omega arith;
        violations = omega (arith, v.violations);
        compliances = omega (arith, v.compliances);
        errors = omega (arith, v.errors);
      })

  Reach-Within : {n : ℕ} {s t : Pool Job} → Within n s → Reach work s t → Within n t
  Reach-Within v here = v
  Reach-Within v (next r st) = Step-Within (Reach-Within v r) st

  -- The limits hold at every moment of a run.
  Reach-start-Within :
      (jobs : List Job) {t : Pool Job} → Reach work (start jobs) t → Within (length jobs) t
  Reach-start-Within jobs r = Reach-Within (omega arith) r

  Step-work_left : {s t : Pool Job} → Step work s t → work_left t < work_left s
  Step-work_left {s} {t} (spawn j js w room e) =
      rw e (omega (arith, length-append s.running (j ∷ []), ap length w))
  Step-work_left {s} {t} (finish xs j ys r e) =
      rw e (omega (arith, ap length r ∙ length-append xs (j ∷ ys), length-append xs ys))

  move :
      (waiting running : List Job) (c : Channels) (s : Pool Job)
      → s ≡ record { waiting = waiting; running = running; channels = c }
      → (s ≡ finished c) ⊎ ((t : Pool Job) × Step work s t)
  move [] [] c s e = inl e
  move (j ∷ js) [] c s e = inr (_, spawn j js (rw e) (rw e (omega arith)) refl)
  move ws (j ∷ js) c s e = inr (_, finish [] j js (rw e) refl)

  -- The number of steps of a run.
  abbrev pub steps : {s t : Pool Job} → Reach work s t → ℕ
  steps here = 0
  steps (next r st) = suc (steps r)

  Reach-work_left : {s t : Pool Job} (r : Reach work s t) → steps r + work_left t ≤ work_left s
  Reach-work_left here = omega arith
  Reach-work_left (next r st) = omega (arith, Reach-work_left r, Step-work_left st)

  -- Every run ends: it has at most two steps for each policy, and where it is not over it can go on,
  -- whatever the schedule has been. At every moment at most `max_workers` goroutines are running, and
  -- each channel has room for one more result from every policy that is not done: no goroutine ever
  -- waits to send.
  pub Reach-start-ends :
      (jobs : List Job) {t : Pool Job} (r : Reach work (start jobs) t)
      → (steps r ≤ 2 * length jobs)
        × Within (length jobs) t
        × ((t ≡ finished t.channels) ⊎ ((u : Pool Job) × Step work t u))
  Reach-start-ends jobs {t} r = (
    omega (arith, Reach-work_left r),
    Reach-start-Within jobs r,
    move t.waiting t.running t.channels t refl,
  )
