-- ===== src/Validation/Workers.antt =====
-- The goroutines of `OpaValidator.Validate` (pkg/policy-core/validation/opa_validation.go): one for
-- each policy, at most `max_workers` at a time, which send what they find into three channels.
use policy_agent.Prelude.{ℕ, String, ◌<◌, ◌≡◌, refl, List, [], ◌∷◌, ◌++◌, length, arith}
use policy_agent.Domain.{PolicyValidation}

-- What one goroutine does before it ends.
pub data Outcome : Type 0 where
  skipped : Outcome
  violating : PolicyValidation → Outcome
  compliant : PolicyValidation → Outcome
  failed : String → Outcome
  crashed : Outcome

-- The channels' contents in order of arrival, and an entry for each goroutine that has panicked.
pub record Channels : Type 0 where
  pub violations : List PolicyValidation
  pub compliances : List PolicyValidation
  pub errors : List String
  pub crashes : List (Unit {0})

abbrev pub empty : Channels
empty = record { violations = []; compliances = []; errors = []; crashes = [] }

unfoldable pub deliver : Outcome → Channels → Channels
deliver skipped c = c
deliver (violating v) c = record c { violations = c.violations ++ v ∷ [] }
deliver (compliant v) c = record c { compliances = c.compliances ++ v ∷ [] }
deliver (failed e) c = record c { errors = c.errors ++ e ∷ [] }
deliver crashed c = record c { crashes = c.crashes ++ tt ∷ [] }

abbrev pub max_workers : ℕ
max_workers = 25

-- The loop's policies that have no goroutine yet, the goroutines that hold a place in `bound`, and
-- the channels.
pub record Pool (Job : Type 0) : Type 0 where
  pub waiting : List Job
  pub running : List Job
  pub channels : Channels

module _ {Job : Type 0} where
  abbrev pub start : List Job → Pool Job
  start jobs = record { waiting = jobs; running = []; channels = empty }

  -- `enqueueGroup.Wait()` has returned.
  abbrev pub finished : Channels → Pool Job
  finished c = record { waiting = []; running = []; channels = c }

  -- The loop takes a place in `bound` and starts a goroutine, or a goroutine ends and gives its
  -- place back.
  pub data Step (work : Job → Outcome) (s t : Pool Job) : Type 0 where
    spawn :
        (j : Job) (js : List Job)
        → s.waiting ≡ j ∷ js
        → length s.running < max_workers
        → t ≡ record s { waiting = js; running = s.running ++ j ∷ [] }
        → Step work s t
    finish :
        (xs : List Job) (j : Job) (ys : List Job)
        → s.running ≡ xs ++ j ∷ ys
        → t ≡ record s { running = xs ++ ys; channels = deliver (work j) s.channels }
        → Step work s t

  pub data Reach (work : Job → Outcome) (s : Pool Job) : Pool Job → Type 0 where
    here : Reach work s s
    next : {t u : Pool Job} → Reach work s t → Step work t u → Reach work s u

  -- One schedule: each goroutine ends before the next one starts.
  unfoldable pub run_in_order : (Job → Outcome) → Channels → List Job → Channels
  run_in_order work c [] = c
  run_in_order work c (j ∷ js) = run_in_order work (deliver (work j) c) js

module _ {Job : Type 0} (work : Job → Outcome) where
  pub run_in_order-reaches :
      {s : Pool Job} (c : Channels) (js : List Job)
      → Reach work s (record { waiting = js; running = []; channels = c })
      → Reach work s (finished (run_in_order work c js))
  unfolding run_in_order
  run_in_order-reaches c [] r = r
  run_in_order-reaches c (j ∷ js) r =
      run_in_order-reaches (deliver (work j) c) js
        (next (next r (spawn j js refl (omega arith) refl)) (finish [] j [] refl refl))

-- Go's scheduler: for each batch of goroutines the channels that one of the possible runs leaves.
pub record Scheduler (Job : Type 0) : Type 0 where
  pub run : (Job → Outcome) → List Job → Channels
  pub runs_to_end :
      (work : Job → Outcome) (jobs : List Job) → Reach work (start jobs) (finished (run work jobs))

-- The schedule in order is one that Go may choose.
abbrev pub in_order : {Job : Type 0} → Scheduler Job
in_order = record {
  run = λ work jobs. run_in_order work empty jobs;
  runs_to_end = λ work jobs. run_in_order-reaches work empty jobs here;
}
