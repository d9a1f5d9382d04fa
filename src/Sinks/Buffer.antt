-- ===== src/Sinks/Buffer.antt =====
-- What internal/sink/filesystem, k8s-event and flux-notification share: a channel of results, a
-- worker that `Start` runs, and `Stop`. The context that `Start` is given ends with the process; only
-- the one that `Stop` cancels is modelled.
pub mod Runs
pub mod Delivery
pub mod Stopping
use policy_agent.Prelude.{
  ℕ, suc, ◌<◌, Bool, true, false, ◌&&◌, List, [], ◌∷◌, ◌++◌, Run, returns, panics, length, ◌≡◌,
  if◌then◌else◌,
}
use policy_agent.Domain.{PolicyValidation}

-- `resultChanSize`, and the 50 of the filesystem sink.
abbrev pub result_chan_size : ℕ
result_chan_size = 50

-- A sink's worker: whether its loop watches the context, and what it sends for a result before
-- `Stop` has been called and after.
pub record Worker (Out : Type 0) : Type 0 where
  pub watches : Bool
  pub emit : Bool → PolicyValidation → List Out

-- The channel, what the worker has sent, and how far the sink's life has gone; `accepted` keeps all
-- results that `Write` has put into the channel.
pub record Buffer (Out : Type 0) : Type 0 where
  pub queue : List PolicyValidation
  pub accepted : List PolicyValidation
  pub sent : List Out
  pub started : Bool
  pub stopped : Bool
  pub exited : Bool

module _ {Out : Type 0} where
  abbrev pub empty : Buffer Out
  empty = record {
    queue = [];
    accepted = [];
    sent = [];
    started = false;
    stopped = false;
    exited = false;
  }

  -- `Stop`: `Start` sets the function that it calls, and a call of a nil function panics.
  unfoldable pub stop : Buffer Out → Run (Buffer Out)
  stop s = if s.started then returns (record s { stopped = true }) else panics

  -- A result enters the channel, `Write` going on to the next one; `Start`; the worker takes a
  -- result; `Stop`; the worker returns.
  pub data Move (w : Worker Out) (s t : Buffer Out) : Type 0 where
    write :
        (r : PolicyValidation)
        → length s.queue < result_chan_size
        → t ≡ record s { queue = s.queue ++ r ∷ []; accepted = s.accepted ++ r ∷ [] }
        → Move w s t
    start : s.started ≡ false → t ≡ record s { started = true } → Move w s t
    take_result :
        (r : PolicyValidation) (rs : List PolicyValidation)
        → s.started ≡ true
        → s.exited ≡ false
        → s.queue ≡ r ∷ rs
        → t ≡ record s { queue = rs; sent = s.sent ++ w.emit s.stopped r }
        → Move w s t
    halt : stop s ≡ returns t → Move w s t
    leave : w.watches ≡ true → s.stopped ≡ true → t ≡ record s { exited = true } → Move w s t

  pub data Reach (w : Worker Out) (s : Buffer Out) : Buffer Out → Type 0 where
    here : Reach w s s
    more : {t u : Buffer Out} → Move w t u → Reach w s t → Reach w s u

  -- How many results the worker takes in a run.
  abbrev pub handled : {w : Worker Out} {s t : Buffer Out} → Reach w s t → ℕ
  handled here = 0
  handled (more (take_result _ _ _ _ _ _) run) = suc (handled run)
  handled (more (write _ _ _) run) = handled run
  handled (more (start _ _) run) = handled run
  handled (more (halt _) run) = handled run
  handled (more (leave _ _ _) run) = handled run

  -- What the worker sends for results that it takes before `Stop`.
  abbrev pub emitted : Worker Out → List PolicyValidation → List Out
  emitted w [] = []
  emitted w (r ∷ rs) = w.emit false r ++ emitted w rs
