-- ===== src/Agent/Process.antt =====
-- main.go: the process, up to the start of the manager.
use policy_agent.Prelude.{String, List, [], ◌∷◌, Run, returns, panics}
use policy_agent.Sinks.Buffer.{empty, stop}
use policy_agent.Agent.{Progress, Halted, done, failed, exits, ◌>>=◌, attempt}
use policy_agent.Agent.Configuration.{Viper, get_agent_configuration}
use policy_agent.Agent.Startup.{Runnable, Platform, check_config}
use policy_agent.Agent.Modes.{Agent, nothing_started, start_agent}

-- How the process goes on: it serves, with what the manager runs, or ends with an error, or
-- crashes.
pub data Ending : Type 0 where
  serves : Agent → List Runnable → Ending
  fails : String → Ending
  crashes : Ending

module _ (x : Platform) where
  -- The deferred calls of `Stop` on sinks that have not been started.
  unfoldable pub stop_all : List Runnable → Run (Unit {0})
  stop_all [] = returns tt
  stop_all (r ∷ rs) = elim (stop (empty {Out = Runnable})) [
    | panics ↦ panics
    | returns b ↦ stop_all rs
  ]

  unfoldable pub exit_with : Progress Runnable × Halted Agent → Ending
  exit_with (p, done agent) = serves agent p.registered
  exit_with (p, exits e) = fails e
  exit_with (p, failed e) = elim (stop_all p.deferred) [ panics ↦ crashes | returns u ↦ fails e ]

  -- `main`, up to `mgr.Start`.
  unfoldable pub main : Viper → String → Ending
  main viper file_path = exit_with (
      (do
        c ← get_agent_configuration viper file_path
        checked ← attempt (check_config c)
        start_agent x c)
        nothing_started)
