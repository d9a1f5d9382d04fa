-- ===== src/Agent/Failures.antt =====
-- A start that fails after a sink has been initialised (main.go): the deferred `Stop` of a sink that
-- has not been started panics.
use policy_agent.Prelude.{
  String, true, false, List, [], ◌∷◌, some, ok, panics, is_empty, ◌≡◌, refl, ap, sym, ◌∙◌, subst,
  arith, ◌↔◌,
}
use policy_agent.Entities.{EntitySource}
use policy_agent.Sinks.Buffer.{stop}
use policy_agent.Agent.{
  FileSystemSinkConfig, Config, Progress, Halted, done, failed, exits, continue_with, attempt,
}
use policy_agent.Agent.Configuration.{Viper, get_agent_configuration}
use policy_agent.Agent.Startup.{log_path, Runnable, Platform, check_config}
use policy_agent.Agent.Modes.{prepare, start_agent, nothing_started, Agent}
use policy_agent.Agent.Process.{crashes, stop_all, exit_with, main}
use policy_agent.Agent.Deferred.{Held, still_held, start_agent-Held}

exit_with-crashes :
    (x : Platform) (s : Progress Runnable × Halted Agent)
    → exit_with x s ≡ crashes
    → (q : Progress Runnable) × (e : String) × (s ≡ (q, failed e))
unfolding exit_with
exit_with-crashes x (p, done a) h = absurd (ground arith)
exit_with-crashes x (p, exits e) h = absurd (ground arith)
exit_with-crashes x (p, failed e) h = (p, e, refl)

stop_all-panics : (x : Platform) (rs : List Runnable) → is_empty rs ≡ false → stop_all x rs ≡ panics
unfolding stop_all stop
stop_all-panics x [] h = absurd (ground arith)
stop_all-panics x (r ∷ rs) h = refl

module _ (x : Platform) where
  main-start_agent :
      (viper : Viper) (file_path : String) (c : Config)
      → get_agent_configuration viper file_path nothing_started ≡ (nothing_started, done c)
      → check_config c ≡ ok tt
      → main x viper file_path ≡ exit_with x (start_agent x c nothing_started)
  unfolding main continue_with attempt
  main-start_agent viper file_path c read checked = rw (read, checked) refl

  -- For a configuration that passes the tests and in which the audit is enabled and has a file sink,
  -- when all that comes before the sinks succeeds and the file can be opened, an error that a later
  -- step of the start returns is never reported: the agent crashes exactly if there is one.
  pub main-crashes_iff :
      (viper : Viper) (file_path : String) (c : Config) (sources : List EntitySource)
      (f : FileSystemSinkConfig) (file : String)
      → get_agent_configuration viper file_path nothing_started ≡ (nothing_started, done c)
      → check_config c ≡ ok tt
      → prepare x c nothing_started ≡ (nothing_started, done sources)
      → c.audit.enabled ≡ true
      → c.audit.sinks.filesystem_sink ≡ some f
      → x.open_file (log_path f.file_name) ≡ ok file
      → (main x viper file_path ≡ crashes) ↔ (
          (q : Progress Runnable) × (e : String) × (start_agent x c nothing_started
            ≡ (q, failed e)))
  unfolding exit_with
  main-crashes_iff viper file_path c sources f file read checked prepared enabled chosen opened =
      let same = main-start_agent viper file_path c read checked in
      let kept = start_agent-Held x c sources f file prepared enabled chosen opened in
      (
        λ h. exit_with-crashes x _ (sym same ∙ h),
        λ (q, e, h).
            let some_sink = still_held q (failed e) (subst Held h kept) in
            same ∙ ap (exit_with x) h ∙ rw (stop_all-panics x q.deferred some_sink, exit_with) refl,
      )
