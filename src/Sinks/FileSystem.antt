-- ===== src/Sinks/FileSystem.antt =====
-- internal/sink/filesystem/filesystem.go: results as lines of a file.
pub mod Closing
use policy_agent.Prelude.{
  String, Bool, true, false, [], ◌∷◌, Result, ok, err, map_err, returns, ◌>>=◌, ◌≡◌, refl, ap, ◌∙◌,
  ◌<>◌, if◌then◌else◌,
}
use policy_agent.Domain.{PolicyValidation}
use policy_agent.Sinks.Buffer.{Worker, Buffer, empty, Move}

-- `NewFileSystemSink`; `open_file` is the operating system's.
unfoldable pub new_file_system_sink : (String → Result String) → String → Result (Buffer String)
new_file_system_sink open_file path = do
  file ←
      map_err (λ e. "failed to open file " <> path <> " to write validation results: " <> e)
        (open_file path)
  ok empty

module _ (encode : PolicyValidation → Result String) where
  -- `writeValidationResutl`: the line that is added to the file; `encode` is the JSON encoder on the
  -- file as it is, which also reports the errors of the file.
  unfoldable pub write_validation_result : PolicyValidation → Result String
  write_validation_result r = map_err (λ e. "failed to write result to file: " <> e) (encode r)

  -- `WritePolicyValidationWorker`, which takes no notice of the context and only logs errors.
  unfoldable pub file_worker : Worker String
  unfolding write_validation_result
  file_worker = record {
    watches = false;
    emit = λ cancelled r. elim (write_validation_result r) [ err e ↦ [] | ok line ↦ line ∷ [] ];
  }

-- The sink with its file.
pub record FileSystemSink : Type 0 where
  pub buffer : Buffer String
  pub closed : Bool

abbrev pub opened : FileSystemSink
opened = record { buffer = empty; closed = false }

-- `encode` is the JSON encoder on the open file and on the closed one.
module _ (encode : Bool → PolicyValidation → Result String) where
  -- The steps of the channel and of its worker, of which `halt` is `Stop`'s call of the cancel
  -- function; and the deferred close of the file, some time after it, between which and the call
  -- `Stop` waits for the disk only.
  pub data FileStep (s t : FileSystemSink) : Type 0 where
    run :
        (b : Buffer String)
        → Move (file_worker (encode s.closed)) s.buffer b
        → t ≡ record s { buffer = b }
        → FileStep s t
    close : s.buffer.stopped ≡ true → t ≡ record s { closed = true } → FileStep s t

  pub data FileReach (s : FileSystemSink) : FileSystemSink → Type 0 where
    at_start : FileReach s s
    then_ : {t u : FileSystemSink} → FileStep t u → FileReach s t → FileReach s u
