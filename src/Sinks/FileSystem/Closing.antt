-- ===== src/Sinks/FileSystem/Closing.antt =====
-- Which results become lines of the file (internal/sink/filesystem/filesystem.go).
use policy_agent.Prelude.{String, Bool, true, false, List, [], ◌++◌, Result, err, ◌≡◌, ◌⊎◌}
use policy_agent.Domain.{PolicyValidation}
use policy_agent.Sinks.Buffer.{Buffer, emitted}
use policy_agent.Sinks.FileSystem.{file_worker}

-- The encoder fails on a file that is closed.
module _ (encode : Bool → PolicyValidation → Result String)
    (fails : (r : PolicyValidation) → (e : String) × (encode true r ≡ err e)) where
  -- The accepted results are those that became lines while the file was open, those that were taken
  -- later, and those that wait.
  pub record IsLogged (closed : Bool) (s : Buffer String) : Type 0 where
    pub logged : List PolicyValidation
    pub lost : List PolicyValidation
    pub accepted_is : s.accepted ≡ logged ++ (lost ++ s.queue)
    pub sent_is : s.sent ≡ emitted (file_worker (encode false)) logged
    pub lost_after : (closed ≡ true) ⊎ (lost ≡ [])
