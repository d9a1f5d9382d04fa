-- ===== src/Auditor.antt =====
-- internal/auditor: the audit of every entity of every source, page by page, and the loop that starts
-- audits.
pub mod Laws
use policy_agent.Prelude.{
  ℕ, zero, suc, String, Bool, true, false, List, [], ◌∷◌, ◌++◌, Option, none, some, Result, ok, err,
  if◌then◌else◌, ltb, ◌&&◌, ◌^◌, Run, returns, panics,
}
use policy_agent.Domain.{Entity, EntitiesList, ListOptions}

abbrev pub entities_size_limit : ℕ
entities_size_limit = 50

-- `EntitiesSource.List`.
abbrev pub Source : Type 0
Source = ListOptions → Result EntitiesList

-- The loop over a page: the entities that `Validate` is called with. Its errors are only logged.
unfoldable pub audit_page : List Entity → List Entity
audit_page [] = []
audit_page (e ∷ es) = if e.has_parent then audit_page es else e ∷ audit_page es

abbrev join : List Entity → Option (List Entity) → Option (List Entity)
join es none = none
join es (some rest) = some (es ++ rest)

-- The loop over a source's pages, from a key on. A source may go on for ever, so the loop takes fuel
-- and answers `none` when it runs out; an error ends the source.
unfoldable pub audit_source : ℕ → Source → String → Option (List Entity)
audit_source zero source key_set = none
audit_source (suc fuel) source key_set =
    elim (source (record { limit = entities_size_limit; key_set = key_set })) [
      | err e ↦ some []
      | ok page ↦
          let rest = audit_source fuel source page.key_set in
          join (audit_page page.entities) (if page.has_next then rest else some [])
    ]

-- `doAudit`.
unfoldable pub do_audit : ℕ → List Source → Option (List Entity)
do_audit fuel [] = some []
do_audit fuel (source ∷ sources) = elim (audit_source fuel source "") [
  | none ↦ none
  | some es ↦ join es (do_audit fuel sources)
]

-- What `Start` selects: the context's end, the ticker, or an event from `Audit`.
pub data Signal : Type 0 where
  done : Signal
  tick : Signal
  event : String → Signal

-- The types of the audits that the loop of `Start` runs, in order.
unfoldable pub start : List Signal → List String
start [] = []
start (done ∷ signals) = []
start (tick ∷ signals) = "periodic-audit" ∷ start signals
start (event type ∷ signals) = type ∷ start signals

-- `Start` with an interval, an int64 of nanoseconds by its bits: `time.NewTicker` panics unless the
-- interval is positive.
unfoldable pub start_controller : ℕ → List Signal → Run (List String)
start_controller interval signals =
    if ltb 0 interval && ltb interval (2 ^ 63) then returns (start signals) else panics
