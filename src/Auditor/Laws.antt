-- ===== src/Auditor/Laws.antt =====
-- An audit visits every entity without a parent once (internal/auditor/auditor.go).
use policy_agent.Prelude.{
  ℕ, zero, suc, ◌<◌, String, true, false, List, [], ◌∷◌, ◌++◌, some, ok, err, ◌≡◌, refl, arith,
  length, All,
}
use policy_agent.Domain.{Entity, EntitiesList}
use policy_agent.Auditor.{Source, audit_page, audit_source, do_audit, entities_size_limit}

-- The pages that a source gives from a key on: up to one with nothing behind it, or to an error.
pub data Pages (source : Source) : String → List (List Entity) → Type 0 where
  fault :
      {key : String} (e : String)
      → source (record { limit = entities_size_limit; key_set = key }) ≡ err e
      → Pages source key []
  last :
      {key : String} (page : EntitiesList)
      → source (record { limit = entities_size_limit; key_set = key }) ≡ ok page
      → page.has_next ≡ false
      → Pages source key (page.entities ∷ [])
  more :
      {key : String} {rest : List (List Entity)} (page : EntitiesList)
      → source (record { limit = entities_size_limit; key_set = key }) ≡ ok page
      → page.has_next ≡ true
      → Pages source page.key_set rest
      → Pages source key (page.entities ∷ rest)

-- The entities of the pages that have no parent.
abbrev pub roots_of_page : List Entity → List Entity
roots_of_page [] = []
roots_of_page (e ∷ es) = elim e.has_parent [
  | true ↦ roots_of_page es
  | false ↦ e ∷ roots_of_page es
]

abbrev pub roots : List (List Entity) → List Entity
roots [] = []
roots (page ∷ pages) = roots_of_page page ++ roots pages

audit_page-roots : (es : List Entity) → audit_page es ≡ roots_of_page es
unfolding audit_page
audit_page-roots [] = refl
audit_page-roots (e ∷ es) = ground (arith, audit_page-roots es)

audit_source-roots :
    (fuel : ℕ) (source : Source) {key : String} {pages : List (List Entity)}
    → Pages source key pages
    → length pages < fuel
    → audit_source fuel source key ≡ some (roots pages)
unfolding audit_source
audit_source-roots (suc fuel) source (fault e q) h = rw (q, audit_source) refl
audit_source-roots (suc fuel) source (last page q n) h =
    ground (arith, audit_page-roots page.entities)
audit_source-roots (suc fuel) source (more {rest = rest} page q n ps) h =
    ground (arith, audit_page-roots page.entities, audit_source-roots fuel source ps)
audit_source-roots zero source (fault e q) h = elim h [ ]
audit_source-roots zero source (last page q n) h = elim h [ ]
audit_source-roots zero source (more page q n ps) h = elim h [ ]

-- Each source with its pages.
pub data AllPages : List Source → List (List (List Entity)) → Type 0 where
  no_sources : AllPages [] []
  next_source :
      {source : Source} {sources : List Source} {pages : List (List Entity)}
      {rest : List (List (List Entity))}
      → Pages source "" pages
      → AllPages sources rest
      → AllPages (source ∷ sources) (pages ∷ rest)

abbrev pub all_roots : List (List (List Entity)) → List Entity
all_roots [] = []
all_roots (pages ∷ rest) = roots pages ++ all_roots rest

-- If every source comes to an end, at a last page or at an error, an audit ends, and `Validate` has
-- been called for every entity without a parent on the pages that were listed, once and in order; a
-- source that fails does not keep the later ones from being audited.
pub do_audit-roots :
    (fuel : ℕ) (sources : List Source) (pages : List (List (List Entity)))
    → AllPages sources pages
    → All (λ ps. length ps < fuel) pages
    → do_audit fuel sources ≡ some (all_roots pages)
unfolding do_audit
do_audit-roots fuel sources pages no_sources h = refl
do_audit-roots fuel sources pages
      (next_source {source = s} {sources = ss} {pages = ps} {rest = rs} p a) h =
    ground (arith, audit_source-roots fuel s p h.0, do_audit-roots fuel ss rs a h.1)
