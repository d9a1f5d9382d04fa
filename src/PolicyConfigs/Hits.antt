-- ===== src/PolicyConfigs/Hits.antt =====
-- What it means for a policy config that one of its targets is hit
-- (internal/policies/policyconfig.go).
use policy_agent.Prelude.{
  String, Bool, true, false, ◌&&◌, not, List, [], ◌∷◌, Option, none, some, ◌≡◌, ◌≢◌, refl, subst,
  inl, inr, arith, Member, eq_iff, ◌==◌, if◌then◌else◌, map, and_iff, if_cases,
}
use policy_agent.Api.{PolicyConfigCrd, ObjectTarget, target_id, elements}
use policy_agent.Domain.{Entity}
use policy_agent.Controller.{ids_of}
use policy_agent.PolicyConfigs.{
  FluxObject, Hit, no_hit, anywhere, in_namespace, match_apps, match_resources, if_hit, app_hit,
}

pub is_hit : Hit → Hit → Bool
is_hit anywhere anywhere = true
is_hit in_namespace in_namespace = true
is_hit _ _ = false

pub if_hit-is_hit :
    (a b : Hit) (c : PolicyConfigCrd) → if_hit a b c ≡ (if is_hit a b then c ∷ [] else [])
unfolding is_hit
if_hit-is_hit no_hit no_hit c = refl
if_hit-is_hit no_hit anywhere c = refl
if_hit-is_hit no_hit in_namespace c = refl
if_hit-is_hit anywhere no_hit c = refl
if_hit-is_hit anywhere anywhere c = refl
if_hit-is_hit anywhere in_namespace c = refl
if_hit-is_hit in_namespace no_hit c = refl
if_hit-is_hit in_namespace anywhere c = refl
if_hit-is_hit in_namespace in_namespace c = refl

-- A target that an application or a resource hits has the id of what hits it.
abbrev pub id_in : String → String → String → String
id_in kind name namespace = target_id (record { kind = kind; name = name; namespace = namespace })

target_id-eq :
    (t : ObjectTarget) (kind name namespace : String)
    → t.kind ≡ kind
    → t.name ≡ name
    → t.namespace ≡ namespace
    → id_in kind name namespace ≡ target_id t
target_id-eq t kind name namespace k n s = ground (arith, k, n, s)

-- What a hit says of the ids of a config's targets.
abbrev pub Hits : String → String → String → List String → Hit → Type 0
Hits kind name namespace ids no_hit = Unit
Hits kind name namespace ids anywhere = Member (id_in kind name "") ids
Hits kind name namespace ids in_namespace = Member (id_in kind name namespace) ids

Hits-cons :
    (kind name namespace id : String) (ids : List String) (hit : Hit)
    → Hits kind name namespace ids hit
    → Hits kind name namespace (id ∷ ids) hit
Hits-cons kind name namespace id ids no_hit h = tt
Hits-cons kind name namespace id ids anywhere h = inr h
Hits-cons kind name namespace id ids in_namespace h = inr h

pub is_hit-Hits :
    (kind name namespace : String) (ids : List String) (a b : Hit)
    → is_hit a b ≡ true
    → Hits kind name namespace ids a
    → Hits kind name namespace ids b
unfolding is_hit
is_hit-Hits kind name namespace ids anywhere anywhere e h = h
is_hit-Hits kind name namespace ids in_namespace in_namespace e h = h
is_hit-Hits kind name namespace ids _ _ e h = absurd (ground arith)

pub match_apps-Hits :
    (flux : FluxObject) (apps : List ObjectTarget)
    → Hits flux.kind flux.name flux.namespace (map target_id apps) (match_apps flux apps)
unfolding match_apps
match_apps-Hits flux [] = tt
match_apps-Hits flux (app ∷ apps) =
    let P = Hits flux.kind flux.name flux.namespace (map target_id (app ∷ apps)) in
    let later : P (match_apps flux apps) =
      Hits-cons flux.kind flux.name flux.namespace (target_id app) (map target_id apps) _
        (match_apps-Hits flux apps) in
    if_cases P (app.name == flux.name && app.kind == flux.kind) _ _
      (λ both.
        let (n, k) = (and_iff _ _ (eq_iff app.name flux.name) (eq_iff app.kind flux.kind)).0 both in
        if_cases P (app.namespace == "") _ _
          (λ wide.
            inl (target_id-eq app flux.kind flux.name "" k n ((eq_iff app.namespace "").0 wide)))
          (λ _.
            if_cases P (app.namespace == flux.namespace) _ _
              (λ same. inl (
                target_id-eq app flux.kind flux.name flux.namespace k n
                  ((eq_iff app.namespace flux.namespace).0 same)))
              (λ _. later)))
      (λ _. later)

pub match_resources-Hits :
    (entity : Entity) (rs : List ObjectTarget)
    → Hits entity.kind entity.name entity.namespace (map target_id rs) (match_resources entity rs)
unfolding match_resources
match_resources-Hits entity [] = tt
match_resources-Hits entity (r ∷ rs) =
    let P = Hits entity.kind entity.name entity.namespace (map target_id (r ∷ rs)) in
    if_cases P (r.name == entity.name && r.kind == entity.kind) _ _
      (λ both.
        let (n, k) = (and_iff _ _ (eq_iff r.name entity.name) (eq_iff r.kind entity.kind)).0 both in
        if_cases P (not (r.namespace == "")) _ _
          (λ _.
            if_cases P (r.namespace == entity.namespace) _ _
              (λ same. inl (
                target_id-eq r entity.kind entity.name entity.namespace k n
                  ((eq_iff r.namespace entity.namespace).0 same)))
              (λ _. tt))
          (λ wide.
            let bare : (r.namespace == "") ≡ true = ground arith in
            inl (target_id-eq r entity.kind entity.name "" k n ((eq_iff r.namespace "").0 bare))))
      (λ _.
        Hits-cons entity.kind entity.name entity.namespace (target_id r) (map target_id rs) _
          (match_resources-Hits entity rs))

-- The ids of a config's targets, as the webhook compares them.
pub elements-ids_of :
    (ts : Option (List ObjectTarget)) → map target_id (elements ts) ≡ elements (ids_of ts)
elements-ids_of none = refl
elements-ids_of (some ts) = refl

-- The id that the applications of a config have in common with the Flux application they hit.
abbrev pub app_key : Option FluxObject → Hit → String
app_key none hit = ""
app_key (some f) anywhere = id_in f.kind f.name ""
app_key (some f) _ = id_in f.kind f.name f.namespace

not_is_hit : (hit : Hit) → ¬ (is_hit no_hit hit ≡ true)
unfolding is_hit
not_is_hit no_hit e = cc
not_is_hit anywhere e = cc
not_is_hit in_namespace e = cc

app_hit-Hits :
    (f : FluxObject) (c : PolicyConfigCrd)
    → Hits f.kind f.name f.namespace (elements (ids_of c.match.applications)) (app_hit (some f) c)
unfolding app_hit
app_hit-Hits f c =
    subst (λ ids. Hits f.kind f.name f.namespace ids (match_apps f (elements c.match.applications)))
      (elements-ids_of c.match.applications) (match_apps-Hits f (elements c.match.applications))

pub app_hit-Member :
    (flux : Option FluxObject) (c : PolicyConfigCrd) (hit : Hit)
    → is_hit (app_hit flux c) hit ≡ true
    → hit ≢ no_hit
    → Member (app_key flux hit) (elements (ids_of c.match.applications))
unfolding app_hit
app_hit-Member none c hit e n = absurd (not_is_hit hit e)
app_hit-Member (some f) c no_hit e n = absurd (n refl)
app_hit-Member (some f) c anywhere e n =
    is_hit-Hits f.kind f.name f.namespace _ _ anywhere e (app_hit-Hits f c)
app_hit-Member (some f) c in_namespace e n =
    is_hit-Hits f.kind f.name f.namespace _ _ in_namespace e (app_hit-Hits f c)
