-- ===== src/Tests/Identifying.antt =====
-- Runs of the identifiers, and of the labels for modes.
use policy_agent.Prelude.{
  String, Bool, true, false, [], ◌∷◌, map, none, some, Result, ok, err, lookup, contains, ◌≡◌, refl,
  if◌then◌else◌, ◌==◌,
}
use policy_agent.PolicyModes.{set_mode_labels, set_mode_labels_lem, mode_label, is_mode_label}
use policy_agent.Uuid.{Satori, NullUuid, set_bson, from_string_slice, null_scan}

-- Identifiers by a Boolean, which is printed and read by its name.
abbrev print : Bool → String
print true = "one"
print false = "nil"

abbrev parse : String → Result Bool
parse text =
    if text == "one" then ok true else if text == "nil" then ok false else err "no identifier"

abbrev satori : Satori Bool
satori = record {
  Identifier = Bool;
  nil = false;
  same = λ a b. if a then b else if b then false else true;
  parse = parse;
  print = print;
  value = λ id. ok id;
  scan = λ v. ok v;
}

abbrev null_id : NullUuid satori
null_id = record { uuid = true; valid = false }

-- An empty text is the nil identifier, a text that is none leaves the one that is there, the first
-- one ends a list, and a null of a column is the nil identifier.
identifier_tests :
    (set_bson satori (ok "") true ≡ (false, ok tt))
    × (set_bson satori (ok "other") true ≡ (true, err "no identifier"))
    × (from_string_slice satori ("one" ∷ "other" ∷ []) ≡ err "no identifier")
    × (null_scan satori none null_id ≡ (record { uuid = false; valid = false }, ok tt))
unfolding set_bson from_string_slice null_scan
identifier_tests = (refl, refl, refl, refl)

set_mode_labels_lem_example :
    (lookup "app" (set_mode_labels ("audit" ∷ []) (("app", "web") ∷ [])) ≡ (
      if contains "app" (map mode_label ("audit" ∷ []))
      then some ""
      else if is_mode_label "app"
      then none
      else lookup "app" (("app", "web") ∷ [])))
    × (lookup "app" (
          set_mode_labels ("audit" ∷ []) (set_mode_labels ("admission" ∷ []) (("app", "web") ∷ [])))
        ≡ lookup "app" (set_mode_labels ("audit" ∷ []) (("app", "web") ∷ [])))
set_mode_labels_lem_example =
    set_mode_labels_lem "app" ("audit" ∷ []) ("admission" ∷ []) (("app", "web") ∷ [])
