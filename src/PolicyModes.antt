-- ===== src/PolicyModes.antt =====
-- api/v2beta2/policy_types.go: the modes of a policy, in its status and as labels.
use text.Mathlib.Text.{starts_with}
use text.Mathlib.TextPositions.{starts_with-append}
use policy_agent.Prelude.{
  String, Bool, true, List, [], ◌∷◌, map, none, some, Map, lookup, insert, lookup-insert, contains,
  ◌≡◌, refl, ap, ◌∙◌, inl, inr, Bool-cases, eq_iff, arith, if◌then◌else◌, ◌<>◌, contains_iff,
  Member,
}

-- `PolicyModeLabelPrefix`, with the group of groupversion_info.go.
abbrev pub policy_mode_label_prefix : String
policy_mode_label_prefix = "pac.weave.works/mode"

pub record PolicyStatus : Type 0 where
  pub modes : List String
  pub modes_string : String

-- `strings.Join(modes, "/")`.
unfoldable pub join_modes : List String → String
join_modes [] = ""
join_modes (m ∷ []) = m
join_modes (m ∷ n ∷ ms) = m <> "/" <> join_modes (n ∷ ms)

-- `SetModes`.
abbrev pub set_modes : List String → PolicyStatus → PolicyStatus
set_modes modes status = record { modes = modes; modes_string = join_modes modes }

unfoldable pub is_mode_label : String → Bool
is_mode_label label = starts_with label policy_mode_label_prefix

unfoldable pub mode_label : String → String
mode_label mode = policy_mode_label_prefix <> "." <> mode

-- The loop that removes the old labels.
unfoldable pub remove_modes : Map String → Map String
remove_modes [] = []
remove_modes ((label, value) ∷ labels) =
    let rest = remove_modes labels in if is_mode_label label then rest else (label, value) ∷ rest

-- The loop that sets the new labels.
unfoldable pub add_modes : List String → Map String → Map String
add_modes [] labels = labels
add_modes (mode ∷ modes) labels = add_modes modes (insert (mode_label mode) "" labels)

-- `SetModeLabels`; no labels are the empty map.
unfoldable pub set_mode_labels : List String → Map String → Map String
set_mode_labels modes labels = add_modes modes (remove_modes labels)

lookup-remove_modes :
    (asked : String) (labels : Map String)
    → lookup asked (remove_modes labels)
      ≡ (if is_mode_label asked then none else lookup asked labels)
unfolding lookup remove_modes
lookup-remove_modes asked [] = ground arith
lookup-remove_modes asked ((label, value) ∷ labels) =
    let rest = lookup-remove_modes asked labels in ground (arith, rest, eq_iff label asked)

lookup-add_modes :
    (asked : String) (modes : List String) (labels : Map String)
    → lookup asked (add_modes modes labels)
      ≡ (if contains asked (map mode_label modes) then some "" else lookup asked labels)
unfolding add_modes contains
lookup-add_modes asked [] labels = refl
lookup-add_modes asked (mode ∷ modes) labels =
    let rest = lookup-add_modes asked modes (insert (mode_label mode) "" labels) in
    ground (
      arith,
      rest,
      lookup-insert (mode_label mode) asked "" labels,
      eq_iff asked (mode_label mode),
      eq_iff (mode_label mode) asked,
    )

mode_label-is_mode_label : (mode : String) → is_mode_label (mode_label mode) ≡ true
unfolding is_mode_label mode_label
mode_label-is_mode_label mode = starts_with-append policy_mode_label_prefix ("." <> mode)

-- The labels after a call.
lookup-set_mode_labels :
    (asked : String) (modes : List String) (labels : Map String)
    → lookup asked (set_mode_labels modes labels) ≡ (
        if contains asked (map mode_label modes)
        then some ""
        else if is_mode_label asked
        then none
        else lookup asked labels)
unfolding set_mode_labels
lookup-set_mode_labels asked modes labels =
    lookup-add_modes asked modes (remove_modes labels)
    ∙ ap (λ o. if contains asked (map mode_label modes) then some "" else o)
        (lookup-remove_modes asked labels)

contains-is_mode_label :
    (asked : String) (modes : List String)
    → Member asked (map mode_label modes)
    → is_mode_label asked ≡ true
contains-is_mode_label asked [] m = absurd m
contains-is_mode_label asked (mode ∷ modes) (inl e) =
    ap is_mode_label e ∙ mode_label-is_mode_label mode
contains-is_mode_label asked (mode ∷ modes) (inr m) = contains-is_mode_label asked modes m

-- After `SetModeLabels` a label of one of the modes is there with the empty value, no other label with
-- the prefix is there, and every other label is as it was. So of two calls the last one decides.
pub set_mode_labels_lem :
    (asked : String) (modes old : List String) (labels : Map String)
    → (lookup asked (set_mode_labels modes labels) ≡ (
        if contains asked (map mode_label modes)
        then some ""
        else if is_mode_label asked
        then none
        else lookup asked labels))
      × (lookup asked (set_mode_labels modes (set_mode_labels old labels))
          ≡ lookup asked (set_mode_labels modes labels))
set_mode_labels_lem asked modes old labels = (
  lookup-set_mode_labels asked modes labels,
  elim (Bool-cases (contains asked (map mode_label old))) [
    | inl e ↦
        let label =
          contains-is_mode_label asked old ((contains_iff asked (map mode_label old)).0 e) in
        ground (
          arith,
          lookup-set_mode_labels asked modes labels,
          lookup-set_mode_labels asked modes (set_mode_labels old labels),
          label,
        )
    | inr e ↦ ground (
      arith,
      lookup-set_mode_labels asked modes labels,
      lookup-set_mode_labels asked modes (set_mode_labels old labels),
      lookup-set_mode_labels asked old labels,
    )
  ],
)
