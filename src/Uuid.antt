-- ===== src/Uuid.antt =====
-- pkg/uuid-go: identifiers with their encodings, over the package satori/go.uuid.
use policy_agent.Prelude.{
  String, Bool, true, false, List, [], ◌∷◌, Option, none, some, Result, ok, err, ◌>>=◌, ◌==◌,
  if◌then◌else◌,
}

-- What the file calls of satori/go.uuid: a value of a database column is `V`.
pub record Satori (V : Type 0) : Type 1 where
  pub Identifier : Type 0
  pub nil : Identifier
  pub same : Identifier → Identifier → Bool
  pub parse : String → Result Identifier
  pub print : Identifier → String
  pub value : Identifier → Result V
  pub scan : V → Result Identifier

module _ {V : Type 0} (satori : Satori V) where
  open satori use {Identifier, nil, same, parse, print, value, scan}

  -- `FromStringSlice`: the first text that is no identifier ends the loop.
  unfoldable pub from_string_slice : List String → Result (List Identifier)
  from_string_slice [] = ok []
  from_string_slice (raw ∷ raws) = do id ← parse raw; rest ← from_string_slice raws; ok (id ∷ rest)

  unfoldable pub is_nil : Identifier → Bool
  is_nil id = same id nil

  unfoldable pub get_bson : Identifier → String
  get_bson id = print id

  -- `SetBSON`: the identifier afterwards, and the error; `raw` is what `raw.Unmarshal` makes of the
  -- document.
  unfoldable pub set_bson : Result String → Identifier → Identifier × Result (Unit {0})
  set_bson (err e) id = (id, err e)
  set_bson (ok text) id =
      if text == ""
      then (nil, ok tt)
      else elim (parse text) [ err e ↦ (id, err e) | ok read ↦ (read, ok tt) ]

  -- `UnmarshalText`, where `read` is what the package makes of the text.
  unfoldable pub unmarshal_text : Result Identifier → Identifier → Identifier × Result (Unit {0})
  unmarshal_text (err e) id = (id, err e)
  unmarshal_text (ok read) id = (read, ok tt)

  pub record NullUuid : Type 0 where
    pub uuid : Identifier
    pub valid : Bool

  -- `NullUUID.Value`; a nil value is `none`.
  unfoldable pub null_value : NullUuid → Result (Option V)
  null_value n = if n.valid then (value n.uuid >>= λ v. ok (some v)) else ok none

  -- `NullUUID.Scan`: it is valid from before the value has been read.
  unfoldable pub null_scan : Option V → NullUuid → NullUuid × Result (Unit {0})
  null_scan none n = (record { uuid = nil; valid = false }, ok tt)
  null_scan (some v) n = elim (scan v) [
    | err e ↦ (record n { valid = true }, err e)
    | ok id ↦ (record { uuid = id; valid = true }, ok tt)
  ]
