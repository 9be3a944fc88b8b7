-- ===== src/Worker/Labels.antt =====
-- internal/worker/dispatcher.go: `matchesWorkerLabels`.
use croncontrol.Prelude.{
  Bool, true, false, Option, none, some, List, [], ◌∷◌, String, if◌then◌else◌, ◌&&◌, ◌||◌, same,
  any,
}
use croncontrol.World.{Env}

-- Every label is among the available ones.
unfoldable pub has_labels : List String → List String → Bool
has_labels [] available = true
has_labels (label ∷ required) available =
    any (same label) available && has_labels required available

-- `m[key]`; a later entry does not count.
unfoldable pub lookup : String → List (String × String) → Option String
lookup key [] = none
lookup key ((k, v) ∷ rest) = let found = lookup key rest in if same k key then some v else found

-- `equalJSONValue`, of the texts that `json.Marshal` writes.
abbrev pub equal_json_value : Option String → String → Bool
equal_json_value none right = false
equal_json_value (some left) right = same left right

-- Every entry is among the worker's.
unfoldable pub has_entries : List (String × String) → List (String × String) → Bool
has_entries [] worker_map = true
has_entries ((key, value) ∷ required) worker_map =
    equal_json_value (lookup key worker_map) value && has_entries required worker_map

module _ (env : Env) where
  abbrev pub matches_map : String → String → Bool
  matches_map worker_labels required_labels = elim (env.decode_object required_labels) [
    | none ↦ false
    | some required ↦ elim (env.decode_object worker_labels) [
      | none ↦ false
      | some worker_map ↦ has_entries required worker_map
    ]
  ]

  -- `matchesWorkerLabels`.
  unfoldable pub matches_worker_labels : String → String → Bool
  matches_worker_labels worker_labels required_labels =
      if same required_labels "" || same required_labels "null"
      then true
      else elim (env.decode_strings required_labels) [
        | none ↦ matches_map worker_labels required_labels
        | some required ↦ elim (env.decode_strings worker_labels) [
          | none ↦ false
          | some available ↦ has_labels required available
        ]
      ]
