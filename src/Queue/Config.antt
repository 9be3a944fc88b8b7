-- ===== src/Queue/Config.antt =====
-- internal/queue/job_config.go: the configuration that a job's method gets. A map is the list of its
-- entries.
use croncontrol.Prelude.{Option, none, some, List, [], ◌∷◌, String, if◌then◌else◌, ◌||◌, same}
use croncontrol.World.{Env}

-- `m[key] = value`.
unfoldable pub set_key : String → String → List (String × String) → List (String × String)
set_key key value [] = (key, value) ∷ []
set_key key value ((k, v) ∷ rest) =
    let changed = set_key key value rest in
    if same k key then (key, value) ∷ rest else (k, v) ∷ changed

-- An error leaves the nil map, which becomes the empty one.
abbrev pub or_empty_map : Option (List (String × String)) → List (String × String)
or_empty_map none = []
or_empty_map (some m) = m

module _ (env : Env) where
  -- The map that the text of the queue's configuration stands for.
  abbrev pub queue_config : String → List (String × String)
  queue_config text = if same text "" then [] else or_empty_map (env.decode_object text)

  abbrev pub with_payload : List (String × String) → Option String → List (String × String)
  with_payload m none = m
  with_payload m (some v) = set_key "payload" v m

  -- `BuildJobMethodConfig`.
  unfoldable pub build_job_method_config : String → String → List (String × String)
  build_job_method_config method_config payload =
      if same payload "" || same payload "null"
      then queue_config method_config
      else with_payload (queue_config method_config) (env.decode_value payload)
