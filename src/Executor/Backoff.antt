-- ===== src/Executor/Backoff.antt =====
-- `calculateBackoff` and `parseBackoffList` of internal/executor/orchestrator.go.
pub mod Delay
use croncontrol.Prelude.{
  ℕ, zero, suc, ◌+◌, ◌≤◌, ◌<◌, ◌≡◌, refl, ◌≢◌, ℤ, pos, negsuc, ◌+ℤ◌, ◌-ℤ◌, ◌≤ℤ◌, leb_ℤ, Bool, true,
  false, Option, none, some, List, [], ◌∷◌, ◌++◌, length, get_elem?, get_elem?-some_of_lt,
  if◌then◌else◌, ◌==◌, ◌||◌, ◌&&◌, leb, arith, int_laws, Bool-cases, inl, inr,
}
use croncontrol.Store.{Bytes}

-- `time.Minute`, in nanoseconds.
abbrev pub minute : ℤ
minute = pos 60000000000

-- An index into a Go slice; `none` is the panic on an index out of range.
unfoldable pub at_index : List ℤ → ℤ → Option ℤ
at_index xs (pos i) = get_elem? xs i
at_index xs (negsuc i) = none

-- The index that the code takes: the last one where the list is too short.
unfoldable pub backoff_index : ℤ → ℕ → ℤ
backoff_index attempt len =
    let idx = attempt -ℤ pos 1 in if leb_ℤ (pos len) idx then pos len -ℤ pos 1 else idx

-- `calculateBackoff`; `none` is a panic.
unfoldable pub calculate_backoff : ℤ → ℤ → List ℤ → Option ℤ
calculate_backoff from attempt [] = some (from +ℤ minute)
calculate_backoff from attempt (d ∷ ds) =
    elim (at_index (d ∷ ds) (backoff_index attempt (length (d ∷ ds)))) [
      | none ↦ none
      | some b ↦ some (from +ℤ b)
    ]

-- A byte for which `unicode.IsSpace` holds.
abbrev is_space : ℕ → Bool
is_space c = c == b' ' || (leb 9 c && leb c 13)

-- `strings.TrimSpace`, for a text of ASCII characters.
trim_left : Bytes → Bytes
trim_left [] = []
trim_left (c ∷ cs) = let rest = trim_left cs in if is_space c then rest else c ∷ cs

trim_right : Bytes → Bytes
trim_right [] = []
trim_right (c ∷ cs) = elim (trim_right cs) [
  | [] ↦ if is_space c then [] else c ∷ []
  | d ∷ ds ↦ c ∷ d ∷ ds
]

unfoldable pub trim_space : Bytes → Bytes
unfolding trim_left trim_right
trim_space s = trim_right (trim_left s)

-- `c` in front of the first piece.
abbrev onto_first : ℕ → List Bytes → List Bytes
onto_first c [] = (c ∷ []) ∷ []
onto_first c (p ∷ ps) = (c ∷ p) ∷ ps

-- `strings.Split(s, ",")`.
unfoldable pub split_commas : Bytes → List Bytes
split_commas [] = [] ∷ []
split_commas (c ∷ cs) =
    let rest = split_commas cs in if c == b',' then [] ∷ rest else onto_first c rest

module _ (parse_duration : Bytes → Option ℤ) where
  -- The loop of `parseBackoffList`: a part that does not parse is left out.
  unfoldable pub parse_parts : List Bytes → List ℤ
  parse_parts [] = []
  parse_parts (p ∷ ps) = elim (parse_duration (trim_space p)) [
    | none ↦ parse_parts ps
    | some d ↦ d ∷ parse_parts ps
  ]

  unfoldable pub parse_backoff_list : Option Bytes → List ℤ
  parse_backoff_list none = []
  parse_backoff_list (some s) = parse_parts (split_commas s)
