-- ===== src/Id.antt =====
-- internal/id/id.go: identifiers with a prefix. A text is the list of its bytes; `ulid.Parse` is a
-- parameter, the test whether it accepts a text.
pub mod Parsing
use croncontrol.Prelude.{
  ℕ, zero, suc, ◌-◌, Bool, true, false, Option, none, some, List, [], ◌∷◌, ◌++◌, if◌then◌else◌,
  ◌==◌, ◌&&◌, any, length, take,
}
use croncontrol.Store.{Bytes}

-- The prefixes, in the order of the constants.
abbrev pub four : ℕ → ℕ → ℕ → Bytes
four a b c = a ∷ b ∷ c ∷ b'_' ∷ []

-- `validPrefixes`.
abbrev pub valid_prefixes : List Bytes
valid_prefixes =
    four b'w' b's' b'p'
    ∷ four b'u' b's' b'r'
    ∷ four b'w' b'm' b'b'
    ∷ four b'w' b'r' b'k'
    ∷ four b'p' b'r' b'c'
    ∷ four b'r' b'u' b'n'
    ∷ four b'r' b'a' b't'
    ∷ four b'q' b'u' b'e'
    ∷ four b'j' b'o' b'b'
    ∷ four b'j' b'a' b't'
    ∷ four b'w' b'h' b's'
    ∷ four b'k' b'e' b'y'
    ∷ four b's' b's' b'h'
    ∷ four b's' b's' b'p'
    ∷ four b'k' b'8' b'c'
    ∷ []

abbrev pub same_bytes : Bytes → Bytes → Bool
same_bytes [] [] = true
same_bytes [] (d ∷ ds) = false
same_bytes (c ∷ cs) [] = false
same_bytes (c ∷ cs) (d ∷ ds) = (c == d) && same_bytes cs ds

-- `validPrefixes[prefix]`.
unfoldable pub is_valid_prefix : Bytes → Bool
is_valid_prefix p = any (same_bytes p) valid_prefixes

-- `strings.Index` for one byte; `none` is -1.
unfoldable pub index_of : ℕ → Bytes → Option ℕ
index_of c [] = none
index_of c (d ∷ ds) = let rest = index_of c ds in if d == c then some 0 else next rest
  where
    next : Option ℕ → Option ℕ
    next none = none
    next (some i) = some (suc i)

-- `s[n:]`.
abbrev pub drop : ℕ → Bytes → Bytes
drop zero cs = cs
drop (suc n) [] = []
drop (suc n) (c ∷ cs) = drop n cs

pub data ParseError : Type 0 where
  missing_separator unknown_prefix invalid_ulid : ParseError

-- The three results of `Parse`: an error, or the prefix and the rest.
pub data Parsed : Type 0 where
  failed : ParseError → Parsed
  parsed : Bytes → Bytes → Parsed

-- `New`, for the ULID that is drawn.
unfoldable pub new : Bytes → Bytes → Bytes
new prefix ulid = prefix ++ ulid

module _ (ulid_ok : Bytes → Bool) where
  check_parts : Bytes → Bytes → Parsed
  check_parts prefix raw =
      if is_valid_prefix prefix
      then if ulid_ok raw then parsed prefix raw else failed invalid_ulid
      else failed unknown_prefix

  -- `Parse`.
  unfoldable pub parse : Bytes → Parsed
  unfolding check_parts
  parse id = elim (index_of b'_' id) [
    | none ↦ failed missing_separator
    | some idx ↦
        if idx == length id - 1
        then failed missing_separator
        else check_parts (take (suc idx) id) (drop (suc idx) id)
  ]

  -- `IsValid`.
  unfoldable pub is_valid : Bytes → Bool
  is_valid id = elim (parse id) [ failed e ↦ false | parsed p r ↦ true ]
