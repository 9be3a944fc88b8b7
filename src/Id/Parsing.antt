-- ===== src/Id/Parsing.antt =====
-- internal/id/id.go: `Parse` against `New`.
use croncontrol.Prelude.{
  ℕ, zero, suc, ◌+◌, ◌-◌, ◌≡◌, refl, sym, ap, ◌∙◌, ◌≢◌, ◌↔◌, Bool, true, false, some, List, [], ◌∷◌,
  ◌++◌, ◌==◌, any, length, take, All, Bool-cases, Option-cases, inl, inr, subst, arith,
}
use mathlib.Core.Bool.{false≢true}
use croncontrol.Store.{Bytes}
use croncontrol.Id.{
  four, valid_prefixes, same_bytes, is_valid_prefix, index_of, drop, parsed, new, check_parts,
  parse,
}

same_bytes-eq : (a b : Bytes) → same_bytes a b ≡ true → a ≡ b
same_bytes-eq [] [] h = refl
same_bytes-eq [] (d ∷ ds) h = absurd cc
same_bytes-eq (c ∷ cs) [] h = absurd cc
same_bytes-eq (c ∷ cs) (d ∷ ds) h =
    let e : c ≡ d = ground arith in
    let es : same_bytes cs ds ≡ true = ground arith in
    ap (λ x. x ∷ cs) e ∙ ap (λ xs. d ∷ xs) (same_bytes-eq cs ds es)

take-drop : (n : ℕ) (xs : Bytes) → take n xs ++ drop n xs ≡ xs
take-drop zero xs = refl
take-drop (suc n) [] = refl
take-drop (suc n) (x ∷ xs) = ap (λ ys. x ∷ ys) (take-drop n xs)

-- The separator is the fourth byte and no earlier one.
abbrev IsPrefix : Bytes → Type 0
IsPrefix p =
    (raw : Bytes)
    → (index_of b'_' (p ++ raw) ≡ some 3)
      × (take 4 (p ++ raw) ≡ p)
      × (drop 4 (p ++ raw) ≡ raw)
      × (length (p ++ raw) ≡ 4 + length raw)

four-IsPrefix :
    (a b c : ℕ)
    → (a == b'_') ≡ false
    → (b == b'_') ≡ false
    → (c == b'_') ≡ false
    → IsPrefix (four a b c)
unfolding index_of
four-IsPrefix a b c ha hb hc raw = (rw (ha, hb, hc) refl, refl, refl, omega arith)

All-IsPrefix : All IsPrefix valid_prefixes
All-IsPrefix = (
  four-IsPrefix _ _ _ refl refl refl,
  (
    four-IsPrefix _ _ _ refl refl refl,
    (
      four-IsPrefix _ _ _ refl refl refl,
      (
        four-IsPrefix _ _ _ refl refl refl,
        (
          four-IsPrefix _ _ _ refl refl refl,
          (
            four-IsPrefix _ _ _ refl refl refl,
            (
              four-IsPrefix _ _ _ refl refl refl,
              (
                four-IsPrefix _ _ _ refl refl refl,
                (
                  four-IsPrefix _ _ _ refl refl refl,
                  (
                    four-IsPrefix _ _ _ refl refl refl,
                    (
                      four-IsPrefix _ _ _ refl refl refl,
                      (
                        four-IsPrefix _ _ _ refl refl refl,
                        (
                          four-IsPrefix _ _ _ refl refl refl,
                          (
                            four-IsPrefix _ _ _ refl refl refl,
                            (four-IsPrefix _ _ _ refl refl refl, tt),
                          ),
                        ),
                      ),
                    ),
                  ),
                ),
              ),
            ),
          ),
        ),
      ),
    ),
  ),
)

find_all :
    (P : Bytes → Type 0) (p : Bytes) (xs : List Bytes)
    → any (same_bytes p) xs ≡ true
    → All P xs
    → P p
find_all P p [] h all = absurd cc
find_all P p (x ∷ xs) h all = elim (Bool-cases (same_bytes p x)) [
  | inl e ↦ subst P (sym (same_bytes-eq p x e)) all.0
  | inr e ↦ find_all P p xs (ground arith) all.1
]

module _ (ulid_ok : Bytes → Bool) where
  parse-new :
      (p raw : Bytes)
      → is_valid_prefix p ≡ true
      → raw ≢ []
      → ulid_ok raw ≡ true
      → parse ulid_ok (new p raw) ≡ parsed p raw
  unfolding parse new check_parts is_valid_prefix
  parse-new p [] valid full ok = absurd (full refl)
  parse-new p (c ∷ cs) valid full ok =
      let (at, front, back, len) = find_all IsPrefix p valid_prefixes valid All-IsPrefix (c ∷ cs) in
      let inner : (3 == length (p ++ c ∷ cs) - 1) ≡ false = ground (arith, len) in
      rw (at, parse) (rw inner (rw (front, back) (rw (valid, ok) refl)))

  check_parts_lem :
      (prefix rest p raw : Bytes)
      → check_parts ulid_ok prefix rest ≡ parsed p raw
      → (p ≡ prefix) × (raw ≡ rest) × (is_valid_prefix prefix ≡ true) × (ulid_ok rest ≡ true)
  unfolding check_parts
  check_parts_lem prefix rest p raw h = ground arith

  parse_lem :
      (id p raw : Bytes)
      → parse ulid_ok id ≡ parsed p raw
      → (new p raw ≡ id) × (is_valid_prefix p ≡ true) × (ulid_ok raw ≡ true)
  unfolding parse new
  parse_lem id p raw h = elim (Option-cases (index_of b'_' id)) [
    | inl e ↦ absurd (ground (arith, e, h))
    | inr (i, e) ↦ elim (Bool-cases (i == length id - 1)) [
      | inl last ↦ absurd (ground (arith, e, h, last))
      | inr more ↦
          let inner : check_parts ulid_ok (take (suc i) id) (drop (suc i) id) ≡ parsed p raw =
            ground (arith, e, h, more) in
          let (front, back, valid, ok) =
            check_parts_lem (take (suc i) id) (drop (suc i) id) p raw inner in
          (
            ap (λ x. x ++ raw) front ∙ ap (λ x. take (suc i) id ++ x) back ∙ take-drop (suc i) id,
            ap is_valid_prefix front ∙ valid,
            ap ulid_ok back ∙ ok,
          )
    ]
  ]

-- For a test of ULIDs that rejects the empty text, as that of the library does: a text parses into a
-- prefix and a rest exactly if it is what `New` makes of the two, the prefix is one of the valid ones,
-- and the rest is a ULID.
pub parse_iff :
    (ulid_ok : Bytes → Bool) (id p raw : Bytes)
    → ulid_ok [] ≡ false
    → (parse ulid_ok id ≡ parsed p raw)
      ↔ ((new p raw ≡ id) × (is_valid_prefix p ≡ true) × (ulid_ok raw ≡ true))
parse_iff ulid_ok id p raw empty = (
  parse_lem ulid_ok id p raw,
  λ h.
      let full : raw ≢ [] = λ e. false≢true (sym empty ∙ ap ulid_ok (sym e) ∙ h.2) in
      ap (parse ulid_ok) (sym h.0) ∙ parse-new ulid_ok p raw h.1 full h.2,
)
