-- ===== src/Router/Names.antt =====
-- The identifiers of dynamic parts.
use http_cpp.Base.{
  ℕ, ◌≡◌, arith, Text, [], ◌∷◌, Option, none, some, Bool, true, false, is_empty, ◌==◌, Bool-cases,
  Option-cases, inl, inr, suc, ◌-◌, length, ap, sym, ◌∙◌,
}
use mathlib.Core.Option.{some-injective}
use http_cpp.Base.Regex.{
  Captures, regex_match, match_from, match_many, at_end, no_captures, set_capture, read_between,
}
use http_cpp.Router.{dynamic_name, dynamic_route, name_start, name_byte}

match_many-some :
    (p : ℕ → Bool) (s : Text) (k : Text → Option Captures) (found : Captures)
    → match_many p s k ≡ some found
    → (rest : Text) × (k rest ≡ some found)
unfolding match_many
match_many-some p [] k found e = ([], e)
match_many-some p (c ∷ s) k found e = elim (Bool-cases (p c)) [
  | inl inside ↦ elim (Option-cases (match_many p s k)) [
    | inl failed ↦ (c ∷ s, ground arith)
    | inr (first, matched) ↦ match_many-some p s k found (ground arith)
  ]
  | inr outside ↦ (c ∷ s, ground arith)
]

-- The continuation behind the bytes of an identifier.
abbrev named : Text → Text → Option Captures
named s rest = at_end rest (set_capture 1 (read_between s rest) no_captures)

named-ne-nil :
    (d : ℕ) (s rest : Text) (m : Captures) → named (d ∷ s) rest ≡ some m → is_empty (m 1) ≡ false
named-ne-nil d s [] m e =
    let whole : length (d ∷ s) - 0 ≡ suc (length s) = omega arith in
    ap (λ caps. is_empty (caps 1)) (sym (some-injective _ _ e)) ∙ rw whole
named-ne-nil d s (c ∷ rest) m e = cc

matched-ne-nil :
    (c d : ℕ) (s : Text) (m : Captures)
    → regex_match dynamic_route (c ∷ d ∷ s) ≡ some m
    → is_empty (m 1) ≡ false
unfolding regex_match match_from
matched-ne-nil c d s m e =
    let steps : (elim (c == b':') [
      | true ↦ elim (name_start d) [ true ↦ match_many name_byte s (named (d ∷ s)) | false ↦ none ]
      | false ↦ none
    ])
        ≡ some m =
      e in
    elim (Bool-cases (c == b':')) [
      | inl colon ↦ elim (Bool-cases (name_start d)) [
        | inl start ↦
            let (rest, found) =
              match_many-some name_byte s (named (d ∷ s)) m (rw (colon, start) at steps) in
            named-ne-nil d s rest m found
        | inr other ↦ cc (rw (colon, other) at steps)
      ]
      | inr other ↦ cc (rw other at steps)
    ]

matched-ne-nil_short :
    (c : ℕ) (m : Captures) → regex_match dynamic_route (c ∷ []) ≡ some m → is_empty (m 1) ≡ false
unfolding regex_match match_from
matched-ne-nil_short c m e =
    let steps : (elim (c == b':') [ true ↦ none | false ↦ none ]) ≡ some m = e in
    elim (Bool-cases (c == b':')) [
      | inl colon ↦ cc (rw colon at steps)
      | inr other ↦ cc (rw other at steps)
    ]

no_match_nil : (m : Captures) → regex_match dynamic_route [] ≡ some m → is_empty (m 1) ≡ false
unfolding regex_match match_from
no_match_nil m e = cc

-- The identifier of a dynamic part is not empty.
pub dynamic_name-ne-nil :
    (route name : Text) → dynamic_name route ≡ some name → is_empty name ≡ false
unfolding dynamic_name
dynamic_name-ne-nil route name e = elim (Option-cases (regex_match dynamic_route route)) [
  | inl failed ↦ cc (rw (failed, dynamic_name) at e)
  | inr (m, matched) ↦
      rw (← some-injective _ _ (rw (matched, dynamic_name) at e)) (route_matched route m matched)
]
  where
    route_matched :
        (r : Text) (m : Captures) → regex_match dynamic_route r ≡ some m → is_empty (m 1) ≡ false
    route_matched [] m h = no_match_nil m h
    route_matched (c ∷ []) m h = matched-ne-nil_short c m h
    route_matched (c ∷ d ∷ s) m h = matched-ne-nil c d s m h
