-- ===== src/Router/Paths.antt =====
-- librest/include/router.hpp: a path and its parts.
use http_cpp.Base.{
  ◌≡◌, refl, sym, ap, ◌∙◌, arith, ℕ, Text, List, [], ◌∷◌, ◌++◌, ◌==◌, ok, Bool-cases, inl, inr,
  split,
}
use http_cpp.Base.Order.{text_order}
use http_cpp.Base.TextLaws.{split-cons}
use http_cpp.HttpConstants.MethodOrder.{method_order}
use http_cpp.Router.{dispatch_split}

pub ok-injective : {a b : List Text} → ok a ≡ ok b → a ≡ b
ok-injective e = cc

-- `split` at a separator, undone.
abbrev glued : ℕ → List Text → Text
glued b [] = []
glued b (w ∷ []) = w
glued b (w ∷ v ∷ ws) = w ++ (b ∷ glued b (v ∷ ws))

glued-cons : (b c : ℕ) (w : Text) (ws : List Text) → glued b ((c ∷ w) ∷ ws) ≡ c ∷ glued b (w ∷ ws)
glued-cons b c w [] = refl
glued-cons b c w (v ∷ ws) = refl

glued-split : (b : ℕ) (s : Text) → glued b (split (λ d. d == b) s) ≡ s
unfolding split
glued-split b [] = refl
glued-split b (c ∷ s) =
    let (w, ws, e) = split-cons (λ d. d == b) s in
    let whole : glued b (w ∷ ws) ≡ s = ap (glued b) (sym e) ∙ glued-split b s in
    elim (Bool-cases (c == b)) [
      | inl slash ↦ rw (e, slash) (ground (arith, whole))
      | inr other ↦ rw (e, other) (glued-cons b c w ws ∙ ap (λ t. c ∷ t) whole)
    ]

abbrev pub slashed : List Text → Text
slashed parts = b'/' ∷ glued b'/' parts

-- A route is told by its parts.
pub dispatch_split-slashed :
    (s : Text) (parts : List Text) → dispatch_split s ≡ ok parts → s ≡ slashed parts
unfolding dispatch_split
dispatch_split-slashed [] parts e = cc
dispatch_split-slashed (c ∷ s) parts e = elim (Bool-cases (c == b'/')) [
  | inl slash ↦
      let same : ok (split (λ d. d == b'/') s) ≡ ok parts = rw slash at e in
      let whole : glued b'/' parts ≡ s =
        ap (glued b'/') (ok-injective (sym same)) ∙ glued-split b'/' s in
      ground (arith, whole)
  | inr other ↦ let refused = rw other at e in cc
]
