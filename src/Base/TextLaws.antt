-- ===== src/Base/TextLaws.antt =====
-- Laws of the text operations on texts whose parts are known.
use Prim.Native.Nat.{ℕ, ◌<◌}
use mathlib.Core.Path.{◌≡◌, refl, ap, ◌∙◌}
use mathlib.Core.Logic.{inl, inr}
use mathlib.Core.Bool.{Bool, true, false}
use mathlib.Core.List.{List, [], ◌∷◌, ◌++◌}
use mathlib.Core.Option.{none, some}
use native.Mathlib.Omega.{arith}
use http_cpp.Base.Tests.{◌==◌, Bool-cases, Option-cases}
use http_cpp.Base.Lists.{length, All}
use http_cpp.Base.Texts.{Text, find_byte, pop_back_if, split, getline}

-- No byte of the text is `b`.
abbrev pub Lacks : ℕ → Text → Type 0
Lacks b = All (λ c. (c == b) ≡ false)

pub Lacks-append : (b : ℕ) (s t : Text) → Lacks b s → Lacks b t → Lacks b (s ++ t)
Lacks-append b [] t h k = k
Lacks-append b (c ∷ s) t (p, h) k = (p, Lacks-append b s t h k)

pub getline-append :
    (line rest : Text) → Lacks 10 line → getline (line ++ 10 ∷ rest) ≡ some (line, some rest)
unfolding getline
getline-append [] rest h = refl
getline-append (c ∷ line) rest (p, h) = rw (p, getline-append line rest h)

pub find_byte-append : (b : ℕ) (s t : Text) → Lacks b s → find_byte b (s ++ b ∷ t) ≡ some (length s)
unfolding find_byte
find_byte-append b [] t h = ground arith
find_byte-append b (c ∷ s) t (p, h) = rw (p, find_byte-append b s t h)

pub find_byte-none : (b : ℕ) (s : Text) → Lacks b s → find_byte b s ≡ none
unfolding find_byte
find_byte-none b [] h = refl
find_byte-none b (c ∷ s) (p, h) = rw (p, find_byte-none b s h)

pub pop_back_if-append : (b : ℕ) (s : Text) → pop_back_if b (s ++ b ∷ []) ≡ s
unfolding pop_back_if
pop_back_if-append b [] = ground arith
pop_back_if-append b (c ∷ []) = ground arith
pop_back_if-append b (c ∷ d ∷ s) = rw (pop_back_if-append b (d ∷ s))

pub pop_back_if-other :
    (b c : ℕ) (s : Text) → (c == b) ≡ false → pop_back_if b (s ++ c ∷ []) ≡ s ++ c ∷ []
unfolding pop_back_if
pop_back_if-other b c [] e = rw e
pop_back_if-other b c (d ∷ []) e = rw e
pop_back_if-other b c (d ∷ f ∷ s) e = ap (λ t. d ∷ t) (pop_back_if-other b c (f ∷ s) e)

pub pop_back_if-Lacks : (b : ℕ) (s : Text) → Lacks b s → pop_back_if b s ≡ s
unfolding pop_back_if
pop_back_if-Lacks b [] h = refl
pop_back_if-Lacks b (c ∷ []) (p, h) = rw p
pop_back_if-Lacks b (c ∷ d ∷ s) (p, h) = ap (λ t. c ∷ t) (pop_back_if-Lacks b (d ∷ s) h)

-- No byte of the text is a separator.
abbrev pub Solid : (ℕ → Bool) → Text → Type 0
Solid p = All (λ c. p c ≡ false)

pub split-Solid : (p : ℕ → Bool) (s : Text) → Solid p s → split p s ≡ s ∷ []
unfolding split
split-Solid p [] h = refl
split-Solid p (c ∷ s) (e, h) = rw (split-Solid p s h, e)

pub split-cons : (p : ℕ → Bool) (s : Text) → (w : Text) × (ws : List Text) × (split p s ≡ w ∷ ws)
unfolding split
split-cons p [] = ([], [], refl)
split-cons p (c ∷ s) =
    let (w, ws, e) = split-cons p s in
    elim (Bool-cases (p c)) [
      | inl sep ↦ ([], w ∷ ws, rw (e, sep))
      | inr inside ↦ (c ∷ w, ws, rw (e, inside))
    ]

pub split-append :
    (p : ℕ → Bool) (s : Text) (b : ℕ) (t : Text)
    → Solid p s
    → p b ≡ true
    → split p (s ++ b ∷ t) ≡ s ∷ split p t
unfolding split
split-append p [] b t h e = let (w, ws, f) = split-cons p t in rw (f, e)
split-append p (c ∷ s) b t (q, h) e = rw (split-append p s b t h e, q)

pub length-getline :
    (s line rest : Text) → getline s ≡ some (line, some rest) → length rest < length s
unfolding getline
length-getline [] line rest e = cc
length-getline (c ∷ s) line rest e = elim (Option-cases (getline s)) [
  | inl ended ↦ ground arith
  | inr ((before, unread), more) ↦ elim (Option-cases unread) [
    | inl none_left ↦ ground arith
    | inr (behind, left) ↦ ground (arith, length-getline s before behind (more ∙ rw left))
  ]
]
