-- ===== src/Base/Regex/Laws.antt =====
-- Greedy repetition takes all that it can where the rest then matches.
use Prim.Native.Nat.{ℕ}
use mathlib.Core.Path.{◌≡◌, refl, ap, ◌∙◌}
use mathlib.Core.Logic.{◌≢◌}
use mathlib.Core.Bool.{Bool, true, false}
use mathlib.Core.List.{[], ◌∷◌, ◌++◌}
use mathlib.Core.Option.{Option, some}
use native.Mathlib.Omega.{arith}
use http_cpp.Base.Texts.{Text}
use http_cpp.Base.Lists.{All, length-append, take, take-length-append}
use http_cpp.Base.Regex.{group, plus, match_many, match_from, Captures, read_between, set_capture}

-- The text does not begin with a byte of the class.
abbrev pub Stops : (ℕ → Bool) → Text → Type 0
Stops p [] = Unit
Stops p (c ∷ s) = p c ≡ false

pub match_many-append :
    (p : ℕ → Bool) (s rest : Text) (k : Text → Option Captures) (found : Captures)
    → All (λ c. p c ≡ true) s
    → Stops p rest
    → k rest ≡ some found
    → match_many p (s ++ rest) k ≡ some found
unfolding match_many
match_many-append p [] [] k found a h e = e
match_many-append p [] (c ∷ rest) k found a h e = rw h e
match_many-append p (c ∷ s) rest k found (here, a) h e =
    rw (here, match_many-append p s rest k found a h e)

-- What stands before the rest was read.
pub read_between-append : (s rest : Text) → read_between (s ++ rest) rest ≡ s
read_between-append s rest =
    ap (λ n. take n (s ++ rest)) (omega (arith, length-append s rest)) ∙ take-length-append s rest

-- Greedy repetition of a class, once at least.
pub plus-append :
    (p : ℕ → Bool) (s rest : Text) (caps : Captures) (k : Text → Captures → Option Captures)
    (found : Captures)
    → s ≢ []
    → All (λ c. p c ≡ true) s
    → Stops p rest
    → k rest caps ≡ some found
    → match_from (plus p) (s ++ rest) caps k ≡ some found
unfolding match_from
plus-append p [] rest caps k found filled a h e = absurd (filled refl)
plus-append p (c ∷ s) rest caps k found filled (here, a) h e =
    rw (here, match_from) (match_many-append p s rest (λ t. k t caps) found a h e)

-- The same in a group, which captures it.
pub group_plus-append :
    (n : ℕ) (p : ℕ → Bool) (s rest : Text) (caps : Captures) (k : Text → Captures → Option Captures)
    (found : Captures)
    → s ≢ []
    → All (λ c. p c ≡ true) s
    → Stops p rest
    → k rest (set_capture n s caps) ≡ some found
    → match_from (group n (plus p)) (s ++ rest) caps k ≡ some found
unfolding match_from
group_plus-append n p s rest caps k found filled a h e =
    plus-append p s rest caps (λ t found. k t (set_capture n (read_between (s ++ rest) t) found))
      found filled a h (rw (read_between-append s rest) e)

-- Repetition to the end of the text.
pub match_many-All :
    (p : ℕ → Bool) (s : Text) (k : Text → Option Captures) (found : Captures)
    → All (λ c. p c ≡ true) s
    → k [] ≡ some found
    → match_many p s k ≡ some found
unfolding match_many
match_many-All p [] k found a e = e
match_many-All p (c ∷ s) k found (here, a) e = rw (here, match_many, match_many-All p s k found a e)
