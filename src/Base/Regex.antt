-- ===== src/Base/Regex.antt =====
-- std::regex_match for the ECMAScript patterns that the program uses: classes of one byte, greedy
-- repetition of a class, options and numbered groups, matched by backtracking in the order of the
-- ECMAScript rules.
pub mod Laws
use http_cpp.Base.Tests.{◌==◌, if◌then◌else◌}
use http_cpp.Base.Texts.{Text, is_empty}
use http_cpp.Base.Lists.{length, take}
use Prim.Native.Nat.{ℕ, ◌-◌}
use mathlib.Core.Bool.{Bool, true, false}
use mathlib.Core.List.{[], ◌∷◌}
use mathlib.Core.Option.{Option, none, some}

pub data Regex : Type 0 where
  -- One byte of a class.
  one : (ℕ → Bool) → Regex
  -- "[…]*"
  many : (ℕ → Bool) → Regex
  seq : Regex → Regex → Regex
  -- "(…)?"
  opt : Regex → Regex
  -- The group with this number.
  group : ℕ → Regex → Regex

-- The text of each group. A group that took no part reads as the empty string.
abbrev pub Captures : Type 0
Captures = ℕ → Text

abbrev pub no_captures : Captures
no_captures n = []

abbrev pub set_capture : ℕ → Text → Captures → Captures
set_capture n t caps m = if m == n then t else caps m

-- The second way is tried where the first fails.
abbrev pub backtrack : Option Captures → Option Captures → Option Captures
backtrack (some caps) second = some caps
backtrack none second = second

unfoldable pub match_many : (ℕ → Bool) → Text → (Text → Option Captures) → Option Captures
match_many p [] k = k []
match_many p (c ∷ s) k = elim (p c) [
  | true ↦ backtrack (match_many p s k) (k (c ∷ s))
  | false ↦ k (c ∷ s)
]

abbrev pub match_one : (ℕ → Bool) → Text → (Text → Option Captures) → Option Captures
match_one p [] k = none
match_one p (c ∷ s) k = elim (p c) [ true ↦ k s | false ↦ none ]

-- What was read between two places of a text.
abbrev pub read_between : Text → Text → Text
read_between s rest = take (length s - length rest) s

unfoldable pub match_from :
    Regex → Text → Captures → (Text → Captures → Option Captures) → Option Captures
match_from (one p) s caps k = match_one p s (λ rest. k rest caps)
match_from (many p) s caps k = match_many p s (λ rest. k rest caps)
match_from (seq a b) s caps k = match_from a s caps (λ rest found. match_from b rest found k)
match_from (opt a) s caps k = backtrack (match_from a s caps k) (k s caps)
match_from (group n a) s caps k =
    match_from a s caps (λ rest found. k rest (set_capture n (read_between s rest) found))

abbrev pub at_end : Text → Captures → Option Captures
at_end rest caps = if is_empty rest then some caps else none

-- The whole text has to match.
unfoldable pub regex_match : Regex → Text → Option Captures
regex_match r s = match_from r s no_captures at_end

-- "[…]+"
abbrev pub plus : (ℕ → Bool) → Regex
plus p = seq (one p) (many p)

abbrev pub literal : ℕ → Regex
literal c = one (λ d. d == c)

-- ".": any byte but a line terminator.
abbrev pub any_byte : ℕ → Bool
any_byte c = if c == 10 then false else if c == 13 then false else true
