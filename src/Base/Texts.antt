-- ===== src/Base/Texts.antt =====
-- std::string as the list of its bytes, with the operations of the standard library and of
-- boost::algorithm that the program uses on it.
use Prim.Native.Nat.{ℕ, suc}
use Prim.Native.Char.{code}
use Prim.Native.String.{String}
use mathlib.Core.Path.{◌≡◌, refl}
use mathlib.Core.Logic.{◌↔◌}
use mathlib.Core.Bool.{Bool, true, false, ◌&&◌, ◌||◌}
use mathlib.Core.List.{List, [], ◌∷◌}
use mathlib.Core.Option
use mathlib.Core.Option.{Option, none, some}
use native.Mathlib.Omega.{arith}
use http_cpp.Base.Tests.{leb, ◌==◌, if◌then◌else◌}

abbrev pub Text : Type 0
Text = List ℕ

-- The bytes of an ASCII literal.
abbrev pub codes : String → Text
codes String.[] = []
codes (String.◌∷◌ c s) = code c ∷ codes s

unfoldable pub text_eq : Text → Text → Bool
text_eq [] [] = true
text_eq [] (d ∷ t) = false
text_eq (c ∷ s) [] = false
text_eq (c ∷ s) (d ∷ t) = c == d && text_eq s t

pub text_eq_iff : (s t : Text) → (text_eq s t ≡ true) ↔ (s ≡ t)
unfolding text_eq
text_eq_iff [] [] = ground arith
text_eq_iff [] (d ∷ t) = ground arith
text_eq_iff (c ∷ s) [] = ground arith
text_eq_iff (c ∷ s) (d ∷ t) = ground (arith, text_eq_iff s t)

pub text_eq_refl : (s : Text) → text_eq s s ≡ true
text_eq_refl s = (text_eq_iff s s).1 refl

-- `empty()`
abbrev pub is_empty : Text → Bool
is_empty [] = true
is_empty (c ∷ s) = false

-- Membership in one of the tables of literals, by `std::find`: the index of the first equal entry.
unfoldable pub find_index : Text → List Text → Option ℕ
find_index s [] = none
find_index s (t ∷ ts) = if text_eq t s then some 0 else Option.map suc (find_index s ts)

-- `s.back() == c` and `s.pop_back()`, joined as the program joins them.
unfoldable pub pop_back_if : ℕ → Text → Text
pop_back_if b [] = []
pop_back_if b (c ∷ []) = if c == b then [] else c ∷ []
pop_back_if b (c ∷ d ∷ s) = c ∷ pop_back_if b (d ∷ s)

-- `find_first_of` of one byte: its position.
unfoldable pub find_byte : ℕ → Text → Option ℕ
find_byte b [] = none
find_byte b (c ∷ s) = if c == b then some 0 else Option.map suc (find_byte b s)

-- `isspace` of the classic locale.
abbrev pub is_space : ℕ → Bool
is_space c = c == 32 || (leb 9 c && leb c 13)

-- What `boost::split` makes of a text, with adjacent separators not merged: never empty.
unfoldable pub split : (ℕ → Bool) → Text → List Text
split p [] = [] ∷ []
split p (c ∷ s) = elim (split p s) [
  | [] ↦ [] ∷ []
  | w ∷ ws ↦ if p c then [] ∷ w ∷ ws else (c ∷ w) ∷ ws
]

-- One `std::getline` on the unread bytes. `none`: nothing could be read, the fail bit is set.
-- Otherwise the line, and the bytes still unread, which are `none` once the end was met before a
-- newline: then the next read fails and `tellg` answers -1.
unfoldable pub getline : Text → Option (Text × Option Text)
getline [] = none
getline (c ∷ s) =
    if c == 10
    then some ([], some s)
    else elim (getline s) [ none ↦ some (c ∷ [], none) | some (line, rest) ↦ some (c ∷ line, rest) ]
