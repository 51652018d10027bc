-- ===== src/Base/Decimal.antt =====
-- `std::to_string` and `operator<<` on unsigned numbers, and the decimal `operator>>`.
use Prim.Native.Nat.{ℕ, zero, suc, ◌+◌, ◌-◌, ◌*◌, ◌/◌, ◌%◌, ◌≤◌, ◌<◌}
use mathlib.Core.Path.{◌≡◌, refl, ap}
use mathlib.Core.Logic.{◌≢◌, inl, inr}
use mathlib.Core.Bool.{Bool, true, ◌&&◌}
use mathlib.Core.List.{[], ◌∷◌, ◌++◌}
use native.Mathlib.Omega.{arith}
use http_cpp.Base.Tests.{leb, ltb, if◌then◌else◌, Bool-cases}
use http_cpp.Base.Texts.{Text}
use http_cpp.Base.Lists.{length, length-append, All}

-- The digits of `n`, one for each unit of fuel at most.
decimal_from : ℕ → ℕ → Text
decimal_from zero n = []
decimal_from (suc fuel) n =
    let more = decimal_from fuel (n / 10) in
    if ltb n 10 then (48 + n) ∷ [] else more ++ (48 + n % 10) ∷ []

-- A number has fewer digits than its value plus two, so the fuel is enough.
unfoldable pub to_string : ℕ → Text
unfolding decimal_from
to_string n = decimal_from (suc n) n

abbrev pub is_digit : ℕ → Bool
is_digit c = leb 48 c && leb c 57

-- The value of a run of digits, after `acc`.
unfoldable pub decimal_value : ℕ → Text → ℕ
decimal_value acc [] = acc
decimal_value acc (c ∷ s) = decimal_value (acc * 10 + (c - 48)) s

decimal_value-append :
    (acc : ℕ) (s t : Text) → decimal_value acc (s ++ t) ≡ decimal_value (decimal_value acc s) t
unfolding decimal_value
decimal_value-append acc [] t = refl
decimal_value-append acc (c ∷ s) t = decimal_value-append (acc * 10 + (c - 48)) s t

decimal_value-decimal_from : (fuel n : ℕ) → n < fuel → decimal_value 0 (decimal_from fuel n) ≡ n
unfolding decimal_from
decimal_value-decimal_from zero n h = elim h [ ]
decimal_value-decimal_from (suc fuel) n h = elim (Bool-cases (ltb n 10)) [
  | inl small ↦ rw small (unfold decimal_value in omega arith)
  | inr big ↦
      rw (big, decimal_value-append)
        (rw (decimal_value-decimal_from fuel (n / 10) (ground arith))
          (unfold decimal_value in omega arith))
]

-- Reading back what was printed gives the number.
pub decimal_value-to_string : (n : ℕ) → decimal_value 0 (to_string n) ≡ n
unfolding to_string
decimal_value-to_string n = decimal_value-decimal_from (suc n) n (omega arith)

abbrev pub AllDigits : Text → Type 0
AllDigits = All (λ c. is_digit c ≡ true)

AllDigits-snoc : (s : Text) (c : ℕ) → AllDigits s → is_digit c ≡ true → AllDigits (s ++ c ∷ [])
AllDigits-snoc [] c _ p = (p, tt)
AllDigits-snoc (d ∷ s) c (q, h) p = (q, AllDigits-snoc s c h p)

decimal_from-AllDigits : (fuel n : ℕ) → AllDigits (decimal_from fuel n)
unfolding decimal_from
decimal_from-AllDigits zero n = tt
decimal_from-AllDigits (suc fuel) n = elim (Bool-cases (ltb n 10)) [
  | inl small ↦ rw small (ground arith, tt)
  | inr big ↦ rw big (AllDigits-snoc _ _ (decimal_from-AllDigits fuel (n / 10)) (ground arith))
]

pub to_string-AllDigits : (n : ℕ) → AllDigits (to_string n)
unfolding to_string
to_string-AllDigits n = decimal_from-AllDigits (suc n) n

pub to_string-ne-nil : (n : ℕ) → to_string n ≢ []
unfolding to_string
to_string-ne-nil n e = absurd (omega (arith, ap length e, digits_pos n))
  where
    digits_pos : (m : ℕ) → 0 < length (decimal_from (suc m) m)
    digits_pos m = elim (Bool-cases (ltb m 10)) [
      | inl small ↦ rw small (omega arith)
      | inr big ↦ rw (big, length-append) (omega arith)
    ]

-- The number of digits, up to four of them.
length-one : (fuel n : ℕ) → n < 10 → n < fuel → length (decimal_from fuel n) ≡ 1
unfolding decimal_from
length-one zero n small h = elim h [ ]
length-one (suc fuel) n small h = ground arith

length-more :
    (fuel n : ℕ)
    → 10 ≤ n
    → length (decimal_from (suc fuel) n) ≡ length (decimal_from fuel (n / 10)) + 1
unfolding decimal_from
length-more fuel n big = elim (Bool-cases (ltb n 10)) [
  | inl small ↦ ground arith
  | inr e ↦ rw (e, length-append)
]

length-two : (fuel n : ℕ) → 10 ≤ n → n < 100 → n < fuel → length (decimal_from fuel n) ≡ 2
length-two zero n big small h = elim h [ ]
length-two (suc fuel) n big small h =
    omega (arith, length-more fuel n big, length-one fuel (n / 10) (omega arith) (omega arith))

length-three : (fuel n : ℕ) → 100 ≤ n → n < 1000 → n < fuel → length (decimal_from fuel n) ≡ 3
length-three zero n big small h = elim h [ ]
length-three (suc fuel) n big small h = omega (
  arith,
  length-more fuel n (omega arith),
  length-two fuel (n / 10) (omega arith) (omega arith) (omega arith),
)

length-four : (fuel n : ℕ) → 1000 ≤ n → n < 10000 → n < fuel → length (decimal_from fuel n) ≡ 4
length-four zero n big small h = elim h [ ]
length-four (suc fuel) n big small h = omega (
  arith,
  length-more fuel n (omega arith),
  length-three fuel (n / 10) (omega arith) (omega arith) (omega arith),
)

pub length-to_string_one : (n : ℕ) → n < 10 → length (to_string n) ≡ 1
unfolding to_string
length-to_string_one n small = length-one (suc n) n small (omega arith)

pub length-to_string_two : (n : ℕ) → 10 ≤ n → n < 100 → length (to_string n) ≡ 2
unfolding to_string
length-to_string_two n big small = length-two (suc n) n big small (omega arith)

pub length-to_string_four : (n : ℕ) → 1000 ≤ n → n < 10000 → length (to_string n) ≡ 4
unfolding to_string
length-to_string_four n big small = length-four (suc n) n big small (omega arith)
