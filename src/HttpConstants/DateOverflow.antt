-- ===== src/HttpConstants/DateOverflow.antt =====
-- The buffer of `httptime` in libhttp-cpp/src/http_constants.cpp.
use http_cpp.Base.{
  ℕ, zero, suc, ◌+◌, ◌<◌, ◌≡◌, refl, arith, Text, List, ok, undefined, length, length-append, take,
  ltb, Bool-cases, inl, inr, length-to_string_one, length-to_string_two, length-to_string_four,
}
use http_cpp.HttpConstants.HttpDate.{
  Tm, table_at, wday_name, mon_name, pad_two, sprintf_date, httptime_text, httptime,
}

-- The ranges that the C standard gives the members, for a year of four digits.
pub record IsCalendar (t : Tm) : Type 0 where
  pub wday : t.tm_wday < 7
  pub mday : t.tm_mday < 32
  pub mon : t.tm_mon < 12
  pub year : t.tm_year < 8100
  pub hour : t.tm_hour < 24
  pub min : t.tm_min < 60
  pub sec : t.tm_sec < 61

length-pad_two : (fill n : ℕ) → n < 100 → length (pad_two fill n) ≡ 2
unfolding pad_two
length-pad_two fill n h = elim (Bool-cases (ltb n 10)) [
  | inl e ↦ rw e (omega (arith, length-to_string_one n (ground arith)))
  | inr e ↦ rw e (length-to_string_two n (ground arith) h)
]

NameOfThree : (names : List Text) → (i : ℕ) → Type 0
NameOfThree names i = (t : Text) × (table_at names i ≡ ok t) × (length (take 3 t) ≡ 3)

wday_of : (i : ℕ) → i < 7 → NameOfThree wday_name i
unfolding NameOfThree
wday_of zero h = (_, refl, refl)
wday_of (suc zero) h = (_, refl, refl)
wday_of (suc (suc zero)) h = (_, refl, refl)
wday_of (suc (suc (suc zero))) h = (_, refl, refl)
wday_of (suc (suc (suc (suc zero)))) h = (_, refl, refl)
wday_of (suc (suc (suc (suc (suc zero))))) h = (_, refl, refl)
wday_of (suc (suc (suc (suc (suc (suc zero)))))) h = (_, refl, refl)
wday_of (suc (suc (suc (suc (suc (suc (suc i))))))) h = absurd (omega arith)

mon_of : (i : ℕ) → i < 12 → NameOfThree mon_name i
unfolding NameOfThree
mon_of zero h = (_, refl, refl)
mon_of (suc zero) h = (_, refl, refl)
mon_of (suc (suc zero)) h = (_, refl, refl)
mon_of (suc (suc (suc zero))) h = (_, refl, refl)
mon_of (suc (suc (suc (suc zero)))) h = (_, refl, refl)
mon_of (suc (suc (suc (suc (suc zero))))) h = (_, refl, refl)
mon_of (suc (suc (suc (suc (suc (suc zero)))))) h = (_, refl, refl)
mon_of (suc (suc (suc (suc (suc (suc (suc zero))))))) h = (_, refl, refl)
mon_of (suc (suc (suc (suc (suc (suc (suc (suc zero)))))))) h = (_, refl, refl)
mon_of (suc (suc (suc (suc (suc (suc (suc (suc (suc zero))))))))) h = (_, refl, refl)
mon_of (suc (suc (suc (suc (suc (suc (suc (suc (suc (suc zero)))))))))) h = (_, refl, refl)
mon_of (suc (suc (suc (suc (suc (suc (suc (suc (suc (suc (suc zero))))))))))) h = (_, refl, refl)
mon_of (suc (suc (suc (suc (suc (suc (suc (suc (suc (suc (suc (suc i)))))))))))) h =
    absurd (omega arith)

length-sprintf_date :
    (t : Tm) (wday mon : Text)
    → IsCalendar t
    → length (take 3 wday) ≡ 3
    → length (take 3 mon) ≡ 3
    → length (sprintf_date t wday mon) ≡ 29
unfolding sprintf_date
length-sprintf_date t wday mon c w m = simp (
  length-append,
  length-pad_two 32 t.tm_mday (omega (arith, c.mday)),
  length-pad_two 48 t.tm_hour (omega (arith, c.hour)),
  length-pad_two 48 t.tm_min (omega (arith, c.min)),
  length-pad_two 48 t.tm_sec (omega (arith, c.sec)),
  length-to_string_four (1900 + t.tm_year) (omega arith) (omega (arith, c.year)),
  w,
  m,
)

-- For every date of the calendar in the years 1900 to 9999, `httptime` writes past the end of its
-- buffer: the 29 bytes of the text fill it, and the terminating zero does not fit.
pub httptime-overflow : (t : Tm) → IsCalendar t → httptime t ≡ undefined
unfolding httptime httptime_text NameOfThree
httptime-overflow t c =
    let (wday, wday_at, w) = wday_of t.tm_wday c.wday in
    let (mon, mon_at, m) = mon_of t.tm_mon c.mon in
    rw (wday_at, mon_at, length-sprintf_date t wday mon c w m) refl
