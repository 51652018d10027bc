-- ===== src/HttpConstants/HttpDate.antt =====
-- `httptime` of libhttp-cpp/src/http_constants.cpp.
use http_cpp.Base.{
  ℕ, zero, suc, ◌+◌, ◌≡◌, refl, Text, codes, List, [], ◌∷◌, ◌++◌, Outcome, ok, undefined, ◌>>=◌,
  length, take, to_string, if◌then◌else◌, ltb, leb,
}

-- The members of `std::tm` that are read.
pub record Tm : Type 0 where
  pub tm_wday : ℕ
  pub tm_mday : ℕ
  pub tm_mon : ℕ
  pub tm_year : ℕ
  pub tm_hour : ℕ
  pub tm_min : ℕ
  pub tm_sec : ℕ

abbrev pub wday_name : List Text
wday_name =
    codes "Sun"
    ∷ codes "Mon"
    ∷ codes "Tue"
    ∷ codes "Wed"
    ∷ codes "Thu"
    ∷ codes "Fri"
    ∷ codes "Sat"
    ∷ []

abbrev pub mon_name : List Text
mon_name =
    codes "Jan"
    ∷ codes "Feb"
    ∷ codes "Mar"
    ∷ codes "Apr"
    ∷ codes "May"
    ∷ codes "Jun"
    ∷ codes "Jul"
    ∷ codes "Aug"
    ∷ codes "Sep"
    ∷ codes "Oct"
    ∷ codes "Nov"
    ∷ codes "Dec"
    ∷ []

-- Reading a table outside its bounds has no meaning.
abbrev pub table_at : List Text → ℕ → Outcome Text
table_at [] i = undefined
table_at (t ∷ ts) zero = ok t
table_at (t ∷ ts) (suc i) = table_at ts i

-- "%2d": at least two places, filled with a space; "%.2d": filled with a zero.
unfoldable pub pad_two : ℕ → ℕ → Text
pad_two fill n = if ltb n 10 then fill ∷ to_string n else to_string n

-- The conversions of the `sprintf`, after the names of the day and the month.
unfoldable pub sprintf_date : Tm → Text → Text → Text
unfolding pad_two
sprintf_date t wday mon =
    take 3 wday
    ++ codes ", "
    ++ pad_two 32 t.tm_mday
    ++ codes " "
    ++ take 3 mon
    ++ codes " "
    ++ to_string (1900 + t.tm_year)
    ++ codes " "
    ++ pad_two 48 t.tm_hour
    ++ codes ":"
    ++ pad_two 48 t.tm_min
    ++ codes ":"
    ++ pad_two 48 t.tm_sec
    ++ codes " GMT"

-- What `sprintf` writes before the terminating zero.
unfoldable pub httptime_text : Tm → Outcome Text
unfolding sprintf_date
httptime_text t = do
  wday ← table_at wday_name t.tm_wday
  mon ← table_at mon_name t.tm_mon
  ok (sprintf_date t wday mon)

-- `static char result[29]`
abbrev pub result_size : ℕ
result_size = 29

-- The text and its terminating zero must fit the buffer.
unfoldable pub httptime : Tm → Outcome Text
unfolding httptime_text
httptime t = do
  written ← httptime_text t
  if leb (length written + 1) result_size then ok written else undefined

sunday : Tm
sunday = record {
  tm_wday = 0;
  tm_mday = 6;
  tm_mon = 10;
  tm_year = 94;
  tm_hour = 8;
  tm_min = 49;
  tm_sec = 37;
}

httptime_text-sunday : httptime_text sunday ≡ ok (codes "Sun,  6 Nov 1994 08:49:37 GMT")
unfolding httptime_text sprintf_date sunday to_string
httptime_text-sunday = refl
