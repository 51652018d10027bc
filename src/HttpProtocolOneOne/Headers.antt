-- ===== src/HttpProtocolOneOne/Headers.antt =====
-- The header loop of the HTTP/1.1 parser.
use http_cpp.Base.{
  ℕ, zero, suc, ◌+◌, ◌<◌, ◌≡◌, refl, sym, ◌∙◌, arith, Text, codes, List, [], ◌∷◌, ◌++◌,
  append_assoc, none, some, true, false, Outcome, >>=-after, ok, throw, out_of_range, ◌>>=◌,
  is_empty, ltb, leb, length, length-append, drop, All, take-length-append, pop_back_if, getline,
  Option-cases, inl, inr, if◌then◌else◌,
}
use http_cpp.Base.TextLaws.{
  Lacks, Lacks-append, getline-append, find_byte-append, find_byte-none, pop_back_if-append,
  pop_back_if-other, length-getline,
}
use http_cpp.Build.{Build}
use http_cpp.HttpConstants.{crlf}
use http_cpp.HttpStructure.{HttpRequest, print_headers}
use http_cpp.HttpProtocolOneOne.{substr_from, store_header, parse_header_line, parse_headers}

-- A line ended by a carriage return is stored without it.
strip_carriage_return : (s : Text) → pop_back_if 13 (pop_back_if 10 (s ++ 13 ∷ [])) ≡ s
strip_carriage_return s = rw (pop_back_if-other 10 13 s refl, pop_back_if-append 13 s)

suc_plus_two : (n : ℕ) → suc n + 2 ≡ suc (n + 2)
suc_plus_two n = omega arith

-- Behind the colon, two bytes are skipped.
drop-behind : (name value : Text) → drop (length name + 2) (name ++ 58 ∷ 32 ∷ value) ≡ value
drop-behind [] value = refl
drop-behind (c ∷ name) value = rw (suc_plus_two (length name)) (drop-behind name value)

long_enough : (name value : Text) → leb (length name + 2) (length (name ++ 58 ∷ 32 ∷ value)) ≡ true
long_enough name value = ground (arith, length-append name (58 ∷ 32 ∷ value))

not_short : (name value : Text) → ltb (length (name ++ 58 ∷ 32 ∷ value)) 2 ≡ false
not_short name value = ground (arith, length-append name (58 ∷ 32 ∷ value))

past_the_end : (name : Text) → leb (length name + 2) (length (name ++ 58 ∷ [])) ≡ false
past_the_end name = ground (arith, length-append name (58 ∷ []))

bare_not_short : (name : Text) → ltb (length (name ++ 58 ∷ 13 ∷ [])) 2 ≡ false
bare_not_short name = ground (arith, length-append name (58 ∷ 13 ∷ []))

-- A header whose line is read back: no colon in its name, no newline in it.
abbrev pub IsHeader : Text × Text → Type 0
IsHeader (name, value) = Lacks b':' name × Lacks b'\n' name × Lacks b'\n' value

header_line-append :
    (k v m rest : Text)
    → (k ++ codes ": " ++ v ++ crlf ++ m) ++ rest
      ≡ (k ++ 58 ∷ 32 ∷ (v ++ 13 ∷ [])) ++ 10 ∷ (m ++ rest)
header_line-append k v m rest = simp append_assoc

header_line-Lacks :
    (k v : Text) → Lacks 10 k → Lacks 10 v → Lacks 10 (k ++ 58 ∷ 32 ∷ (v ++ 13 ∷ []))
header_line-Lacks k v h h' =
    Lacks-append 10 k (58 ∷ 32 ∷ (v ++ 13 ∷ [])) h
      (refl, (refl, Lacks-append 10 v (13 ∷ []) h' (refl, tt)))

header_line-filled : (k v : Text) → is_empty (k ++ 58 ∷ 32 ∷ (v ++ 13 ∷ [])) ≡ false
header_line-filled [] v = refl
header_line-filled (c ∷ k) v = refl

bare_filled : (name : Text) → is_empty (name ++ 58 ∷ 13 ∷ []) ≡ false
bare_filled [] = refl
bare_filled (c ∷ name) = refl

getline-Lacks : (c : ℕ) (s : Text) → Lacks 10 (c ∷ s) → getline (c ∷ s) ≡ some (c ∷ s, none)
unfolding getline
getline-Lacks c [] (p, h) = rw p
getline-Lacks c (d ∷ s) (p, h) = rw (p, getline-Lacks d s h)

module _ (b : Build) where
  parse_headers-none : (fuel : ℕ) (r : HttpRequest) → parse_headers b fuel none r ≡ ok (r, none)
  unfolding parse_headers
  parse_headers-none zero r = refl
  parse_headers-none (suc fuel) r = refl

  pub parse_headers-fuel :
      (fuel fuel' : ℕ) (s : Text) (r : HttpRequest)
      → length s < fuel
      → length s < fuel'
      → parse_headers b fuel (some s) r ≡ parse_headers b fuel' (some s) r
  unfolding parse_headers
  parse_headers-fuel zero fuel' s r h h' = elim h [ ]
  parse_headers-fuel (suc fuel) zero s r h h' = elim h' [ ]
  parse_headers-fuel (suc fuel) (suc fuel') s r h h' = elim (Option-cases (getline s)) [
    | inl e ↦ rw (e, parse_headers)
    | inr ((line, none), e) ↦
        rw (e, parse_headers)
          (λ i.
            if is_empty line
            then ok (r, none)
            else (parse_header_line b line r >>= λ filled.
                (parse_headers-none fuel filled ∙ sym (parse_headers-none fuel' filled)) i))
    | inr ((line, some rest), e) ↦
        let shorter = length-getline s line rest e in
        rw (e, parse_headers)
          (λ i.
            if is_empty line
            then ok (r, some rest)
            else (parse_header_line b line r >>= λ filled.
                parse_headers-fuel fuel fuel' rest filled (omega arith) (omega arith) i))
  ]

  -- A header line with nothing behind the colon but the carriage return makes `substr` throw.
  pub parse_header_line-bare :
      (name : Text) (r : HttpRequest)
      → Lacks b':' name
      → parse_header_line b (name ++ codes ":\r") r ≡ throw out_of_range
  unfolding parse_header_line substr_from
  parse_header_line-bare name r h =
      let stripped = strip_carriage_return (name ++ 58 ∷ []) in
      rw (
        find_byte-append 58 name (13 ∷ []) h,
        bare_not_short name,
        sym (append_assoc name (58 ∷ []) (13 ∷ [])),
        stripped,
        past_the_end name,
        parse_header_line,
      )

  -- A header line "name: value" is stored under its name with its value.
  pub parse_header_line-pair :
      (name value : Text) (r : HttpRequest)
      → Lacks b':' name
      → parse_header_line b (name ++ 58 ∷ 32 ∷ (value ++ 13 ∷ [])) r ≡ store_header b name value r
  unfolding parse_header_line substr_from
  parse_header_line-pair name value r h =
      let stripped = strip_carriage_return (name ++ 58 ∷ 32 ∷ value) in
      rw (
        find_byte-append 58 name (32 ∷ (value ++ 13 ∷ [])) h,
        not_short name (value ++ 13 ∷ []),
        sym (append_assoc name (58 ∷ 32 ∷ value) (13 ∷ [])),
        stripped,
        long_enough name value,
        drop-behind name value,
        take-length-append name (58 ∷ 32 ∷ value),
        parse_header_line,
      )

  parse_header_line-plain :
      (line : Text) (r : HttpRequest) → Lacks 58 line → parse_header_line b line r ≡ ok r
  unfolding parse_header_line
  parse_header_line-plain line r c = rw (find_byte-none 58 line c, parse_header_line)

  parse_headers-blank :
      (body : Text) (r : HttpRequest)
      → Lacks 58 body
      → Lacks 10 body
      → parse_headers b (suc (length (crlf ++ body))) (some (crlf ++ body)) r ≡ ok (r, none)
  unfolding parse_headers getline
  parse_headers-blank [] r c n = rw (parse_header_line-plain (13 ∷ []) r (refl, tt), parse_headers)
  parse_headers-blank (d ∷ body) r (c, cs) n = rw (
    getline-Lacks d body n,
    parse_header_line-plain (13 ∷ []) r (refl, tt),
    parse_header_line-plain (d ∷ body) r (c, cs),
    parse_headers,
  )

  -- What a header loop makes of the lines "name: value" in their order.
  unfoldable pub store_headers : List (Text × Text) → HttpRequest → Outcome HttpRequest
  store_headers [] r = ok r
  store_headers ((name, value) ∷ headers) r = do
    filled ← store_header b name value r
    store_headers headers filled

  -- Printed header lines are read as the pairs they print, each stored in its order, whatever
  -- follows them.
  pub parse_headers-print_headers :
      (headers : List (Text × Text)) (rest : Text) (fuel : ℕ) (r : HttpRequest)
      → All IsHeader headers
      → length (print_headers headers ++ rest) < fuel
      → parse_headers b fuel (some (print_headers headers ++ rest)) r ≡ (
          store_headers headers r >>= λ filled.
          parse_headers b (suc (length rest)) (some rest) filled)
  unfolding print_headers store_headers parse_headers
  parse_headers-print_headers [] rest fuel r h enough =
      parse_headers-fuel fuel (suc (length rest)) rest r enough (omega arith)
  parse_headers-print_headers ((k, v) ∷ headers) rest zero r h enough = elim enough [ ]
  parse_headers-print_headers ((k, v) ∷ headers) rest (suc fuel) r ((c, n, n'), h) enough =
      let line = k ++ 58 ∷ 32 ∷ (v ++ 13 ∷ []) in
      let more = print_headers headers ++ rest in
      let read = getline-append line more (header_line-Lacks k v n n') in
      let e = header_line-append k v (print_headers headers) rest in
      let shorter = length-getline (line ++ 10 ∷ more) line more read in
      let bounded = rw (e, print_headers) at enough in
      rw
        (
          e,
          read,
          header_line-filled k v,
          parse_header_line-pair k v r c,
          parse_headers,
          store_headers,
        )
        (>>=-after (store_header b k v r) _ (store_headers headers) _
          (λ filled. parse_headers-print_headers headers rest fuel filled h (omega arith)))

  -- A bare newline ends the headers: what stands behind it stays unread, as the body.
  pub parse_headers-newline :
      (headers : List (Text × Text)) (body : Text) (fuel : ℕ) (r : HttpRequest)
      → All IsHeader headers
      → length (print_headers headers ++ 10 ∷ body) < fuel
      → parse_headers b fuel (some (print_headers headers ++ 10 ∷ body)) r
        ≡ (store_headers headers r >>= λ filled. ok (filled, some body))
  unfolding parse_headers getline
  parse_headers-newline headers body fuel r h enough =
      parse_headers-print_headers headers (10 ∷ body) fuel r h enough

  -- The blank line that HTTP prescribes does not end them: the body behind it is read as further
  -- headers, and a line of it without a colon is lost.
  pub parse_headers-crlf :
      (headers : List (Text × Text)) (body : Text) (fuel : ℕ) (r : HttpRequest)
      → All IsHeader headers
      → Lacks b':' body
      → Lacks b'\n' body
      → length (print_headers headers ++ (crlf ++ body)) < fuel
      → parse_headers b fuel (some (print_headers headers ++ (crlf ++ body))) r
        ≡ (store_headers headers r >>= λ filled. ok (filled, none))
  parse_headers-crlf headers body fuel r h c n enough =
      parse_headers-print_headers headers (crlf ++ body) fuel r h enough
      ∙ (λ i. store_headers headers r >>= λ filled. parse_headers-blank body filled c n i)

  -- It is the same wherever the header loop meets it.
  pub parse_headers-bare :
      (name more : Text) (fuel : ℕ) (r : HttpRequest)
      → Lacks b':' name
      → Lacks b'\n' name
      → 0 < fuel
      → parse_headers b fuel (some ((name ++ codes ":\r") ++ 10 ∷ more)) r ≡ throw out_of_range
  unfolding parse_headers
  parse_headers-bare name more zero r c n enough = elim enough [ ]
  parse_headers-bare name more (suc fuel) r c n enough =
      let lacks = Lacks-append 10 name (58 ∷ 13 ∷ []) n (refl, (refl, tt)) in
      rw (
        getline-append (name ++ 58 ∷ 13 ∷ []) more lacks,
        bare_filled name,
        parse_header_line-bare name r c,
        parse_headers,
      )
