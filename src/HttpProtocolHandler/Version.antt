-- ===== src/HttpProtocolHandler/Version.antt =====
-- The version that `extract_http_version` finds in a request.
use http_cpp.Base.{
  ℕ, suc, ◌+◌, ◌≡◌, refl, ap, ◌∙◌, arith, Text, [], ◌∷◌, ◌++◌, append_assoc, some, Option, false,
  ok, ◌==◌, is_empty, is_space, length, drop, getline, pop_back_if,
}
use http_cpp.Base.TextLaws.{Lacks, getline-append, find_byte-append, pop_back_if-append}
use http_cpp.HttpProtocolOneOne.{line_of}
use http_cpp.HttpProtocolHandler.{extract_http_version}
use http_cpp.HttpProtocolOneOne.RequestLine.{IsWord, request_line, request_line-Lacks}

not_blank : (c : ℕ) → is_space c ≡ false → (c == 32) ≡ false
not_blank c h = ground arith

IsWord-Lacks_blank : (s : Text) → IsWord s → Lacks 32 s
IsWord-Lacks_blank [] h = tt
IsWord-Lacks_blank (c ∷ s) (p, h) = (not_blank c p, IsWord-Lacks_blank s h)

suc_plus_one : (n : ℕ) → suc n + 1 ≡ suc (n + 1)
suc_plus_one n = omega arith

drop-behind_one : (s t : Text) (c : ℕ) → drop (length s + 1) (s ++ c ∷ t) ≡ t
drop-behind_one [] t c = refl
drop-behind_one (d ∷ s) t c = rw (suc_plus_one (length s)) (drop-behind_one s t c)

request_line-append : (m u v : Text) → request_line m u v ≡ (m ++ 32 ∷ (u ++ 32 ∷ v)) ++ 13 ∷ []
request_line-append m u v = simp append_assoc

request_line-filled : (m u v : Text) → is_empty (request_line m u v) ≡ false
request_line-filled [] u v = refl
request_line-filled (c ∷ m) u v = refl

module _ (m u v rest : Text) (hm : IsWord m) (hu : IsWord u) (hv : IsWord v) where
  first_line : getline (request_line m u v ++ 10 ∷ rest) ≡ some (request_line m u v, some rest)
  first_line = getline-append (request_line m u v) rest (request_line-Lacks m u v hm hu hv)

  bare_line :
      pop_back_if 13 (line_of (getline (request_line m u v ++ 10 ∷ rest))).0
      ≡ m ++ 32 ∷ (u ++ 32 ∷ v)
  bare_line =
      ap (λ (l : Option (Text × Option Text)). pop_back_if 13 (line_of l).0) first_line
      ∙ ap (pop_back_if 13) (request_line-append m u v)
      ∙ pop_back_if-append 13 (m ++ 32 ∷ (u ++ 32 ∷ v))

  -- In a request whose first line has three words, the version is the third word.
  pub extract_http_version-request_line :
      extract_http_version (request_line m u v ++ 10 ∷ rest) ≡ ok v
  unfolding extract_http_version
  extract_http_version-request_line =
      rw
        (
          bare_line,
          extract_http_version,
          ap (λ (l : Option (Text × Option Text)). is_empty (line_of l).0) first_line,
          request_line-filled m u v,
          find_byte-append 32 m (u ++ 32 ∷ v) (IsWord-Lacks_blank m hm),
          bare_line,
          drop-behind_one m (u ++ 32 ∷ v) 32,
          find_byte-append 32 u v (IsWord-Lacks_blank u hu),
          bare_line,
          drop-behind_one m (u ++ 32 ∷ v) 32,
          drop-behind_one u v 32,
        )
        refl
