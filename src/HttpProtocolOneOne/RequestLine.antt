-- ===== src/HttpProtocolOneOne/RequestLine.antt =====
-- HTTP/1.1 requests as a whole: the request line, the headers and the body.
use http_cpp.Base.{
  ℕ, suc, ◌<◌, ◌≡◌, refl, arith, Text, codes, List, [], ◌∷◌, ◌++◌, none, some, false, ok, terminate,
  ◌>>=◌, noexcept, is_empty, is_space, ◌==◌, length, length-append, All, find_index, split,
  Option-cases, inl, inr,
}
use http_cpp.Base.TextLaws.{Lacks, Lacks-append, getline-append, Solid, split-append}
use http_cpp.Base.StdMap.{emplace}
use http_cpp.Base.Order.{text_order}
use http_cpp.Build.{Build}
use http_cpp.HttpConstants.{crlf, methods, general_headers, request_headers}
use http_cpp.HttpStructure.{HttpRequest, success, print_headers}
use http_cpp.HttpProtocolOneOne.{
  method_of_index, with_body, drop_empty_back, store_header, parse_headers, parse_rest, parse_parts,
  parse_request,
}
use http_cpp.HttpProtocolOneOne.Headers.{
  IsHeader, store_headers, parse_headers-print_headers, parse_headers-newline, parse_headers-crlf,
  parse_headers-bare,
}

-- Where a header belongs: with the general headers, the request headers, or else the entity's.
unfoldable pub fill_header : Text → Text → HttpRequest → HttpRequest
fill_header name value r = elim (find_index name general_headers) [
  | some i ↦ record r { general_header = emplace name value r.general_header }
  | none ↦ elim (find_index name request_headers) [
    | some i ↦ record r { request_header = emplace name value r.request_header }
    | none ↦ record r { entity_header = emplace name value r.entity_header }
  ]
]

unfoldable pub fill_headers : List (Text × Text) → HttpRequest → HttpRequest
fill_headers [] r = r
fill_headers ((name, value) ∷ headers) r = fill_headers headers (fill_header name value r)

-- A word of the request line.
abbrev pub IsWord : Text → Type 0
IsWord = Solid is_space

abbrev pub request_line : Text → Text → Text → Text
request_line m u v = m ++ 32 ∷ (u ++ 32 ∷ (v ++ 13 ∷ []))

-- The request as the request line fills it.
abbrev pub filled_line : ℕ → Text → Text → HttpRequest → HttpRequest
filled_line i u v r = record r { method = method_of_index i; request_uri = u; http_version = v }

not_newline : (c : ℕ) → is_space c ≡ false → (c == 10) ≡ false
not_newline c h = ground arith

IsWord-Lacks : (s : Text) → IsWord s → Lacks 10 s
IsWord-Lacks [] h = tt
IsWord-Lacks (c ∷ s) (p, h) = (not_newline c p, IsWord-Lacks s h)

pub request_line-Lacks :
    (m u v : Text) → IsWord m → IsWord u → IsWord v → Lacks 10 (request_line m u v)
request_line-Lacks m u v hm hu hv = Lacks-append 10 m _ (IsWord-Lacks m hm) (
  refl,
  Lacks-append 10 u _ (IsWord-Lacks u hu)
      (refl, Lacks-append 10 v (13 ∷ []) (IsWord-Lacks v hv) (refl, tt)),
)

request_line-split :
    (m u v : Text)
    → IsWord m
    → IsWord u
    → IsWord v
    → drop_empty_back (split is_space (request_line m u v)) ≡ m ∷ u ∷ v ∷ []
unfolding drop_empty_back split
request_line-split m u v hm hu hv = rw (
  split-append is_space m 32 (u ++ 32 ∷ (v ++ 13 ∷ [])) hm refl,
  split-append is_space u 32 (v ++ 13 ∷ []) hu refl,
  split-append is_space v 13 [] hv refl,
)

request_line-filled : (m u v rest : Text) → is_empty (request_line m u v ++ 10 ∷ rest) ≡ false
request_line-filled [] u v rest = refl
request_line-filled (c ∷ m) u v rest = refl

module _ (b : Build) where
  store_headers-fill_headers :
      (headers : List (Text × Text)) (r : HttpRequest)
      → b.entity_follows_request ≡ false
      → store_headers b headers r ≡ ok (fill_headers headers r)
  unfolding store_headers fill_headers store_header fill_header
  store_headers-fill_headers [] r e = refl
  store_headers-fill_headers ((k, v) ∷ headers) r e =
      elim (Option-cases (find_index k general_headers)) [
        | inr (i, g) ↦ rw (g, store_header, fill_header) (store_headers-fill_headers headers _ e)
        | inl g ↦ elim (Option-cases (find_index k request_headers)) [
          | inr (i, q) ↦
              rw (g, q, store_header, fill_header) (store_headers-fill_headers headers _ e)
          | inl q ↦ rw (g, q, e, store_header, fill_header) (store_headers-fill_headers headers _ e)
        ]
      ]

  -- The request line is read into the request, and the headers follow.
  parse_request-request_line :
      (m u v rest : Text) (i : ℕ) (r : HttpRequest)
      → IsWord m
      → IsWord u
      → IsWord v
      → find_index m methods ≡ some i
      → parse_request b (request_line m u v ++ 10 ∷ rest) r
        ≡ noexcept (
            parse_headers b
              (suc (length (request_line m u v ++ 10 ∷ rest)))
              (some rest)
              (filled_line i u v r)
            >>= λ read. ok (with_body read))
  unfolding parse_request parse_parts parse_rest
  parse_request-request_line m u v rest i r hm hu hv e =
      rw
        (
          request_line-filled m u v rest,
          getline-append (request_line m u v) rest (request_line-Lacks m u v hm hu hv),
          request_line-split m u v hm hu hv,
          parse_request,
          parse_parts,
          parse_rest,
          e,
        )
        refl

  fuel_left : (line rest : Text) → length rest < suc (length (line ++ 10 ∷ rest))
  fuel_left line rest = omega (arith, length-append line (10 ∷ rest))

  -- A request with a request line of three words and a known method, printed headers, a blank line
  -- of a bare newline and a body is read as it was written: each header in the map of its class,
  -- the first of equal names kept, and the whole body. It holds in builds where the entity headers
  -- do not stand directly behind the request headers.
  pub parse_request-newline :
      (m u v : Text) (i : ℕ) (headers : List (Text × Text)) (body : Text) (r : HttpRequest)
      → b.entity_follows_request ≡ false
      → IsWord m
      → IsWord u
      → IsWord v
      → find_index m methods ≡ some i
      → All IsHeader headers
      → parse_request b (request_line m u v ++ 10 ∷ (print_headers headers ++ 10 ∷ body)) r
        ≡ ok (success, record (fill_headers headers (filled_line i u v r)) { message_body = body })
  parse_request-newline m u v i headers body r f hm hu hv e h =
      let rest = print_headers headers ++ 10 ∷ body in
      let enough = fuel_left (request_line m u v) rest in
      rw
        (
          parse_request-request_line m u v rest i r hm hu hv e,
          parse_headers-newline b headers body (suc (length (request_line m u v ++ 10 ∷ rest)))
              (filled_line i u v r) h enough,
          store_headers-fill_headers headers (filled_line i u v r) f,
        )
        refl

  -- Where the blank line ends in a carriage return, as HTTP prescribes, the same request loses a
  -- body of one line without a colon: the request is accepted with an empty body. It holds in builds
  -- where the entity headers do not stand directly behind the request headers.
  pub parse_request-crlf :
      (m u v : Text) (i : ℕ) (headers : List (Text × Text)) (body : Text) (r : HttpRequest)
      → b.entity_follows_request ≡ false
      → IsWord m
      → IsWord u
      → IsWord v
      → find_index m methods ≡ some i
      → All IsHeader headers
      → Lacks b':' body
      → Lacks b'\n' body
      → parse_request b (request_line m u v ++ 10 ∷ (print_headers headers ++ (crlf ++ body))) r
        ≡ ok (success, record (fill_headers headers (filled_line i u v r)) { message_body = [] })
  parse_request-crlf m u v i headers body r f hm hu hv e h c n =
      let rest = print_headers headers ++ (crlf ++ body) in
      let enough = fuel_left (request_line m u v) rest in
      rw
        (
          parse_request-request_line m u v rest i r hm hu hv e,
          parse_headers-crlf b headers body (suc (length (request_line m u v ++ 10 ∷ rest)))
              (filled_line i u v r) h c n enough,
          store_headers-fill_headers headers (filled_line i u v r) f,
        )
        refl

  -- A header line with a name and nothing behind its colon, wherever it stands among printed
  -- headers, ends the process: `substr` throws in a function that is noexcept. It holds in builds
  -- where the entity headers do not stand directly behind the request headers.
  pub parse_request-bare :
      (m u v : Text) (i : ℕ) (headers : List (Text × Text)) (name more : Text) (r : HttpRequest)
      → b.entity_follows_request ≡ false
      → IsWord m
      → IsWord u
      → IsWord v
      → find_index m methods ≡ some i
      → All IsHeader headers
      → Lacks b':' name
      → Lacks b'\n' name
      → parse_request b
          (request_line m u v
            ++ 10 ∷ (print_headers headers ++ ((name ++ codes ":\r") ++ 10 ∷ more)))
          r
        ≡ terminate
  parse_request-bare m u v i headers name more r f hm hu hv e h c n =
      let tail = (name ++ codes ":\r") ++ 10 ∷ more in
      let rest = print_headers headers ++ tail in
      let enough = fuel_left (request_line m u v) rest in
      rw
        (
          parse_request-request_line m u v rest i r hm hu hv e,
          parse_headers-print_headers b headers tail
              (suc (length (request_line m u v ++ 10 ∷ rest))) (filled_line i u v r) h enough,
          store_headers-fill_headers headers (filled_line i u v r) f,
          parse_headers-bare b name more (suc (length tail))
              (fill_headers headers (filled_line i u v r)) c n (omega arith),
        )
        refl
