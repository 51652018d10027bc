-- ===== src/HttpService/ExtractHostLaws.antt =====
-- The host that `http_service::extract_host` finds.
use http_cpp.Base.{
  ℕ, ◌≤◌, ◌≡◌, ◌≢◌, refl, append-nil, subst, ap, ◌∙◌, sym, arith, Text, codes, [], ◌∷◌, ◌++◌,
  Option, none, some, true, false, not, ok, throw, http_invalid_request, is_empty, is_digit, ltb,
  ◌==◌, All, to_string, to_string-AllDigits, to_string-ne-nil, decimal_value-to_string,
}
use http_cpp.Base.Order.{text_order}
use http_cpp.Base.StdMap.{find}
use http_cpp.Base.Regex.{
  many, seq, group, Captures, regex_match, match_from, no_captures, set_capture, read_between,
  at_end, backtrack,
}
use http_cpp.Base.Regex.Laws.{Stops, group_plus-append, match_many-All}
use http_cpp.HttpStructure.{HttpRequest}
use http_cpp.HttpService.ExtractHost.{
  host_byte, path_byte, port_part, query_part, absolute_uri_regex, absolute_path_regex, host_regex,
  read_port, extract_host, host_of_header,
}

-- A path is empty or begins with a slash.
abbrev pub IsRooted : Text → Type 0
IsRooted = Stops (λ c. not (c == b'/'))

-- An optional port as it is written, and as it counts.
abbrev pub port_text : Option ℕ → Text
port_text none = []
port_text (some port) = b':' ∷ to_string port

abbrev pub port_of : Option ℕ → ℕ
port_of none = 80
port_of (some port) = port

-- A port fits in 16 bits.
abbrev pub IsPort : Option ℕ → Type 0
IsPort none = Unit
IsPort (some port) = port ≤ 65535

-- The captures of an optional port.
abbrev port_captures : ℕ → ℕ → Option ℕ → Text → Captures → Captures
port_captures outer inner none rest caps = caps
port_captures outer inner (some port) rest caps =
    set_capture outer (read_between (58 ∷ (to_string port ++ rest)) rest)
      (set_capture inner (to_string port) caps)

Stops-digit : (rest : Text) → IsRooted rest → Stops is_digit rest
Stops-digit [] h = tt
Stops-digit (c ∷ rest) h = ground arith

port_part-append :
    (outer inner : ℕ) (port : Option ℕ) (rest : Text) (caps : Captures)
    (k : Text → Captures → Option Captures) (found : Captures)
    → IsRooted rest
    → k rest (port_captures outer inner port rest caps) ≡ some found
    → match_from (port_part outer inner) (port_text port ++ rest) caps k ≡ some found
unfolding match_from
port_part-append outer inner none [] caps k found h e = e
port_part-append outer inner none (c ∷ rest) caps k found h e =
    subst (λ d. match_from (port_part outer inner) (d ∷ rest) caps k ≡ some found) (sym slash)
      (ap (λ d. k (d ∷ rest) caps) (sym slash) ∙ e)
  where
    slash : c ≡ 47
    slash = ground (arith, h)
port_part-append outer inner (some port) rest caps k found h e =
    ap (λ m. backtrack m (k (58 ∷ (to_string port ++ rest)) caps))
      (group_plus-append inner is_digit (to_string port) rest caps
        (λ t found. k t (set_capture outer (read_between (58 ∷ (to_string port ++ rest)) t) found))
        found (to_string-ne-nil port) (to_string-AllDigits port) (Stops-digit rest h) e)

is_empty-to_string : (port : ℕ) → is_empty (to_string port) ≡ false
is_empty-to_string port = filled_of (to_string port) (to_string-ne-nil port)
  where
    filled_of : (s : Text) → s ≢ [] → is_empty s ≡ false
    filled_of [] filled = absurd (filled refl)
    filled_of (c ∷ s) filled = refl

read_port-to_string : (port : ℕ) → port ≤ 65535 → read_port (to_string port) ≡ port
unfolding read_port
read_port-to_string port h =
    rw (is_empty-to_string port, decimal_value-to_string port, fits, read_port) refl
  where
    fits : ltb 65535 port ≡ false
    fits = ground (arith, h)

-- The port of the match is the port that is written, or 80.
read_port-captures :
    (port : Option ℕ) (rest : Text) (caps : Captures)
    → IsPort port
    → caps 3 ≡ []
    → read_port (port_captures 2 3 port rest caps 3) ≡ port_of port
unfolding read_port
read_port-captures none rest caps h e = rw (e, read_port) refl
read_port-captures (some port) rest caps h e = read_port-to_string port h

abbrev uri_captures : Text → Option ℕ → Text → Captures
uri_captures name port path =
    set_capture 4 (read_between path [])
      (port_captures 2 3 port path (set_capture 1 name no_captures))

IsRooted-Stops : (path : Text) → IsRooted path → Stops host_byte path
IsRooted-Stops [] h = tt
IsRooted-Stops (c ∷ path) h = ground arith

port_text-Stops :
    (port : Option ℕ) (path : Text) → IsRooted path → Stops host_byte (port_text port ++ path)
port_text-Stops none path h = IsRooted-Stops path h
port_text-Stops (some port) path h = refl

match-absolute_uri :
    (name : Text) (port : Option ℕ) (path : Text)
    → name ≢ []
    → All (λ c. host_byte c ≡ true) name
    → IsRooted path
    → All (λ c. path_byte c ≡ true) path
    → regex_match absolute_uri_regex (codes "http://" ++ (name ++ (port_text port ++ path)))
      ≡ some (uri_captures name port path)
unfolding regex_match match_from
match-absolute_uri name port path filled a h p =
    let after_port = λ (t : Text) (caps : Captures).
      match_from (seq (group 4 (many path_byte)) (query_part 5 6)) t caps at_end in
    group_plus-append 1 host_byte name (port_text port ++ path) no_captures
      (λ t caps. match_from (port_part 2 3) t caps after_port) (uri_captures name port path) filled
      a (port_text-Stops port path h)
      (port_part-append 2 3 port path (set_capture 1 name no_captures) after_port
        (uri_captures name port path) h
        (match_many-All path_byte path _ (uri_captures name port path) p refl))

match-absolute_path :
    (path uri : Text)
    → All (λ c. path_byte c ≡ true) path
    → uri ≡ b'/' ∷ path
    → regex_match absolute_uri_regex uri ≡ none
      × (matches : Captures) × (regex_match absolute_path_regex uri ≡ some matches)
unfolding regex_match match_from
match-absolute_path path uri p e =
    rw e (refl, path_captures path, match_many-All path_byte path _ (path_captures path) p refl)
  where
    path_captures : Text → Captures
    path_captures path =
        set_capture 1 (read_between (b'/' ∷ path) [])
          (set_capture 2 (read_between path []) no_captures)

match-host :
    (name : Text) (port : Option ℕ)
    → name ≢ []
    → All (λ c. host_byte c ≡ true) name
    → regex_match host_regex (name ++ port_text port)
      ≡ some (port_captures 2 3 port [] (set_capture 1 name no_captures))
unfolding regex_match match_from
match-host name port filled a =
    let found = port_captures 2 3 port [] (set_capture 1 name no_captures) in
    subst (λ t. regex_match host_regex (name ++ t) ≡ some found) (append-nil (port_text port))
      (group_plus-append 1 host_byte name (port_text port ++ []) no_captures
        (λ t caps. match_from (port_part 2 3) t caps at_end) found filled a
        (port_text-Stops port [] tt)
        (port_part-append 2 3 port [] (set_capture 1 name no_captures) at_end found tt refl))

name-captures :
    (name : Text) (port : Option ℕ) (rest : Text)
    → port_captures 2 3 port rest (set_capture 1 name no_captures) 1 ≡ name
name-captures name none rest = refl
name-captures name (some port) rest = refl

-- A request for "http://name:port/path", or for one without a port, is for the host of that name
-- and port, or port 80, whatever its Host header says.
pub extract_host-absolute_uri :
    (name : Text) (port : Option ℕ) (path : Text) (request : HttpRequest)
    → name ≢ []
    → All (λ c. host_byte c ≡ true) name
    → IsPort port
    → IsRooted path
    → All (λ c. path_byte c ≡ true) path
    → request.request_uri ≡ codes "http://" ++ (name ++ (port_text port ++ path))
    → extract_host request ≡ ok (record { name = name; port = port_of port })
unfolding extract_host
extract_host-absolute_uri name port path request filled a small h p e =
    rw
      (
        e,
        extract_host,
        match-absolute_uri name port path filled a h p,
        name-captures name port path,
        read_port-captures port path (set_capture 1 name no_captures) small refl,
      )
      refl

-- A request for an absolute path is for the host of its Host header, "name:port" or "name".
pub extract_host-host_header :
    (name : Text) (port : Option ℕ) (path : Text) (request : HttpRequest)
    → name ≢ []
    → All (λ c. host_byte c ≡ true) name
    → IsPort port
    → All (λ c. path_byte c ≡ true) path
    → request.request_uri ≡ b'/' ∷ path
    → find (codes "Host") request.request_header ≡ some (name ++ port_text port)
    → extract_host request ≡ ok (record { name = name; port = port_of port })
unfolding extract_host host_of_header
extract_host-host_header name port path request filled a small p e header =
    let (no_uri, matches, is_path) = match-absolute_path path request.request_uri p e in
    rw
      (
        extract_host,
        no_uri,
        is_path,
        host_of_header,
        header,
        match-host name port filled a,
        name-captures name port [],
        read_port-captures port [] (set_capture 1 name no_captures) small refl,
      )
      refl

-- A request for an absolute path without a Host header is refused as an invalid request.
pub extract_host-missing_host :
    (path : Text) (request : HttpRequest)
    → All (λ c. path_byte c ≡ true) path
    → request.request_uri ≡ b'/' ∷ path
    → find (codes "Host") request.request_header ≡ none
    → extract_host request ≡ throw http_invalid_request
unfolding extract_host host_of_header
extract_host-missing_host path request p e missing =
    let (no_uri, matches, is_path) = match-absolute_path path request.request_uri p e in
    rw (extract_host, no_uri, is_path, host_of_header, missing) refl
