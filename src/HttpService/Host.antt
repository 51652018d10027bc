-- ===== src/HttpService/Host.antt =====
-- `http_service::host` of libhttp-cpp/include/http_service.h, http_service.hpp and
-- libhttp-cpp/src/http_service.cpp.
use http_cpp.Base.{
  ℕ, Text, codes, ◌++◌, Bool, true, false, not, ◌&&◌, ◌||◌, text_eq, to_string, ltb, ◌==◌,
}
use http_cpp.Base.Order.{text_cmp}
use Prim.Native.Nat.{Ordering}

pub record Host : Type 0 where
  pub name : Text
  pub port : ℕ

-- `match`
unfoldable pub host_match : Host → Text → Bool
host_match h host =
    let is_match = text_eq host h.name in
    let fullhost = h.name ++ codes ":" ++ to_string h.port in is_match || text_eq host fullhost

-- `operator==`
unfoldable pub host_eq : Host → Host → Bool
host_eq h other = h.port == other.port && text_eq h.name other.name

-- `operator!=`
unfoldable pub host_ne : Host → Host → Bool
host_ne h other = not (h.port == other.port) || not (text_eq h.name other.name)

-- `operator<` of std::string
unfoldable pub text_lt : Text → Text → Bool
text_lt s t = elim (text_cmp s t) [ Ordering.lt ↦ true | _ ↦ false ]

-- `operator<`
unfoldable pub host_lt : Host → Host → Bool
unfolding text_lt
host_lt h other = ltb h.port other.port || (h.port == other.port && text_lt h.name other.name)

-- `operator<<`
unfoldable pub print_host : Host → Text
print_host h = h.name ++ codes ":" ++ to_string h.port
