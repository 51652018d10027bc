-- ===== src/HttpService/Hash.antt =====
-- `std::hash_combine` of libhttp-cpp/include/http_service.hpp and src/http_website.hpp and the
-- std::hash of methods. Words have 64 bits.
pub mod Laws
use http_cpp.Base.{
  ℕ, zero, suc, ◌+◌, ◌*◌, ◌%◌, ◌/◌, ◌^◌, List, [], ◌∷◌, Option, none, some, ◌==◌, if◌then◌else◌,
}
use http_cpp.HttpConstants.{Method, method_code}

-- `^` of words of some bits.
unfoldable pub word_xor : ℕ → ℕ → ℕ → ℕ
word_xor zero a b = 0
word_xor (suc w) a b = (if a % 2 == b % 2 then 0 else 1) + 2 * word_xor w (a / 2) (b / 2)

abbrev pub size_max : ℕ
size_max = 2 ^ 64

-- What is put to the seed: `hash<T>()(t) + 0x9e3779b9 + (seed << 6) + (seed >> 2)`.
unfoldable pub stirred : ℕ → ℕ → ℕ
stirred seed h = (h + 2654435769 + (seed * 64) % size_max + seed / 4) % size_max

-- The hash of a first value and of those behind it.
unfoldable pub mix : ℕ → ℕ → ℕ
unfolding stirred
mix seed h = word_xor 64 seed (stirred seed h)

-- `hash_combine`, over the hashes of the values. That of no values has no definition.
unfoldable pub hash_combine : List ℕ → Option ℕ
unfolding mix
hash_combine [] = none
hash_combine (h ∷ []) = some h
hash_combine (h ∷ g ∷ hs) = elim (hash_combine (g ∷ hs)) [
  | none ↦ none
  | some seed ↦ some (mix seed h)
]

-- `hash<http_constants::method>`, over the hash of the underlying type.
unfoldable pub hash_method : (ℕ → ℕ) → Method → ℕ
hash_method hash_int x = hash_int (method_code x)
