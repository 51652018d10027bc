-- ===== src/ZmqIdentity.antt =====
-- src/zmq_utility.hpp: how the identity of a connection is written to the log.
mod Tests
use http_cpp.Base.{
  ℕ, zero, suc, ◌+◌, ◌/◌, ◌%◌, Text, codes, [], ◌∷◌, ◌++◌, ltb, ◌==◌, if◌then◌else◌,
}

abbrev hex_digit : ℕ → ℕ
hex_digit n = if ltb n 10 then 48 + n else 87 + n

-- `std::setfill('0') << std::setw(2) << std::hex`, of a byte.
unfoldable print_byte : ℕ → Text
print_byte b = hex_digit (b / 16) ∷ hex_digit (b % 16) ∷ []

-- The loop from the byte with the number `i` on.
unfoldable print_from : ℕ → Text → Text
unfolding print_byte
print_from i [] = []
print_from i (b ∷ bytes) =
    print_byte b ++ (if i % 2 == 1 then codes ":" else []) ++ print_from (i + 1) bytes

-- `operator<<` of the first `length` bytes.
unfoldable print_identity : Text → Text
unfolding print_from
print_identity bytes = print_from 0 bytes
