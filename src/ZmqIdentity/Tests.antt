-- ===== src/ZmqIdentity/Tests.antt =====
-- A test of the printed identity.
use http_cpp.Base.{◌≡◌, refl, codes, ◌∷◌, []}
use http_cpp.ZmqIdentity.{print_identity}

print_identity_test : print_identity (0 ∷ 171 ∷ 16 ∷ []) ≡ codes "00ab:10"
unfolding print_identity
print_identity_test = refl
