-- ===== src/Examples/Hashes.antt =====
-- Hashes that are combined.
use http_cpp.Base.{ℕ, ◌≡◌, ◌≢◌, ◌<◌, refl, arith, some, [], ◌∷◌}
use http_cpp.HttpService.Hash.{word_xor, size_max, stirred, mix, hash_combine}
use http_cpp.HttpService.Hash.Laws.{hash_combine-ne}

hash_combine-ne_example :
    (k : ℕ) × (hash_combine (80 ∷ 7 ∷ []) ≡ some k)
    × (k < size_max)
    × (hash_combine (80 ∷ 7 ∷ []) ≢ hash_combine (8080 ∷ 7 ∷ []))
hash_combine-ne_example =
    hash_combine-ne 80 8080 (7 ∷ []) (omega arith, (omega arith, (omega arith, tt)))
      (λ e. omega (arith, e))

-- 80 + 0x9e3779b9 + (7 << 6) + (7 >> 2) is 0x9e377bca, and 7 ^ 0x9e377bca is 0x9e377bcd.
combined : hash_combine (80 ∷ 7 ∷ []) ≡ some 2654436301
unfolding hash_combine mix stirred word_xor
combined = refl
