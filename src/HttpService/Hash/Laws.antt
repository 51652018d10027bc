-- ===== src/HttpService/Hash/Laws.antt =====
-- The words of `hash_combine`.
use http_cpp.Base.{ℕ, zero, suc, ◌/◌, ◌^◌, ◌<◌, ◌≡◌, ◌≢◌, refl, arith, List, [], ◌∷◌, some, All}
use http_cpp.HttpService.Hash.{word_xor, size_max, stirred, mix, hash_combine}

word_xor_lt : (w a b : ℕ) → word_xor w a b < 2 ^ w
unfolding word_xor
word_xor_lt zero a b = omega arith
word_xor_lt (suc w) a b = ground (arith, word_xor_lt w (a / 2) (b / 2))

-- A word is told by its exclusive or with another one.
word_xor-cancel : (w s a b : ℕ) → a < 2 ^ w → b < 2 ^ w → word_xor w s a ≡ word_xor w s b → a ≡ b
unfolding word_xor
word_xor-cancel zero s a b p q e = omega arith
word_xor-cancel (suc w) s a b p q e =
    let p' : a / 2 < 2 ^ w = omega arith in
    let q' : b / 2 < 2 ^ w = omega arith in
    let e' : word_xor w (s / 2) (a / 2) ≡ word_xor w (s / 2) (b / 2) = ground arith in
    let halves = word_xor-cancel w (s / 2) (a / 2) (b / 2) p' q' e' in ground arith

stirred_lt : (seed h : ℕ) → stirred seed h < 2 ^ 64
unfolding stirred
stirred_lt seed h = omega arith

some-injective : {h g : ℕ} → some h ≡ some g → h ≡ g
some-injective e = cc

stirred-cancel :
    (seed h g : ℕ) → h < size_max → g < size_max → stirred seed h ≡ stirred seed g → h ≡ g
unfolding stirred
stirred-cancel seed h g p q e = omega arith

mix-cancel : (seed h g : ℕ) → h < size_max → g < size_max → mix seed h ≡ mix seed g → h ≡ g
unfolding mix
mix-cancel seed h g p q e = stirred-cancel seed h g p q (
    word_xor-cancel 64 seed (stirred seed h) (stirred seed g) (stirred_lt seed h)
      (stirred_lt seed g) e)

hash_combine_lt :
    (h : ℕ) (hs : List ℕ)
    → All (λ g. g < size_max) (h ∷ hs)
    → (k : ℕ) × (hash_combine (h ∷ hs) ≡ some k) × (k < size_max)
unfolding hash_combine mix
hash_combine_lt h [] (p, ps) = (h, refl, p)
hash_combine_lt h (g ∷ hs) (p, ps) =
    let (seed, e, _) = hash_combine_lt g hs ps in
    (mix seed h, rw e refl, word_xor_lt 64 seed (stirred seed h))

hash_combine-cancel :
    (h g : ℕ) (hs : List ℕ)
    → All (λ k. k < size_max) (h ∷ g ∷ hs)
    → hash_combine (h ∷ hs) ≡ hash_combine (g ∷ hs)
    → h ≡ g
unfolding hash_combine
hash_combine-cancel h g [] (p, (q, ps)) e = some-injective e
hash_combine-cancel h g (k ∷ hs) (p, (q, ps)) e =
    let (seed, known, _) = hash_combine_lt k hs ps in
    let same : some (mix seed h) ≡ some (mix seed g) = rw known at e in
    mix-cancel seed h g p q (some-injective same)

-- The hash of values whose own hashes are words of 64 bits is such a word, and values that differ in
-- the hash of the first one alone are told apart by it.
pub hash_combine-ne :
    (h g : ℕ) (hs : List ℕ)
    → All (λ k. k < size_max) (h ∷ g ∷ hs)
    → h ≢ g
    → (k : ℕ) × (hash_combine (h ∷ hs) ≡ some k)
      × (k < size_max)
      × (hash_combine (h ∷ hs) ≢ hash_combine (g ∷ hs))
hash_combine-ne h g hs (p, (q, ps)) differ =
    let (k, e, small) = hash_combine_lt h hs (p, ps) in
    (k, e, small, λ same. differ (hash_combine-cancel h g hs (p, (q, ps)) same))
