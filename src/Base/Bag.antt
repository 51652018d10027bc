-- ===== src/Base/Bag.antt =====
-- Lists that hold the same items, each as often, in any order.
use Prim.Native.Nat.{ℕ, ◌+◌, ◌<◌}
use mathlib.Core.Path.{◌≡◌, refl, sym, ap, subst}
use mathlib.Core.Logic.{ite, if_pos, if_neg}
use mathlib.Core.List.{List, [], ◌∷◌, ◌++◌, Perm, perm_middle}
use mathlib.Core.List.Perm
use native.Mathlib.Omega.{arith}

module _ {ℓ} {A : Type ℓ} where
  -- How much the items weigh together.
  abbrev pub total : (A → ℕ) → List A → ℕ
  total w [] = 0
  total w (x ∷ xs) = w x + total w xs

  pub total-append : (w : A → ℕ) (xs ys : List A) → total w (xs ++ ys) ≡ total w xs + total w ys
  total-append w [] ys = omega arith
  total-append w (x ∷ xs) ys = omega (arith, total-append w xs ys)

  abbrev pub SameItems : List A → List A → Type ℓ
  SameItems xs ys = (w : A → ℕ) → total w xs ≡ total w ys

module _ {ℓ} {A : Type ℓ} (d : Discrete A) where
  -- 1 for the item `x`, 0 for any other.
  abbrev only : A → A → ℕ
  only x y = ite (d x y) 1 0

  only_self : (x : A) → only x x ≡ 1
  only_self x = if_pos (d x x) refl 1 0

  split_at :
      (x : A) (ys : List A)
      → 0 < total (only x) ys
      → (us : List A) × (vs : List A) × (ys ≡ us ++ (x ∷ vs))
  split_at x [] h = absurd (omega arith)
  split_at x (y ∷ ys) h = elim (d x y) [
    | yes e ↦ ([], ys, ap (λ z. z ∷ ys) (sym e))
    | no n ↦
        let lower = if_neg {C = ℕ} (d x y) n 1 0 in
        let (us, vs, e) = split_at x ys (omega (arith, h, lower)) in
        (y ∷ us, vs, ap (λ zs. y ∷ zs) e)
  ]

  nothing_left : (ys : List A) → 0 ≡ total (λ y. 1) ys → [] ≡ ys
  nothing_left [] h = refl
  nothing_left (y ∷ ys) h = absurd (omega arith)

  -- Such lists are permutations of each other.
  pub perm_of_SameItems : (xs ys : List A) → SameItems xs ys → Perm xs ys
  perm_of_SameItems [] ys h = subst (Perm []) (nothing_left ys (h (λ y. 1))) Perm.nil
  perm_of_SameItems (x ∷ xs) ys h =
      let (us, vs, e) = split_at x ys (omega (arith, h (only x), only_self x)) in
      let rest : SameItems xs (us ++ vs) =
        λ w. omega (arith, h w, ap (total w) e, total-append w us (x ∷ vs), total-append w us vs) in
      subst (Perm (x ∷ xs)) (sym e) (
        Perm.trans (Perm.cons x (perm_of_SameItems xs (us ++ vs) rest))
          (Perm.symm (perm_middle us vs)))
