-- ===== src/Base/Order.antt =====
-- The orders of map keys: a three-way comparison with its laws, and its instances.
use Prim.Native.Nat.{ℕ, compare, Ordering}
use mathlib.Core.Path.{◌≡◌}
use mathlib.Core.Logic.{◌↔◌}
use mathlib.Core.List.{[], ◌∷◌}
use native.Mathlib.Omega.{arith}
use http_cpp.Base.Texts.{Text}

pub record Order {ℓ} (K : Type ℓ) : Type ℓ where
  pub cmp : K → K → Ordering
  pub cmp_eq : (a b : K) → (cmp a b ≡ Ordering.eq) ↔ (a ≡ b)
  pub cmp_gt : (a b : K) → cmp a b ≡ Ordering.gt → cmp b a ≡ Ordering.lt
  pub cmp_trans :
      (a b c : K) → cmp a b ≡ Ordering.lt → cmp b c ≡ Ordering.lt → cmp a c ≡ Ordering.lt

-- First by one comparison, then by another.
abbrev pub then_by : Ordering → Ordering → Ordering
then_by Ordering.lt o = Ordering.lt
then_by Ordering.gt o = Ordering.gt
then_by Ordering.eq o = o

-- `std::string::compare`: lexicographic in the bytes.
unfoldable pub text_cmp : Text → Text → Ordering
text_cmp [] [] = Ordering.eq
text_cmp [] (d ∷ t) = Ordering.lt
text_cmp (c ∷ s) [] = Ordering.gt
text_cmp (c ∷ s) (d ∷ t) = then_by (compare c d) (text_cmp s t)

pub text_cmp_eq : (s t : Text) → (text_cmp s t ≡ Ordering.eq) ↔ (s ≡ t)
unfolding text_cmp
text_cmp_eq [] [] = ground arith
text_cmp_eq [] (d ∷ t) = ground arith
text_cmp_eq (c ∷ s) [] = ground arith
text_cmp_eq (c ∷ s) (d ∷ t) = ground (arith, text_cmp_eq s t)

pub text_cmp_gt : (s t : Text) → text_cmp s t ≡ Ordering.gt → text_cmp t s ≡ Ordering.lt
unfolding text_cmp
text_cmp_gt [] [] = ground arith
text_cmp_gt [] (d ∷ t) = ground arith
text_cmp_gt (c ∷ s) [] = ground arith
text_cmp_gt (c ∷ s) (d ∷ t) = ground (arith, text_cmp_gt s t)

pub text_cmp_trans :
    (r s t : Text)
    → text_cmp r s ≡ Ordering.lt
    → text_cmp s t ≡ Ordering.lt
    → text_cmp r t ≡ Ordering.lt
unfolding text_cmp
text_cmp_trans [] [] t = ground arith
text_cmp_trans [] (c ∷ s) [] = ground arith
text_cmp_trans [] (c ∷ s) (d ∷ t) = ground arith
text_cmp_trans (b ∷ r) [] t = ground arith
text_cmp_trans (b ∷ r) (c ∷ s) [] = ground arith
text_cmp_trans (b ∷ r) (c ∷ s) (d ∷ t) = ground (arith, text_cmp_trans r s t)

instance abbrev pub text_order : Order Text
text_order = record {
  cmp = text_cmp;
  cmp_eq = text_cmp_eq;
  cmp_gt = text_cmp_gt;
  cmp_trans = text_cmp_trans;
}

-- Keys compared by a number that tells them apart.
module _ {ℓ} {K : Type ℓ} (key : K → ℕ) (key-injective : (a b : K) → key a ≡ key b → a ≡ b) where
  pub key_cmp_eq : (a b : K) → (compare (key a) (key b) ≡ Ordering.eq) ↔ (a ≡ b)
  key_cmp_eq a b = (λ e. key-injective a b (ground arith), λ e. rw e (ground arith))

  pub key_cmp_gt :
      (a b : K) → compare (key a) (key b) ≡ Ordering.gt → compare (key b) (key a) ≡ Ordering.lt
  key_cmp_gt a b e = ground arith

  pub key_cmp_trans :
      (a b c : K)
      → compare (key a) (key b) ≡ Ordering.lt
      → compare (key b) (key c) ≡ Ordering.lt
      → compare (key a) (key c) ≡ Ordering.lt
  key_cmp_trans a b c e f = ground arith

  abbrev pub order_by : Order K
  order_by = record {
    cmp = λ a b. compare (key a) (key b);
    cmp_eq = key_cmp_eq;
    cmp_gt = key_cmp_gt;
    cmp_trans = key_cmp_trans;
  }
