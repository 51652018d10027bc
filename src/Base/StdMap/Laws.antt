-- ===== src/Base/StdMap/Laws.antt =====
-- Lookup after the writes of a std::map, and the order of its keys.
use Prim.Native.Nat.{Ordering}
use mathlib.Core.Path.{◌≡◌, refl}
use mathlib.Core.Logic.{◌≢◌, inl, inr}
use mathlib.Core.List.{[], ◌∷◌}
use mathlib.Core.Option.{Option, none, some}
use native.Mathlib.Omega.{arith}
use http_cpp.Base.Order.{Order}
use http_cpp.Base.Tests.{Ordering-cases}
use http_cpp.Base.StdMap.{StdMap, find, emplace, assign, insert_all, assign_all}

-- The value of a second lookup where the first finds nothing.
abbrev pub or_else {ℓ} : {A : Type ℓ} → Option A → Option A → Option A
or_else (some a) d = some a
or_else none d = d

abbrev pub if_eq {ℓ} : {A : Type ℓ} → Ordering → A → A → A
if_eq Ordering.eq x y = x
if_eq Ordering.lt x y = y
if_eq Ordering.gt x y = y

pub cmp_refl {ℓ} : {K : Type ℓ} ⦃o : Order K⦄ (k : K) → o.cmp k k ≡ Ordering.eq
cmp_refl ⦃o⦄ k = (o.cmp_eq k k).1 refl

module _ {ℓ κ} {K : Type ℓ} {V : Type κ} ⦃o : Order K⦄ where
  -- Every key of the map is greater than `k`.
  abbrev pub Below : K → StdMap K V → Type 0
  Below k [] = Unit
  Below k ((j, w) ∷ m) = (o.cmp k j ≡ Ordering.lt) × Below k m

  abbrev pub IsSorted : StdMap K V → Type 0
  IsSorted [] = Unit
  IsSorted ((k, v) ∷ m) = Below k m × IsSorted m

  pub find-assign :
      (j k : K) (v : V) (m : StdMap K V)
      → find j (assign k v m) ≡ if_eq (o.cmp j k) (some v) (find j m)
  unfolding find assign
  find-assign j k v [] = ground arith
  find-assign j k v ((i, w) ∷ m) =
      ground (arith, find-assign j k v m, o.cmp_eq k i, o.cmp_eq j k, o.cmp_eq j i)

  Below-trans : (k i : K) (m : StdMap K V) → o.cmp k i ≡ Ordering.lt → Below i m → Below k m
  Below-trans k i [] l b = tt
  Below-trans k i ((j, w) ∷ m) l (b, bs) = (o.cmp_trans k i j l b, Below-trans k i m l bs)

  find_of_Below : (k : K) (m : StdMap K V) → Below k m → find k m ≡ none
  unfolding find
  find_of_Below k [] b = refl
  find_of_Below k ((j, w) ∷ m) (b, bs) = ground (arith, find_of_Below k m bs)

  -- What stands at another key, in any map.
  pub find-emplace_ne :
      (j k : K) (v : V) (m : StdMap K V) → j ≢ k → find j (emplace k v m) ≡ find j m
  unfolding find emplace
  find-emplace_ne j k v [] h = ground (arith, o.cmp_eq j k)
  find-emplace_ne j k v ((i, w) ∷ m) h =
      ground (arith, find-emplace_ne j k v m h, o.cmp_eq k i, o.cmp_eq j k, o.cmp_eq j i)

  pub find-emplace :
      (j k : K) (v : V) (m : StdMap K V)
      → IsSorted m
      → find j (emplace k v m) ≡ or_else (find j m) (if_eq (o.cmp j k) (some v) none)
  unfolding find emplace
  find-emplace j k v [] s = ground arith
  find-emplace j k v ((i, w) ∷ m) (b, s) = elim (Ordering-cases (o.cmp k i)) [
    | inl lt ↦ ground (
      arith,
      find_of_Below k m (Below-trans k i m lt b),
      o.cmp_eq j k,
      o.cmp_eq j i,
      o.cmp_eq k i,
    )
    | inr (inl eq) ↦ ground (arith, o.cmp_eq j k, o.cmp_eq j i, o.cmp_eq k i)
    | inr (inr gt) ↦
        ground (arith, find-emplace j k v m s, o.cmp_eq j k, o.cmp_eq j i, o.cmp_eq k i)
  ]

  Below-emplace :
      (i k : K) (v : V) (m : StdMap K V)
      → o.cmp i k ≡ Ordering.lt
      → Below i m
      → Below i (emplace k v m)
  unfolding emplace
  Below-emplace i k v [] l b = (l, tt)
  Below-emplace i k v ((j, w) ∷ m) l (b, bs) = ground (arith, Below-emplace i k v m l bs)

  pub emplace-IsSorted : (k : K) (v : V) (m : StdMap K V) → IsSorted m → IsSorted (emplace k v m)
  unfolding emplace
  emplace-IsSorted k v [] s = (tt, tt)
  emplace-IsSorted k v ((j, w) ∷ m) (b, s) = elim (Ordering-cases (o.cmp k j)) [
    | inl lt ↦ rw (lt, emplace) ((lt, Below-trans k j m lt b), (b, s))
    | inr (inl eq) ↦ rw (eq, emplace) (b, s)
    | inr (inr gt) ↦
        rw (gt, emplace) (Below-emplace j k v m (o.cmp_gt k j gt) b, emplace-IsSorted k v m s)
  ]

  Below-assign :
      (i k : K) (v : V) (m : StdMap K V)
      → o.cmp i k ≡ Ordering.lt
      → Below i m
      → Below i (assign k v m)
  unfolding assign
  Below-assign i k v [] l b = (l, tt)
  Below-assign i k v ((j, w) ∷ m) l (b, bs) = ground (arith, Below-assign i k v m l bs)

  pub assign-IsSorted : (k : K) (v : V) (m : StdMap K V) → IsSorted m → IsSorted (assign k v m)
  unfolding assign
  assign-IsSorted k v [] s = (tt, tt)
  assign-IsSorted k v ((j, w) ∷ m) (b, s) = elim (Ordering-cases (o.cmp k j)) [
    | inl lt ↦ rw (lt, assign) ((lt, Below-trans k j m lt b), (b, s))
    | inr (inl eq) ↦ rw (eq, assign) (b, s)
    | inr (inr gt) ↦
        rw (gt, assign) (Below-assign j k v m (o.cmp_gt k j gt) b, assign-IsSorted k v m s)
  ]

  pub insert_all-IsSorted : (from m : StdMap K V) → IsSorted m → IsSorted (insert_all from m)
  unfolding insert_all
  insert_all-IsSorted [] m s = s
  insert_all-IsSorted ((k, v) ∷ from) m s =
      insert_all-IsSorted from (emplace k v m) (emplace-IsSorted k v m s)

  -- Inserting a map keeps what is there, and adds the rest.
  pub find-insert_all :
      (j : K) (from m : StdMap K V)
      → IsSorted m
      → find j (insert_all from m) ≡ or_else (find j m) (find j from)
  unfolding insert_all find
  find-insert_all j [] m s = ground arith
  find-insert_all j ((k, v) ∷ from) m s = ground (
    arith,
    find-insert_all j from (emplace k v m) (emplace-IsSorted k v m s),
    find-emplace j k v m s,
  )

  pub assign_all-IsSorted : (from m : StdMap K V) → IsSorted m → IsSorted (assign_all from m)
  unfolding assign_all
  assign_all-IsSorted [] m s = s
  assign_all-IsSorted ((k, v) ∷ from) m s =
      assign_all-IsSorted from (assign k v m) (assign-IsSorted k v m s)

  -- Assigning a sorted map overwrites what is there.
  pub find-assign_all :
      (j : K) (from m : StdMap K V)
      → IsSorted from
      → find j (assign_all from m) ≡ or_else (find j from) (find j m)
  unfolding assign_all find
  find-assign_all j [] m s = refl
  find-assign_all j ((k, v) ∷ from) m (b, s) = ground (
    arith,
    find-assign_all j from (assign k v m) s,
    find-assign j k v m,
    find_of_Below k from b,
    o.cmp_eq j k,
  )

module _ {ℓ κ} {K : Type ℓ} {V : Type κ} ⦃o : Order K⦄ where
  -- A key that was not there is found with its value.
  pub find-emplace_self :
      (k : K) (v : V) (m : StdMap K V) → find k m ≡ none → find k (emplace k v m) ≡ some v
  unfolding find emplace
  find-emplace_self k v [] e = rw cmp_refl
  find-emplace_self k v ((j, w) ∷ m) e = ground (arith, find-emplace_self k v m, cmp_refl k)
