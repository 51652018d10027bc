-- ===== src/Router/Consistent.antt =====
-- Lists of registrations that are not in conflict, in any order.
use http_cpp.Base.{
  ℕ, zero, suc, ◌≡◌, refl, sym, ap, subst, ◌∙◌, arith, Text, List, [], ◌∷◌, Option, none, some,
  Bool, true, false, Outcome, ok, All, ◌==◌, is_empty, Option-cases, Bool-cases, inl, inr,
  if◌then◌else◌,
}
use mathlib.Core.List.{Permᴰ, filter_map}
use mathlib.Core.List.Permᴰ
use mathlib.Core.Path.{ap₂}
use http_cpp.Base.Order.{text_order}
use http_cpp.Base.StdMap.{StdMap, emplace}
use http_cpp.HttpConstants.{Method, method_code}
use http_cpp.HttpConstants.MethodOrder.{method_order}
use http_cpp.Router.{dynamic_asserts, after}
use http_cpp.Router.Reference.{
  Entry, static_rest, dynamic_rest, named_by, statics, dynamics, identifier, ends, dispatch_among,
}

All-Permᴰ : {A : Type 0} (P : A → Type 0) {xs ys : List A} → Permᴰ xs ys → All P xs → All P ys
All-Permᴰ P Permᴰ.nil h = tt
All-Permᴰ P (Permᴰ.cons e p) (h, hs) = (subst P e h, All-Permᴰ P p hs)
All-Permᴰ P (Permᴰ.swap e f) (h, (g, hs)) = (subst P f g, (subst P e h, hs))
All-Permᴰ P (Permᴰ.trans p q) h = All-Permᴰ P q (All-Permᴰ P p h)

module _ {Fn : Type 0} where
  -- At a node with this function for the method.
  abbrev pub EndsAs : Option Fn → Method → Entry Fn → Type 0
  EndsAs f m e = e.parts ≡ [] → method_code m == method_code e.method ≡ true → f ≡ some e.fn

  -- At a node with this identifier.
  abbrev pub NamedAs : Text → Entry Fn → Type 0
  NamedAs id e = (name : Text) (rest : Entry Fn) → dynamic_rest e ≡ some (name, rest) → name ≡ id

  -- No two registrations for one method and route, and no two identifiers at one place, down to a
  -- depth.
  unfoldable pub Consistent : ℕ → List (Entry Fn) → Type 0
  Consistent zero es = Unit
  Consistent (suc k) es =
      ((m : Method) → (f : Option Fn) × All (EndsAs f m) es)
      × ((id : Text) × All (NamedAs id) es)
      × ((p : Text) → Consistent k (statics p es))
      × Consistent k (dynamics es)

  -- One registration more.
  abbrev end_first : Method → Entry Fn → Option Fn → Option Fn
  end_first m e later = elim e.parts [
    | r ∷ more ↦ later
    | [] ↦ if method_code m == method_code e.method then some e.fn else later
  ]

  ends-cons :
      (m : Method) (e : Entry Fn) (es : List (Entry Fn))
      → ends m (e ∷ es) ≡ end_first m e (ends m es)
  unfolding ends
  ends-cons m e es = refl

  end_first_comm :
      (m : Method) (f : Option Fn) (a b : Entry Fn) (later : Option Fn)
      → EndsAs f m a
      → EndsAs f m b
      → end_first m a (end_first m b later) ≡ end_first m b (end_first m a later)
  end_first_comm m f a b later g h = ground (arith, g, h)

  ends-Permᴰ :
      (m : Method) (f : Option Fn) {es es' : List (Entry Fn)}
      → Permᴰ es es'
      → All (EndsAs f m) es
      → ends m es ≡ ends m es'
  unfolding ends
  ends-Permᴰ m f Permᴰ.nil h = refl
  ends-Permᴰ m f (Permᴰ.cons {a} {b} e p) (h, hs) = ap₂ (end_first m) e (ends-Permᴰ m f p hs)
  ends-Permᴰ m f (Permᴰ.swap {a} {b} {a'} {b'} {l} e g) (h, (h', hs)) =
      end_first_comm m f a b (ends m l) h h'
      ∙ ap₂ (λ c d. end_first m c (end_first m d (ends m l))) g e
  ends-Permᴰ m f (Permᴰ.trans p q) h =
      ends-Permᴰ m f p h ∙ ends-Permᴰ m f q (All-Permᴰ (EndsAs f m) p h)

  named_by_comm :
      (id : Text) (o q : Option (Text × Entry Fn)) (later : Option Text)
      → ((name : Text) (rest : Entry Fn) → o ≡ some (name, rest) → name ≡ id)
      → ((name : Text) (rest : Entry Fn) → q ≡ some (name, rest) → name ≡ id)
      → named_by o (named_by q later) ≡ named_by q (named_by o later)
  named_by_comm id none q later g h = refl
  named_by_comm id (some a) none later g h = refl
  named_by_comm id (some (n, rest)) (some (n', rest')) later g h =
      ap some (g n rest refl ∙ sym (h n' rest' refl))

  identifier-Permᴰ :
      (id : Text) {es es' : List (Entry Fn)}
      → Permᴰ es es'
      → All (NamedAs id) es
      → identifier es ≡ identifier es'
  unfolding identifier
  identifier-Permᴰ id Permᴰ.nil h = refl
  identifier-Permᴰ id (Permᴰ.cons {a} {b} e p) (h, hs) =
      ap₂ (λ c. named_by (dynamic_rest c)) e (identifier-Permᴰ id p hs)
  identifier-Permᴰ id (Permᴰ.swap {a} {b} {a'} {b'} {l} e g) (h, (h', hs)) =
      named_by_comm id (dynamic_rest a) (dynamic_rest b) (identifier l) h h'
      ∙ ap₂ (λ c d. named_by (dynamic_rest c) (named_by (dynamic_rest d) (identifier l))) g e
  identifier-Permᴰ id (Permᴰ.trans p q) h =
      identifier-Permᴰ id p h ∙ identifier-Permᴰ id q (All-Permᴰ (NamedAs id) p h)

  abbrev dynamic_tail : Entry Fn → Option (Entry Fn)
  dynamic_tail e = elim (dynamic_rest e) [ none ↦ none | some (name, rest) ↦ some rest ]

  statics-filter_map :
      (p : Text) (es : List (Entry Fn)) → statics p es ≡ filter_map (static_rest p) es
  unfolding statics filter_map
  statics-filter_map p [] = refl
  statics-filter_map p (e ∷ es) = elim (Option-cases (static_rest p e)) [
    | inl stops ↦ rw (stops, statics, filter_map) (statics-filter_map p es)
    | inr (rest, goes) ↦
        rw (goes, statics, filter_map) (ap (λ l. rest ∷ l) (statics-filter_map p es))
  ]

  dynamics-filter_map : (es : List (Entry Fn)) → dynamics es ≡ filter_map dynamic_tail es
  unfolding dynamics filter_map
  dynamics-filter_map [] = refl
  dynamics-filter_map (e ∷ es) = elim (Option-cases (dynamic_rest e)) [
    | inl stops ↦ rw (stops, dynamics, filter_map, dynamic_tail) (dynamics-filter_map es)
    | inr ((name, rest), goes) ↦
        rw (goes, dynamics, filter_map, dynamic_tail) (ap (λ l. rest ∷ l) (dynamics-filter_map es))
  ]

  statics-Permᴰ :
      (p : Text) {es es' : List (Entry Fn)} → Permᴰ es es' → Permᴰ (statics p es) (statics p es')
  statics-Permᴰ p {es} {es'} q =
      rw (statics-filter_map p es, statics-filter_map p es') (Permᴰ.filter_map (static_rest p) q)

  dynamics-Permᴰ : {es es' : List (Entry Fn)} → Permᴰ es es' → Permᴰ (dynamics es) (dynamics es')
  dynamics-Permᴰ {es} {es'} q =
      rw (dynamics-filter_map es, dynamics-filter_map es') (Permᴰ.filter_map dynamic_tail q)

  abbrev followed {ℓ} : {X : Type ℓ} → (List (Entry Fn) → X) → X → List (Entry Fn) → X
  followed f x [] = x
  followed f x (e ∷ es) = f (e ∷ es)

  followed-Permᴰ {ℓ} :
      {X : Type ℓ} (f : List (Entry Fn) → X) (x x' : X) (es es' : List (Entry Fn))
      → Permᴰ es es'
      → f es ≡ f es'
      → x ≡ x'
      → followed f x es ≡ followed f x' es'
  followed-Permᴰ f x x' [] [] q e g = g
  followed-Permᴰ f x x' [] (b ∷ es') q e g = absurd (All-Permᴰ (λ c. ⊥) q tt).0
  followed-Permᴰ f x x' (a ∷ es) [] q e g = absurd (All-Permᴰ (λ c. ⊥) (Permᴰ.symm q) tt).0
  followed-Permᴰ f x x' (a ∷ es) (b ∷ es') q e g = e

  module _ (ndebug : Bool) (m : Method) where
    abbrev by_identifier :
        Text
        → List Text
        → StdMap Text Text
        → Option Text
        → List (Entry Fn)
        → Outcome (Option Fn) × StdMap Text Text
    by_identifier p path params none es = (ok none, params)
    by_identifier p path params (some name) es =
        after (dynamic_asserts ndebug name params)
          (dispatch_among ndebug m path es (emplace name p params)) params

    dispatch_among-filled :
        (p : Text) (path : List Text) (es : List (Entry Fn)) (params : StdMap Text Text)
        → is_empty p ≡ false
        → dispatch_among ndebug m (p ∷ path) es params
          ≡ followed
              (λ l. dispatch_among ndebug m path l params)
              (by_identifier p path params (identifier es) (dynamics es))
              (statics p es)
    unfolding dispatch_among
    dispatch_among-filled p path es params filled =
        rw (filled, dispatch_among) (by_cases (statics p es) (identifier es))
      where
        by_cases :
            (l : List (Entry Fn)) (o : Option Text)
            → (elim l [
              | e ∷ rest ↦ dispatch_among ndebug m path (e ∷ rest) params
              | [] ↦ elim o [
                | none ↦ (ok none, params)
                | some name ↦
                    after
                      (dynamic_asserts ndebug name params)
                      (dispatch_among ndebug m path (dynamics es) (emplace name p params))
                      params
              ]
            ])
              ≡ followed
                  (λ l. dispatch_among ndebug m path l params)
                  (by_identifier p path params o (dynamics es))
                  l
        by_cases [] none = refl
        by_cases [] (some name) = refl
        by_cases (e ∷ rest) o = refl

    by_identifier-Permᴰ :
        (p : Text) (path : List Text) (params : StdMap Text Text) (o : Option Text)
        (es es' : List (Entry Fn))
        → ((bound : StdMap Text Text)
            → dispatch_among ndebug m path es bound ≡ dispatch_among ndebug m path es' bound)
        → by_identifier p path params o es ≡ by_identifier p path params o es'
    by_identifier-Permᴰ p path params none es es' h = refl
    by_identifier-Permᴰ p path params (some name) es es' h =
        ap
          (λ (a : Outcome (Option Fn) × StdMap Text Text).
            after (dynamic_asserts ndebug name params) a params)
          (h (emplace name p params))

    -- Registrations that are not in conflict are dispatched to in any order.
    pub dispatch_among-Permᴰ :
        (path : List Text) (es es' : List (Entry Fn)) (params : StdMap Text Text)
        → ((k : ℕ) → Consistent k es)
        → Permᴰ es es'
        → dispatch_among ndebug m path es params ≡ dispatch_among ndebug m path es' params
    unfolding Consistent dispatch_among
    dispatch_among-Permᴰ [] es es' params h q =
        let (f, all) = (h 1).0 m in ap (λ o. (ok o, params)) (ends-Permᴰ m f q all)
    dispatch_among-Permᴰ (p ∷ path) es es' params h q = elim (Bool-cases (is_empty p)) [
      | inl empty ↦
          let (f, all) = (h 1).0 m in
          rw (empty, dispatch_among) (ap (λ o. (ok o, params)) (ends-Permᴰ m f q all))
      | inr filled ↦
          let (id, named) = (h 1).1 in
          dispatch_among-filled p path es params filled
          ∙ followed-Permᴰ (λ l. dispatch_among ndebug m path l params)
              (by_identifier p path params (identifier es) (dynamics es))
              (by_identifier p path params (identifier es') (dynamics es')) (statics p es)
              (statics p es') (statics-Permᴰ p q)
              (dispatch_among-Permᴰ path (statics p es) (statics p es') params
                (λ k. (h (suc k)).2 p) (statics-Permᴰ p q))
              (ap (λ o. by_identifier p path params o (dynamics es)) (identifier-Permᴰ id q named)
                ∙ by_identifier-Permᴰ p path params (identifier es') (dynamics es) (dynamics es')
                    (λ bound.
                      dispatch_among-Permᴰ path (dynamics es) (dynamics es') bound
                        (λ k. (h (suc k)).3) (dynamics-Permᴰ q)))
          ∙ sym (dispatch_among-filled p path es' params filled)
    ]
