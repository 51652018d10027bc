-- ===== src/Router/Holds.antt =====
-- What a node of the tree of routes stands for.
use http_cpp.Base.{
  ℕ, zero, suc, ◌≡◌, refl, ap, subst, ◌∙◌, Text, List, [], ◌∷◌, Option, none, some, Bool, false, ok,
  is_empty, Option-cases, Bool-cases, inl, inr,
}
use http_cpp.Base.Order.{text_order}
use http_cpp.Base.StdMap.{StdMap, find, emplace}
use http_cpp.HttpConstants.{Method}
use http_cpp.HttpConstants.MethodOrder.{method_order}
use http_cpp.Router.{
  DispatchNode, dispatch_node, StaticRoutes, DynamicRoute, no_dynamic, dynamic_node, new_node,
  find_route, node_or_new, get_at,
}
use http_cpp.Router.Dispatch.{dynamic_target, get_at-static}
use http_cpp.Router.Reference.{Entry, statics, dynamics, identifier, ends, dispatch_among}

module _ {Fn : Type 0} where
  -- A child for the registrations with a static part, none where there are no such registrations.
  abbrev pub HoldsStatic :
      (DispatchNode Fn → List (Entry Fn) → Type 0)
      → Option (DispatchNode Fn)
      → List (Entry Fn)
      → Type 0
  HoldsStatic P none es = es ≡ []
  HoldsStatic P (some n) [] = ⊥
  HoldsStatic P (some n) (e ∷ es) = P n (e ∷ es)

  -- A child for the registrations with an identifier.
  abbrev pub HoldsDynamic :
      (DispatchNode Fn → List (Entry Fn) → Type 0)
      → Text
      → DynamicRoute Fn
      → Option Text
      → List (Entry Fn)
      → Type 0
  HoldsDynamic P id no_dynamic name es = (id ≡ []) × (name ≡ none) × (es ≡ [])
  HoldsDynamic P id (dynamic_node n) name es = (is_empty id ≡ false) × (name ≡ some id) × P n es

  -- A node holds registrations, down to a depth.
  unfoldable pub Holds : ℕ → DispatchNode Fn → List (Entry Fn) → Type 0
  Holds zero n es = Unit
  Holds (suc k) (dispatch_node rs id d fs) es =
      ((m : Method) → find m fs ≡ ends m es)
      × ((p : Text) → HoldsStatic (Holds k) (find_route p rs) (statics p es))
      × HoldsDynamic (Holds k) id d (identifier es) (dynamics es)

  pub Holds-new_node : (k : ℕ) (es : List (Entry Fn)) → es ≡ [] → Holds k new_node es
  unfolding Holds find find_route ends statics identifier dynamics
  Holds-new_node zero es e = tt
  Holds-new_node (suc k) es e = rw e (λ m. refl, λ p. refl, (refl, refl, refl))

  pub Holds-node_or_new :
      (k : ℕ) (o : Option (DispatchNode Fn)) (es : List (Entry Fn))
      → HoldsStatic (Holds k) o es
      → Holds k (node_or_new o) es
  Holds-node_or_new k none es h = Holds-new_node k es h
  Holds-node_or_new k (some n) [] h = absurd h
  Holds-node_or_new k (some n) (e ∷ es) h = h

  pub Holds-dynamic_target :
      (k : ℕ) (id : Text) (d : DynamicRoute Fn) (name : Option Text) (es : List (Entry Fn))
      → HoldsDynamic (Holds k) id d name es
      → Holds k (dynamic_target id d) es
  Holds-dynamic_target k id no_dynamic name es (empty, _, h) = rw empty (Holds-new_node k es h)
  Holds-dynamic_target k id (dynamic_node n) name es (named, _, h) = rw named h

  child_of :
      (P : DispatchNode Fn → List (Entry Fn) → Type 0) (n : DispatchNode Fn) (es : List (Entry Fn))
      → HoldsStatic P (some n) es
      → P n es
  child_of P n [] h = absurd h
  child_of P n (e ∷ es) h = h

  some_of :
      (P : DispatchNode Fn → List (Entry Fn) → Type 0) (n : DispatchNode Fn) (es : List (Entry Fn))
      → HoldsStatic P (some n) es
      → (e : Entry Fn) × (rest : List (Entry Fn)) × (es ≡ e ∷ rest)
  some_of P n [] h = absurd h
  some_of P n (e ∷ es) h = (e, es, refl)

  module _ (ndebug : Bool) (m : Method) where
    -- Behind a part for which the node has no static route.
    get_at-identifier :
        (p : Text) (path : List Text) (rs : StaticRoutes Fn) (id : Text) (d : DynamicRoute Fn)
        (fs : StdMap Method Fn) (es : List (Entry Fn)) (params : StdMap Text Text)
        → is_empty p ≡ false
        → find_route p rs ≡ none
        → statics p es ≡ []
        → ((k : ℕ) → HoldsDynamic (Holds k) id d (identifier es) (dynamics es))
        → ((n : DispatchNode Fn) (bound : StdMap Text Text)
            → ((k : ℕ) → Holds k n (dynamics es))
            → get_at ndebug m path n bound ≡ dispatch_among ndebug m path (dynamics es) bound)
        → get_at ndebug m (p ∷ path) (dispatch_node rs id d fs) params
          ≡ dispatch_among ndebug m (p ∷ path) es params
    unfolding get_at dispatch_among
    get_at-identifier p path rs id no_dynamic fs es params filled missing alone h below =
        rw (filled, missing, alone, (h 0).1, get_at, dispatch_among) refl
    get_at-identifier p path rs id (dynamic_node n) fs es params filled missing alone h below =
        rw (filled, missing, alone, (h 0).1, get_at, dispatch_among)
          (rw (below n (emplace id p params) (λ k. (h k).2)) refl)

    -- Dispatch in a node that holds registrations to any depth.
    pub get_at-Holds :
        (path : List Text) (n : DispatchNode Fn) (es : List (Entry Fn)) (params : StdMap Text Text)
        → ((k : ℕ) → Holds k n es)
        → get_at ndebug m path n params ≡ dispatch_among ndebug m path es params
    unfolding get_at dispatch_among Holds
    get_at-Holds [] (dispatch_node rs id d fs) es params h = ap (λ o. (ok o, params)) ((h 1).0 m)
    get_at-Holds (p ∷ path) (dispatch_node rs id d fs) es params h =
        elim (Bool-cases (is_empty p)) [
          | inl empty ↦ rw (empty, get_at, dispatch_among) (ap (λ o. (ok o, params)) ((h 1).0 m))
          | inr filled ↦ elim (Option-cases (find_route p rs)) [
            | inl missing ↦
                let here : HoldsStatic (Holds 0) (find_route p rs) (statics p es) = (h 1).1 p in
                get_at-identifier p path rs id d fs es params filled missing (rw missing at here)
                  (λ k. (h (suc k)).2) (λ n bound. get_at-Holds path n (dynamics es) bound)
            | inr (child, known) ↦
                let holds : (k : ℕ) → HoldsStatic (Holds k) (some child) (statics p es) = λ k.
                  subst (λ o. HoldsStatic (Holds k) o (statics p es)) known ((h (suc k)).1 p) in
                let (e, rest, shape) = some_of (Holds 0) child (statics p es) (holds 0) in
                let ih =
                  get_at-Holds path child (statics p es) params
                    (λ k. child_of (Holds k) child (statics p es) (holds k)) in
                get_at-static ndebug m p path rs id d fs params filled child known
                ∙ ih
                ∙ rw (filled, shape, dispatch_among) refl
          ]
        ]
