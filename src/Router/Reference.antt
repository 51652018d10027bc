-- ===== src/Router/Reference.antt =====
-- What a router promises, without a tree: dispatch over the list of its registrations.
use http_cpp.Base.{
  ◌≡◌, Text, List, [], ◌∷◌, Option, none, some, Bool, true, false, ok, ◌==◌, Exec, is_empty,
  text_eq, if◌then◌else◌,
}
use http_cpp.Base.Order.{text_order}
use http_cpp.Base.StdMap.{StdMap, emplace}
use http_cpp.HttpConstants.{Method, method_code}
use http_cpp.Router.{
  DispatchNode, dynamic_name, new_node, dynamic_asserts, after, add_route, dispatch_split,
}

-- A registration, and the parts of its route behind the node that is looked at.
pub record Entry (Fn : Type 0) : Type 0 where
  pub method : Method
  pub parts : List Text
  pub fn : Fn

module _ {Fn : Type 0} where
  -- What is left of a registration behind a static part.
  abbrev pub static_rest : Text → Entry Fn → Option (Entry Fn)
  static_rest p e = elim e.parts [
    | [] ↦ none
    | r ∷ more ↦ elim (dynamic_name r) [
      | some name ↦ none
      | none ↦ if text_eq p r then some (record e { parts = more }) else none
    ]
  ]

  -- What is left of it behind an identifier.
  abbrev pub dynamic_rest : Entry Fn → Option (Text × Entry Fn)
  dynamic_rest e = elim e.parts [
    | [] ↦ none
    | r ∷ more ↦ elim (dynamic_name r) [
      | none ↦ none
      | some name ↦ some (name, record e { parts = more })
    ]
  ]

  unfoldable pub statics : Text → List (Entry Fn) → List (Entry Fn)
  statics p [] = []
  statics p (e ∷ es) = elim (static_rest p e) [
    | none ↦ statics p es
    | some rest ↦ rest ∷ statics p es
  ]

  unfoldable pub dynamics : List (Entry Fn) → List (Entry Fn)
  dynamics [] = []
  dynamics (e ∷ es) = elim (dynamic_rest e) [
    | none ↦ dynamics es
    | some (name, rest) ↦ rest ∷ dynamics es
  ]

  abbrev pub named_by : Option (Text × Entry Fn) → Option Text → Option Text
  named_by none later = later
  named_by (some (name, rest)) later = some name

  unfoldable pub identifier : List (Entry Fn) → Option Text
  identifier [] = none
  identifier (e ∷ es) = named_by (dynamic_rest e) (identifier es)

  -- The function of a registration that ends here.
  unfoldable pub ends : Method → List (Entry Fn) → Option Fn
  ends m [] = none
  ends m (e ∷ es) = elim e.parts [
    | r ∷ more ↦ ends m es
    | [] ↦ if method_code m == method_code e.method then some e.fn else ends m es
  ]

  -- Dispatch: the registrations with this static part are followed where there are any, else those
  -- with an identifier.
  unfoldable pub dispatch_among :
      Bool → Method → List Text → List (Entry Fn) → Exec (StdMap Text Text) (Option Fn)
  dispatch_among ndebug m [] es params = (ok (ends m es), params)
  dispatch_among ndebug m (p ∷ path) es params = elim (is_empty p) [
    | true ↦ (ok (ends m es), params)
    | false ↦ elim (statics p es) [
      | e ∷ rest ↦ dispatch_among ndebug m path (e ∷ rest) params
      | [] ↦ elim (identifier es) [
        | none ↦ (ok none, params)
        | some name ↦
            after (dynamic_asserts ndebug name params)
              (dispatch_among ndebug m path (dynamics es) (emplace name p params)) params
      ]
    ]
  ]

  -- The routers that registrations make, with what was registered, the last one first. A registration
  -- that does not succeed is in the router that it leaves, and not in the list.
  pub data Registered : DispatchNode Fn → List (Entry Fn) → Type 0 where
    nothing_registered : Registered new_node []
    one_more :
        (m : Method) (dispatch_route : Text) (fn : Fn) {n : DispatchNode Fn} {es : List (Entry Fn)}
        (parts : List Text)
        → Registered n es
        → dispatch_split dispatch_route ≡ ok parts
        → (add_route m dispatch_route fn n).0 ≡ ok tt
        → Registered
            (add_route m dispatch_route fn n).1
            (record { method = m; parts = parts; fn = fn } ∷ es)
    one_refused :
        (m : Method) (dispatch_route : Text) (fn : Fn) {n : DispatchNode Fn} {es : List (Entry Fn)}
        → Registered n es
        → ¬ ((add_route m dispatch_route fn n).0 ≡ ok tt)
        → Registered (add_route m dispatch_route fn n).1 es
