-- ===== src/Router.antt =====
-- librest/include/router.h and router.hpp: the tree of routes.
pub mod Names
pub mod Laws
pub mod Dispatch
pub mod Frame
pub mod Plain
pub mod Paths
pub mod StaticTable
pub mod Reference
pub mod Unchanged
pub mod Holds
pub mod Refines
pub mod Consistent
pub mod Entries
pub mod AnyOrder
use http_cpp.Base.{
  ℕ, ◌≡◌, Text, codes, List, [], ◌∷◌, Option, none, some, Bool, true, false, not, ◌&&◌, ◌||◌, leb,
  ◌==◌, Outcome, ok, throw, terminate, undefined, invalid_argument, ◌>>=◌, ◌>>◌, assert_that, Exec,
  is_empty, text_eq, split, if◌then◌else◌,
}
use http_cpp.Base.Order.{text_order}
use http_cpp.Base.StdMap.{StdMap, find, emplace}
use http_cpp.Base.Regex.{Regex, one, many, seq, group, literal, regex_match}
use http_cpp.HttpConstants.{Method}
use http_cpp.HttpConstants.MethodOrder.{method_order}

-- `url_dispatch_node<Fn>`. The order of the static routes is never read, so a new one stands last.
mutual
  pub data DispatchNode (Fn : Type 0) : Type 0 where
    dispatch_node : StaticRoutes Fn → Text → DynamicRoute Fn → StdMap Method Fn → DispatchNode Fn

  pub data StaticRoutes (Fn : Type 0) : Type 0 where
    no_routes : StaticRoutes Fn
    static_route : Text → DispatchNode Fn → StaticRoutes Fn → StaticRoutes Fn

  -- `dynamic_route_node_`, which may be null.
  pub data DynamicRoute (Fn : Type 0) : Type 0 where
    no_dynamic : DynamicRoute Fn
    dynamic_node : DispatchNode Fn → DynamicRoute Fn

-- "[a-zA-Z_]" and "[a-zA-Z0-9_]"
abbrev pub name_start : ℕ → Bool
name_start c = (leb b'a' c && leb c b'z') || (leb b'A' c && leb c b'Z') || c == b'_'

abbrev pub name_byte : ℕ → Bool
name_byte c = name_start c || (leb b'0' c && leb c b'9')

-- ":([a-zA-Z_][a-zA-Z0-9_]*)"
abbrev pub dynamic_route : Regex
dynamic_route = seq (literal b':') (group 1 (seq (one name_start) (many name_byte)))

-- The identifier of a dynamic part of a route.
unfoldable pub dynamic_name : Text → Option Text
dynamic_name route = elim (regex_match dynamic_route route) [
  | none ↦ none
  | some matches ↦ some (matches 1)
]

-- The parts behind the leading '/'.
unfoldable pub dispatch_split : Text → Outcome (List Text)
dispatch_split [] = throw invalid_argument
dispatch_split (c ∷ rel_route) =
    if c == b'/' then ok (split (λ d. d == b'/') rel_route) else throw invalid_argument

abbrev is_none {ℓ} : {A : Type ℓ} → Option A → Bool
is_none none = true
is_none (some a) = false

-- The two assertions at a dynamic part.
abbrev pub dynamic_asserts : Bool → Text → StdMap Text Text → Outcome (Unit {0})
dynamic_asserts ndebug id params =
    assert_that ndebug (not (is_empty id)) >> assert_that ndebug (is_none (find id params))

abbrev pub after {ℓ κ} :
    {A : Type ℓ} {S : Type κ} → Outcome (Unit {0}) → Outcome A × S → S → Outcome A × S
after (ok u) next s = next
after (throw e) next s = (throw e, s)
after terminate next s = (terminate, s)
after undefined next s = (undefined, s)

module _ {Fn : Type 0} where
  abbrev pub new_node : DispatchNode Fn
  new_node = dispatch_node no_routes [] no_dynamic []

  unfoldable pub find_route : Text → StaticRoutes Fn → Option (DispatchNode Fn)
  find_route k no_routes = none
  find_route k (static_route j n rs) = if text_eq k j then some n else find_route k rs

  -- The node of a route, new or in place of the old one.
  unfoldable pub put_route : Text → DispatchNode Fn → StaticRoutes Fn → StaticRoutes Fn
  put_route k n no_routes = static_route k n no_routes
  put_route k n (static_route j o rs) =
      if text_eq k j then static_route j n rs else static_route j o (put_route k n rs)

  abbrev pub node_or_new : Option (DispatchNode Fn) → DispatchNode Fn
  node_or_new none = new_node
  node_or_new (some n) = n

  -- `dynamic_route_node_.get()`
  abbrev pub dynamic_child : DynamicRoute Fn → Option (DispatchNode Fn)
  dynamic_child no_dynamic = none
  dynamic_child (dynamic_node n) = some n

  -- The last step of `add_route`.
  unfoldable pub add_function : Method → Fn → Exec (DispatchNode Fn) (Unit {0})
  add_function m fn (dispatch_node rs id d fs) = elim (find m fs) [
    | some old ↦ (throw invalid_argument, dispatch_node rs id d fs)
    | none ↦ (ok tt, dispatch_node rs id d (emplace m fn fs))
  ]

  abbrev under_static :
      Text
      → DispatchNode Fn
      → Outcome (Unit {0}) × DispatchNode Fn
      → Outcome (Unit {0}) × DispatchNode Fn
  under_static route (dispatch_node rs id d fs) (result, child) =
      (result, dispatch_node (put_route route child rs) id d fs)

  abbrev under_dynamic :
      Text
      → DispatchNode Fn
      → Outcome (Unit {0}) × DispatchNode Fn
      → Outcome (Unit {0}) × DispatchNode Fn
  under_dynamic name (dispatch_node rs id d fs) (result, child) =
      (result, dispatch_node rs name (dynamic_node child) fs)

  -- The loop of `add_route`. Nodes that were made before an exception would stay.
  unfoldable pub add_at : Method → Fn → List Text → Exec (DispatchNode Fn) (Unit {0})
  add_at m fn [] n = add_function m fn n
  add_at m fn (route ∷ more) (dispatch_node rs id d fs) = elim (dynamic_name route) [
    | some name ↦ elim (is_empty id) [
      | true ↦ under_dynamic name (dispatch_node rs id d fs) (add_at m fn more new_node)
      | false ↦ elim (text_eq id name) [
        | false ↦ (throw invalid_argument, dispatch_node rs id d fs)
        | true ↦ elim (dynamic_child d) [
          | none ↦ (undefined, dispatch_node rs id d fs)
          | some child ↦ under_dynamic id (dispatch_node rs id d fs) (add_at m fn more child)
        ]
      ]
    ]
    | none ↦
        under_static route (dispatch_node rs id d fs)
          (add_at m fn more (node_or_new (find_route route rs)))
  ]

  unfoldable pub add_route : Method → Text → Fn → Exec (DispatchNode Fn) (Unit {0})
  add_route m dispatch_route fn n = elim (dispatch_split dispatch_route) [
    | ok parts ↦ add_at m fn parts n
    | throw e ↦ (throw e, n)
    | terminate ↦ (terminate, n)
    | undefined ↦ (undefined, n)
  ]

  -- The lookup of the method at the node that the loop ends at.
  abbrev pub function_at : Method → DispatchNode Fn → Option Fn
  function_at m (dispatch_node rs id d fs) = find m fs

  -- The loop of `get_dispatch`, over `out_params`.
  unfoldable pub get_at :
      Bool → Method → List Text → DispatchNode Fn → Exec (StdMap Text Text) (Option Fn)
  get_at ndebug m [] n params = (ok (function_at m n), params)
  get_at ndebug m (route ∷ more) (dispatch_node rs id d fs) params = elim (is_empty route) [
    | true ↦ (ok (find m fs), params)
    | false ↦ elim (find_route route rs) [
      | some child ↦ get_at ndebug m more child params
      | none ↦ elim (dynamic_child d) [
        | none ↦ (ok none, params)
        | some child ↦
            after (dynamic_asserts ndebug id params)
              (get_at ndebug m more child (emplace id route params)) params
      ]
    ]
  ]

  unfoldable pub get_dispatch :
      Bool → Method → Text → DispatchNode Fn → Exec (StdMap Text Text) (Option Fn)
  get_dispatch ndebug m dispatch_route n params = elim (dispatch_split dispatch_route) [
    | ok parts ↦ get_at ndebug m parts n params
    | throw e ↦ (throw e, params)
    | terminate ↦ (terminate, params)
    | undefined ↦ (undefined, params)
  ]
