-- ===== src/Router/StaticTable.antt =====
-- A router with routes that have no identifiers is a table of its registrations.
use http_cpp.Base.{
  ◌≡◌, refl, sym, ap, subst, ◌∙◌, arith, Text, List, [], ◌∷◌, Option, none, some, Bool, true, false,
  ◌&&◌, ◌==◌, ok, All, text_eq, text_eq_iff, Bool-cases, inl, inr, if◌then◌else◌,
}
use http_cpp.Base.Order.{text_order}
use http_cpp.Base.StdMap.{StdMap}
use http_cpp.Base.StdMap.Laws.{or_else}
use http_cpp.HttpConstants.{Method, method_code}
use http_cpp.HttpConstants.MethodOrder.{method_order, method_code-injective}
use http_cpp.Router.{
  DispatchNode, new_node, add_at, add_route, get_at, get_dispatch, dispatch_split,
}
use http_cpp.Router.Dispatch.{add_route-split}
use http_cpp.Router.Frame.{AreFilled, HidesNothing, get_at-new_node, get_at-add_at_other}
use http_cpp.Router.Plain.{
  AreStatic, IsPlain, HidesNothing-IsPlain, add_at-IsPlain, get_at-add_at_same,
}
use http_cpp.Router.Paths.{ok-injective, slashed, dispatch_split-slashed}

-- A registration, as it is written in a service.
pub record Registration (Fn : Type 0) : Type 0 where
  pub method : Method
  pub dispatch_route : Text
  pub fn : Fn

-- Its route has no identifiers and no empty parts.
abbrev pub IsStaticRoute : {Fn : Type 0} → Registration Fn → Type 0
IsStaticRoute t =
    (parts : List Text) × (dispatch_split t.dispatch_route ≡ ok parts) × AreStatic parts

module _ {Fn : Type 0} where
  -- All of them, whether they succeed or not.
  unfoldable pub register_all : List (Registration Fn) → DispatchNode Fn → DispatchNode Fn
  register_all [] n = n
  register_all (t ∷ ts) n = register_all ts (add_route t.method t.dispatch_route t.fn n).1

  abbrev pub is_for : Method → Text → Registration Fn → Bool
  is_for m path t = method_code m == method_code t.method && text_eq path t.dispatch_route

  -- The function of the first registration for a method and a path.
  abbrev pub lookup : Method → Text → List (Registration Fn) → Option Fn
  lookup m path [] = none
  lookup m path (t ∷ ts) = if is_for m path t then some t.fn else lookup m path ts

  is_for_lem :
      (m : Method) (path : Text) (t : Registration Fn)
      → is_for m path t ≡ true
      → (m ≡ t.method) × (path ≡ t.dispatch_route)
  is_for_lem m path t e = (
    ground (arith, method_code-injective m t.method),
    ground (arith, text_eq_iff path t.dispatch_route),
  )

  not_for :
      (m : Method) (path : Text) (t : Registration Fn)
      → is_for m path t ≡ false
      → ¬ ((m ≡ t.method) × (path ≡ t.dispatch_route))
  not_for m path t e (same, here) =
      ground (arith, text_eq_iff path t.dispatch_route, ap method_code same)

  -- The function at a path after one more registration.
  abbrev then_for : Method → Text → Registration Fn → Option Fn → Option Fn
  then_for m path t f = or_else f (if is_for m path t then some t.fn else none)

  or_else-none : (f : Option Fn) → or_else f none ≡ f
  or_else-none none = refl
  or_else-none (some f) = refl

  then_for-lookup :
      (m : Method) (path : Text) (t : Registration Fn) (f : Option Fn) (ts : List (Registration Fn))
      → or_else (then_for m path t f) (lookup m path ts) ≡ or_else f (lookup m path (t ∷ ts))
  then_for-lookup m path t (some f) ts = refl
  then_for-lookup m path t none ts = elim (Bool-cases (is_for m path t)) [
    | inl here ↦ rw here refl
    | inr elsewhere ↦ rw elsewhere refl
  ]

  -- A router with routes that have no identifiers, seen from one path.
  module _ (ndebug : Bool) (m : Method) (path : Text) (parts : List Text)
      (params : StdMap Text Text) (whole : dispatch_split path ≡ ok parts)
      (filled : AreFilled parts) where
    abbrev Finds : DispatchNode Fn → Option Fn → Type 0
    Finds n f = IsPlain n × (get_at ndebug m parts n params ≡ (ok f, params))

    found_here :
        (t : Registration Fn) (n : DispatchNode Fn) (f : Option Fn) (route : List Text)
        → dispatch_split t.dispatch_route ≡ ok route
        → AreStatic route
        → Finds n f
        → is_for m path t ≡ true
        → get_at ndebug m parts (add_at t.method t.fn route n).1 params
          ≡ (ok (or_else f (some t.fn)), params)
    found_here t n f route r static (plain, e) here =
        let (method, same) = is_for_lem m path t here in
        let along = ok-injective (sym whole ∙ ap dispatch_split same ∙ r) in
        subst
          (λ o.
            get_at ndebug m parts (add_at o t.fn route n).1 params
            ≡ (ok (or_else f (some t.fn)), params))
          method
          (subst
            (λ o.
              get_at ndebug m parts (add_at m t.fn o n).1 params
              ≡ (ok (or_else f (some t.fn)), params))
            along
            (get_at-add_at_same ndebug m t.fn parts n params f filled
              (subst (λ o. HidesNothing o n) (sym along)
                (HidesNothing-IsPlain route n static plain))
              e))

    found_elsewhere :
        (t : Registration Fn) (n : DispatchNode Fn) (f : Option Fn) (route : List Text)
        → dispatch_split t.dispatch_route ≡ ok route
        → AreStatic route
        → Finds n f
        → is_for m path t ≡ false
        → get_at ndebug m parts (add_at t.method t.fn route n).1 params ≡ (ok f, params)
    found_elsewhere t n f route r static (plain, e) elsewhere =
        get_at-add_at_other ndebug t.method m t.fn route parts n params
          (HidesNothing-IsPlain route n static plain) filled
          (λ (q : (m ≡ t.method) × (parts ≡ route)). not_for m path t elsewhere (
            q.0,
            dispatch_split-slashed path parts whole
                ∙ ap slashed q.1
                ∙ sym (dispatch_split-slashed t.dispatch_route route r),
          ))
        ∙ e

    Finds-add_route :
        (t : Registration Fn) (n : DispatchNode Fn) (f : Option Fn)
        → IsStaticRoute t
        → Finds n f
        → Finds (add_route t.method t.dispatch_route t.fn n).1 (then_for m path t f)
    Finds-add_route t n f (route, r, static) (plain, e) =
        rw (add_route-split t.method t.fn n t.dispatch_route route r) (
          add_at-IsPlain t.method t.fn route n static plain,
          elim (Bool-cases (is_for m path t)) [
            | inl here ↦ rw here (found_here t n f route r static (plain, e) here)
            | inr elsewhere ↦
                rw (elsewhere, or_else-none f)
                  (found_elsewhere t n f route r static (plain, e) elsewhere)
          ],
        )

    Finds-register_all :
        (ts : List (Registration Fn)) (n : DispatchNode Fn) (f : Option Fn)
        → All IsStaticRoute ts
        → Finds n f
        → Finds (register_all ts n) (or_else f (lookup m path ts))
    unfolding register_all
    Finds-register_all [] n f static h = rw (or_else-none f) h
    Finds-register_all (t ∷ ts) n f (s, static) h =
        subst (Finds (register_all ts (add_route t.method t.dispatch_route t.fn n).1))
          (then_for-lookup m path t f ts)
          (Finds-register_all ts (add_route t.method t.dispatch_route t.fn n).1
            (then_for m path t f) static (Finds-add_route t n f s h))

    -- A router that is filled, in any order and with failed registrations among them, by routes
    -- without identifiers and without empty parts is a table: a path without empty parts is dispatched
    -- to the function of the first registration for its method and exactly its text, to none where
    -- there is no such registration, and no parameters are bound.
    pub get_dispatch-register_all :
        (ts : List (Registration Fn))
        → All IsStaticRoute ts
        → get_dispatch ndebug m path (register_all ts new_node) params
          ≡ (ok (lookup m path ts), params)
    unfolding get_dispatch IsPlain
    get_dispatch-register_all ts static =
        rw (whole, get_dispatch)
          (Finds-register_all ts new_node none static
            ((refl, tt), get_at-new_node ndebug m parts params filled)).1
