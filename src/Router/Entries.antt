-- ===== src/Router/Entries.antt =====
-- Lists of registrations at a node that holds them.
use http_cpp.Base.{
  ℕ, zero, suc, ◌≡◌, refl, sym, subst, ◌∙◌, arith, Text, List, [], ◌∷◌, Option, none, some, false,
  ok, All, is_empty, text_eq_iff, Option-cases, inl, inr,
}
use http_cpp.Base.Order.{text_order}
use http_cpp.Base.StdMap.{StdMap}
use http_cpp.HttpConstants.{Method}
use http_cpp.HttpConstants.MethodOrder.{method_order}
use http_cpp.Router.{
  dispatch_node, StaticRoutes, DynamicRoute, no_dynamic, dynamic_node, dynamic_name, add_at,
}
use http_cpp.Router.Reference.{Entry, dynamic_rest, named_by, statics, dynamics, identifier, ends}
use http_cpp.Router.Holds.{HoldsDynamic, Holds}
use http_cpp.Router.Consistent.{EndsAs, NamedAs, Consistent}

module _ {Fn : Type 0} where
  pub Consistent-nil : (k : ℕ) (es : List (Entry Fn)) → es ≡ [] → Consistent k es
  unfolding Consistent statics dynamics
  Consistent-nil zero es e = tt
  Consistent-nil (suc k) es e =
      rw e ((λ m. (none, tt)), ([], tt), (λ p. Consistent-nil k [] refl), Consistent-nil k [] refl)

  pub free-EndsAs :
      (f : Option Fn) (m : Method) (es : List (Entry Fn)) → ends m es ≡ none → All (EndsAs f m) es
  unfolding ends
  free-EndsAs f m [] h = tt
  free-EndsAs f m (e ∷ es) h = (ground (arith, h), free-EndsAs f m es (ground (arith, h)))

  free-NamedAs : (id : Text) (es : List (Entry Fn)) → identifier es ≡ none → All (NamedAs id) es
  unfolding identifier
  free-NamedAs id [] h = tt
  free-NamedAs id (e ∷ es) h = elim (Option-cases (dynamic_rest e)) [
    | inl stops ↦ (
      (λ name rest q. let no = sym stops ∙ q in cc),
      free-NamedAs id es (rw (stops, named_by) at h),
    )
    | inr (a, goes) ↦ let no = rw (goes, named_by) at h in cc
  ]

  identifier-NamedAs :
      (id name : Text) (es : List (Entry Fn))
      → identifier es ≡ some name
      → All (NamedAs id) es
      → name ≡ id
  unfolding identifier
  identifier-NamedAs id name [] h a = cc
  identifier-NamedAs id name (e ∷ es) h (g, a) = elim (Option-cases (dynamic_rest e)) [
    | inl stops ↦ identifier-NamedAs id name es (rw (stops, named_by) at h) a
    | inr ((n, rest), goes) ↦
        let same : some n ≡ some name = rw (goes, named_by) at h in let first = g n rest goes in cc
  ]

  pub same_name :
      (m : Method) (fn : Fn) (r : Text) (route : List Text) (rs : StaticRoutes Fn) (id : Text)
      (d : DynamicRoute Fn) (fs : StdMap Method Fn) (name : Text)
      → dynamic_name r ≡ some name
      → is_empty id ≡ false
      → (add_at m fn (r ∷ route) (dispatch_node rs id d fs)).0 ≡ ok tt
      → id ≡ name
  unfolding add_at
  same_name m fn r route rs id d fs name dynamic named e = ground (arith, text_eq_iff id name)

  -- The other registrations at a node have the identifier of the new one.
  pub same-NamedAs :
      (k : ℕ) (id id' name : Text) (d : DynamicRoute Fn) (es : List (Entry Fn))
      → HoldsDynamic (Holds k) id d (identifier es) (dynamics es)
      → (is_empty id ≡ false → id ≡ name)
      → All (NamedAs id') es
      → All (NamedAs name) es
  same-NamedAs k id id' name no_dynamic es (empty, none_here, _) same a =
      free-NamedAs name es none_here
  same-NamedAs k id id' name (dynamic_node n) es (named, here, _) same a =
      subst (λ i. All (NamedAs i) es) (sym (identifier-NamedAs id' id es here a) ∙ same named) a
