-- ===== src/LibRest/MyService/Laws.antt =====
-- What the service of messages answers once it is set up.
use http_cpp.Base.{
  ◌≡◌, ◌≢◌, refl, Text, codes, [], ◌∷◌, ◌++◌, none, some, Bool, ok, ◌==◌, split, text_eq,
}
use http_cpp.Base.TextLaws.{Lacks, split-Solid}
use http_cpp.Base.Order.{text_order, text_cmp}
use http_cpp.Base.StdMap.{find, emplace}
use http_cpp.Base.Regex.{regex_match, match_from, match_many}
use http_cpp.HttpConstants.{m_get, m_put, m_delete}
use http_cpp.HttpConstants.MethodOrder.{method_order}
use http_cpp.Router.{
  add_route, add_at, get_dispatch, get_at, dispatch_split, find_route, put_route, dynamic_name,
  add_function,
}
use http_cpp.LibRest.MyService.{setup, get_message, delete_message}

-- The service is set up without an error, and then hands "/message/" and an identifier, a text without a slash, to the
-- function of the request's method for one message, with the parameter "id" bound to that text: a
-- GET to `get_message`, a DELETE to `delete_message`, and a PUT, which is registered for "/message"
-- only, to none.
pub setup-message :
    (ndebug : Bool) (id : Text)
    → id ≢ []
    → Lacks b'/' id
    → (setup.0 ≡ ok tt)
      × (get_dispatch ndebug m_get (codes "/message/" ++ id) setup.1 []
          ≡ (ok (some get_message), (codes "id", id) ∷ []))
      × (get_dispatch ndebug m_delete (codes "/message/" ++ id) setup.1 []
          ≡ (ok (some delete_message), (codes "id", id) ∷ []))
      × (get_dispatch ndebug m_put (codes "/message/" ++ id) setup.1 []
          ≡ (ok none, (codes "id", id) ∷ []))
unfolding setup add_route add_at dispatch_split split add_function find emplace regex_match
    match_from match_many dynamic_name put_route find_route text_cmp text_eq get_dispatch get_at
setup-message ndebug [] filled h = absurd (filled refl)
setup-message ndebug (c ∷ id) filled h =
    rw (split-Solid (λ c. c == b'/') (c ∷ id) h, get_dispatch, dispatch_split)
      (refl, refl, refl, refl)
