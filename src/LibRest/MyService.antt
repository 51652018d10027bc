-- ===== src/LibRest/MyService.antt =====
-- example/rest_webservice: the service of messages.
pub mod Laws
use http_cpp.Base.{Text, codes, List, [], ◌∷◌, ◌++◌, Outcome, ok, ◌>>=◌, Exec, then_exec}
use http_cpp.Base.StdMap.{StdMap}
use http_cpp.HttpConstants.{Method, m_get, m_put, m_delete}
use http_cpp.GenericStructure.{GenericResponse}
use http_cpp.Router.{DispatchNode, new_node, add_route}
use http_cpp.LibRest.{RestRequest, RestFunction}

-- The loop over the parameters.
unfoldable pub append_params : Text → StdMap Text Text → Text
append_params body [] = body
append_params body ((k, v) ∷ params) =
    append_params (body ++ codes "\n" ++ k ++ codes ":" ++ v) params

abbrev answer : Text → RestFunction
answer title request response =
    (ok tt, record response { message_body = append_params title request.params })

abbrev pub get_message : RestFunction
get_message = answer (codes "GET message")

abbrev pub get_message_author : RestFunction
get_message_author = answer (codes "GET author")

abbrev pub get_message_author_friends : RestFunction
get_message_author_friends = answer (codes "GET friends")

abbrev pub put_message : RestFunction
put_message = answer (codes "PUT message")

abbrev pub delete_message : RestFunction
delete_message = answer (codes "DELETE message")

abbrev step :
    Method
    → Text
    → RestFunction
    → Outcome (Unit {0}) × DispatchNode RestFunction
    → Outcome (Unit {0}) × DispatchNode RestFunction
step m route fn = then_exec (λ u. add_route m route fn)

-- `setup()` on a new service
unfoldable pub setup : Outcome (Unit {0}) × DispatchNode RestFunction
setup = step m_get (codes "/message/:id/author/friend") get_message_author_friends (
    step m_get (codes "/message/:id/author") get_message_author (
      step m_delete (codes "/message/:id") delete_message (
        step m_put (codes "/message") put_message
          (step m_get (codes "/message/:id") get_message (ok tt, new_node)))))
