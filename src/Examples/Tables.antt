-- ===== src/Examples/Tables.antt =====
-- Routes without identifiers.
use http_cpp.Base.{
  sym, ◌∙◌, ◌≡◌, refl, codes, Text, List, [], ◌∷◌, none, some, ok, throw, invalid_argument, false,
  split, text_eq, All,
}
use mathlib.Core.List.Permᴰ
use http_cpp.Base.Order.{text_order}
use http_cpp.Base.StdMap.{find, emplace}
use http_cpp.Base.Regex.{regex_match, match_from, match_many}
use http_cpp.HttpConstants.{m_get}
use http_cpp.HttpConstants.MethodOrder.{method_order}
use http_cpp.Router.{
  DispatchNode, new_node, add_route, add_at, add_function, get_dispatch, dispatch_split,
  dynamic_name, find_route, put_route,
}
use http_cpp.Router.Reference.{
  Entry, statics, dynamics, identifier, ends, dispatch_among, Registered, nothing_registered,
  one_more, one_refused,
}
use http_cpp.Router.Unchanged.{add_route-unchanged}
use http_cpp.Router.AnyOrder.{get_dispatch-any_order}
use http_cpp.Router.Refines.{get_dispatch-Registered}
use http_cpp.Router.Plain.{AreStatic}
use http_cpp.Router.StaticTable.{
  Registration, IsStaticRoute, register_all, lookup, get_dispatch-register_all,
}
use http_cpp.LibRest.{RestFunction}
use http_cpp.LibRest.MyService.{get_message, get_message_author, delete_message}

abbrev authors : Text
authors = codes "/message/author"

abbrev author_parts : List Text
author_parts = codes "message" ∷ codes "author" ∷ []

abbrev messages : Text
messages = codes "/message"

-- The last one is refused.
abbrev registrations : List (Registration RestFunction)
registrations =
    record { method = m_get; dispatch_route = authors; fn = get_message_author }
    ∷ record { method = m_get; dispatch_route = messages; fn = get_message }
    ∷ record { method = m_get; dispatch_route = authors; fn = delete_message }
    ∷ []

split_authors : dispatch_split authors ≡ ok author_parts
unfolding dispatch_split split
split_authors = refl

authors-AreStatic : (dynamic_name (codes "message") ≡ none) × (dynamic_name (codes "author") ≡ none)
unfolding dynamic_name regex_match match_from
authors-AreStatic = (refl, refl)

split_messages : dispatch_split messages ≡ ok (codes "message" ∷ [])
unfolding dispatch_split split
split_messages = refl

registrations-AreStatic : All IsStaticRoute registrations
registrations-AreStatic =
    let (s, t) = authors-AreStatic in
    let author : (parts : List Text) × (dispatch_split authors ≡ ok parts) × AreStatic parts =
      (author_parts, split_authors, ((s, refl), ((t, refl), tt))) in
    (author, ((codes "message" ∷ [], split_messages, ((s, refl), tt)), (author, tt)))

get_dispatch-register_all_example :
    get_dispatch false m_get authors (register_all registrations new_node) []
    ≡ (ok (lookup m_get authors registrations), [])
get_dispatch-register_all_example =
    get_dispatch-register_all false m_get authors author_parts [] split_authors (refl, (refl, tt))
      registrations registrations-AreStatic

-- The first one is the one that is found.
first_of_two : lookup m_get authors registrations ≡ some get_message_author
unfolding text_eq
first_of_two = refl

third_refused :
    (add_route m_get authors delete_message
      (register_all registrations (new_node {Fn = RestFunction}))).0
    ≡ throw invalid_argument
unfolding register_all add_route add_at dispatch_split split add_function find regex_match
    match_from dynamic_name find_route put_route text_eq emplace
third_refused = refl

abbrev dynamic_author : Text
dynamic_author = codes "/message/:id/author"

abbrev dynamic_parts : List Text
dynamic_parts = codes "message" ∷ codes ":id" ∷ codes "author" ∷ []

split_dynamic : dispatch_split dynamic_author ≡ ok dynamic_parts
unfolding dispatch_split split
split_dynamic = refl

abbrev one_route : DispatchNode RestFunction
one_route = (add_route m_get dynamic_author get_message_author new_node).1

abbrev two_routes : DispatchNode RestFunction
two_routes = (add_route m_get authors get_message one_route).1

first_added :
    (add_route m_get dynamic_author get_message_author (new_node {Fn = RestFunction})).0 ≡ ok tt
unfolding add_route add_at dispatch_split split add_function find regex_match match_from match_many
    dynamic_name find_route
first_added = refl

second_added : (add_route m_get authors get_message one_route).0 ≡ ok tt
unfolding add_route add_at dispatch_split split add_function find regex_match match_from match_many
    dynamic_name find_route put_route text_eq emplace
second_added = refl

abbrev both : List (Entry RestFunction)
both =
    record { method = m_get; parts = author_parts; fn = get_message }
    ∷ record { method = m_get; parts = dynamic_parts; fn = get_message_author }
    ∷ []

two-Registered : Registered two_routes both
two-Registered =
    one_more m_get authors get_message author_parts
      (one_more m_get dynamic_author get_message_author dynamic_parts nothing_registered
        split_dynamic first_added)
      split_authors second_added

abbrev seven_author : Text
seven_author = codes "/message/7/author"

abbrev seven_parts : List Text
seven_parts = codes "message" ∷ codes "7" ∷ codes "author" ∷ []

split_seven : dispatch_split seven_author ≡ ok seven_parts
unfolding dispatch_split split
split_seven = refl

get_dispatch-Registered_example :
    get_dispatch false m_get seven_author two_routes []
    ≡ dispatch_among false m_get seven_parts both []
get_dispatch-Registered_example =
    get_dispatch-Registered false m_get seven_author seven_parts two_routes both [] two-Registered
      split_seven

-- The identifier is bound where no static part is there.
seven_bound :
    dispatch_among false m_get seven_parts both []
    ≡ (ok (some get_message_author), (codes "id", codes "7") ∷ [])
unfolding dispatch_among statics dynamics identifier ends dynamic_name regex_match match_from
    match_many text_eq find emplace
seven_bound = refl

abbrev other_name : Text
other_name = codes "/message/:number"

other_refused : (add_route m_get other_name delete_message two_routes).0 ≡ throw invalid_argument
unfolding add_route add_at dispatch_split split add_function find regex_match match_from match_many
    dynamic_name find_route put_route text_eq emplace
other_refused = refl

add_route-unchanged_example : (add_route m_get other_name delete_message two_routes).1 ≡ two_routes
add_route-unchanged_example =
    add_route-unchanged m_get delete_message other_name two_routes
      (λ e. let impossible = sym other_refused ∙ e in cc)

with_refused : Registered (add_route m_get other_name delete_message two_routes).1 both
with_refused =
    one_refused m_get other_name delete_message two-Registered
      (λ e. let impossible = sym other_refused ∙ e in cc)

abbrev static_first : DispatchNode RestFunction
static_first = (add_route m_get authors get_message new_node).1

abbrev dynamic_second : DispatchNode RestFunction
dynamic_second = (add_route m_get dynamic_author get_message_author static_first).1

static_added : (add_route m_get authors get_message (new_node {Fn = RestFunction})).0 ≡ ok tt
unfolding add_route add_at dispatch_split split add_function find regex_match match_from match_many
    dynamic_name find_route
static_added = refl

dynamic_added : (add_route m_get dynamic_author get_message_author static_first).0 ≡ ok tt
unfolding add_route add_at dispatch_split split add_function find regex_match match_from match_many
    dynamic_name find_route put_route text_eq emplace
dynamic_added = refl

abbrev both_turned : List (Entry RestFunction)
both_turned =
    record { method = m_get; parts = dynamic_parts; fn = get_message_author }
    ∷ record { method = m_get; parts = author_parts; fn = get_message }
    ∷ []

turned-Registered : Registered dynamic_second both_turned
turned-Registered =
    one_more m_get dynamic_author get_message_author dynamic_parts
      (one_more m_get authors get_message author_parts nothing_registered split_authors
        static_added)
      split_dynamic dynamic_added

get_dispatch-any_order_example :
    get_dispatch false m_get seven_author two_routes []
    ≡ get_dispatch false m_get seven_author dynamic_second []
get_dispatch-any_order_example =
    get_dispatch-any_order false m_get seven_author two_routes dynamic_second both both_turned []
      two-Registered turned-Registered (Permᴰ.swap refl refl)
