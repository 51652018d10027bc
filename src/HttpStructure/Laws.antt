-- ===== src/HttpStructure/Laws.antt =====
-- What a generic request shows of a structured one.
use http_cpp.Base.{Text, ◌≡◌, ap, ◌∙◌, []}
use http_cpp.Base.Order.{text_order}
use http_cpp.Base.StdMap.{find, insert_all}
use http_cpp.Base.StdMap.Laws.{IsSorted, or_else, find-insert_all, insert_all-IsSorted}
use http_cpp.GenericStructure.{HeaderMap}
use http_cpp.HttpStructure.{HttpRequest, to_generic}

-- The generic request finds a header in the general headers first, then in the request headers,
-- then in the entity headers, and its header map is in the order of its keys.
pub find-to_generic :
    (r : HttpRequest) (k : Text)
    → (find k (to_generic r).header
        ≡ or_else
            (or_else (find k r.general_header) (find k r.request_header))
            (find k r.entity_header))
      × IsSorted (to_generic r).header
unfolding to_generic find
find-to_generic r k = (
  find-insert_all k r.entity_header request request-IsSorted
      ∙ ap (λ found. or_else found (find k r.entity_header))
          (find-insert_all k r.request_header general general-IsSorted
            ∙ ap (λ found. or_else found (find k r.request_header))
                (find-insert_all k r.general_header [] tt)),
  insert_all-IsSorted r.entity_header request request-IsSorted,
)
  where
    general : HeaderMap
    general = insert_all r.general_header []

    general-IsSorted : IsSorted general
    general-IsSorted = insert_all-IsSorted r.general_header [] tt

    request : HeaderMap
    request = insert_all r.request_header general

    request-IsSorted : IsSorted request
    request-IsSorted = insert_all-IsSorted r.request_header general general-IsSorted
