-- ===== src/HttpWorker/Logged/Tests.antt =====
-- Lines that are logged.
use http_cpp.Base.{◌≡◌, refl, codes, getline}
use http_cpp.HttpConstants.{http_bad_request, get_status_class}
use http_cpp.HttpStructure.{http_response, default_http_version}
use http_cpp.HttpWorker.Laws.{bad_request_text}
use http_cpp.HttpWorker.Logged.{warn, logged}

bad_request_test :
    logged (http_response default_http_version http_bad_request) bad_request_text
    ≡ (warn, codes "HTTP/1.1 400 Bad Request\r")
unfolding logged getline get_status_class
bad_request_test = refl
