-- ===== src/HttpWorker/Logged.antt =====
-- What `handle_request` of src/http_worker.cpp logs of a response: its first line, and the level.
mod Tests
use http_cpp.Base.{Text, Outcome, getline}
use http_cpp.HttpConstants.{
  StatusClass, informational, success, redirection, client_error, get_status_class,
}
use http_cpp.HttpProtocolOneOne.{line_of}
use http_cpp.HttpStructure.{HttpResponse}

pub data Level : Type 0 where
  notice info warn error : Level

-- The `switch` on the class of the status.
abbrev pub level_of : StatusClass → Level
level_of informational = notice
level_of redirection = notice
level_of success = info
level_of client_error = warn
level_of _ = error

-- The level and the line for a response that was written as `string_response`.
unfoldable pub logged : HttpResponse → Text → Level × Text
logged response string_response =
    (level_of (get_status_class response.status_code), (line_of (getline string_response)).0)
