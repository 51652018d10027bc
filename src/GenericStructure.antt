-- ===== src/GenericStructure.antt =====
-- libhttp-cpp/include/interface/generic_structure.h: the request and the response that services
-- see, whatever the protocol.
use http_cpp.Base.{Text, Bool, true}
use http_cpp.Base.StdMap.{StdMap}
use http_cpp.HttpConstants.{Method, Status}
use mathlib.Core.List.{[]}

abbrev pub HeaderMap : Type 0
HeaderMap = StdMap Text Text

pub record GenericRequest : Type 0 where
  pub method : Method
  pub request_uri : Text
  pub header : HeaderMap
  pub message_body : Text

pub record GenericResponse : Type 0 where
  pub status_code : Status
  pub header : HeaderMap
  pub message_body : Text
  pub message_body_complete : Bool

-- The constructor sets the flag and leaves `status_code` as the memory was.
abbrev pub generic_response : Status → GenericResponse
generic_response uninitialised = record {
  status_code = uninitialised;
  header = [];
  message_body = [];
  message_body_complete = true;
}
