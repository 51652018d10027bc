-- ===== src/HttpFilesystemResource.antt =====
-- libhttp-cpp/src/http_filesystem_resource.h, .cpp, http_directory_listing.h, .cpp: files and
-- directories as resources.
pub mod Laws
pub mod Listing
use http_cpp.Base.{
  Text, codes, List, [], ◌∷◌, ◌++◌, Option, none, some, Bool, true, false, not, ◌&&◌, Outcome, ok,
  Exec, to_string, length, if◌then◌else◌,
}
use http_cpp.Base.Order.{text_order}
use http_cpp.Base.StdMap.{StdMap, assign, insert_all}
use http_cpp.HttpConstants.{
  Method, m_options, m_get, m_head, m_post, m_put, m_delete, m_trace, m_connect, http_ok,
}
use http_cpp.GenericStructure.{HeaderMap, GenericRequest, GenericResponse}
use http_cpp.HttpResource.{Resource}

pub record DirectoryEntry : Type 0 where
  pub path : Text
  pub filename : Text

-- What the file system, boost::filesystem and libmagic answer while a request is served.
pub record FileSystem : Type 0 where
  pub exists : Text → Bool
  pub is_directory : Text → Bool
  pub is_regular_file : Text → Bool
  -- The entries of a directory, in the order of its iterator.
  pub entries : Text → List DirectoryEntry
  -- The bytes that a stream on the file reads.
  pub contents : Text → Text
  -- `http_date` of `last_write_time`.
  pub last_write_date : Text → Text
  -- `magic_file`, which may answer `nullptr`.
  pub magic_file : Text → Option Text
  -- There is a magic handle.
  pub has_magic : Bool

-- The two classes.
pub data FilesystemResource : Type 0 where
  http_filesystem_resource : Text → FilesystemResource
  http_directory_listing : Text → FilesystemResource

abbrev or_plain : Option Text → Text
or_plain none = codes "text/plain"
or_plain (some raw_content_type) = raw_content_type

-- `request.method == http_constants::method::m_get`
abbrev is_get : Method → Bool
is_get m_get = true
is_get _ = false

module _ (fs : FileSystem) where
  unfoldable pub get_content_type : Text → Text
  get_content_type request_uri_ =
      if fs.has_magic then or_plain (fs.magic_file request_uri_) else codes "text/plain"

  -- The virtual `fetch_resource_header`.
  unfoldable pub fetch_resource_header : FilesystemResource → HeaderMap
  unfolding get_content_type
  fetch_resource_header (http_filesystem_resource request_uri_) =
      assign (codes "Last-Modified") (fs.last_write_date request_uri_) (
        assign (codes "Content-Type") (get_content_type request_uri_)
          (assign (codes "Content-Length") (to_string (length (fs.contents request_uri_))) []))
  fetch_resource_header (http_directory_listing request_uri_) =
      assign (codes "Last-Modified") []
        (assign (codes "Content-Length") [] (assign (codes "Content-Type") [] []))

  -- The three loops of `http_directory_listing::fetch_resource_content`.
  unfoldable pub list_others : List DirectoryEntry → Text
  list_others [] = []
  list_others (e ∷ es) =
      (if not (fs.is_directory e.path) && not (fs.is_regular_file e.path)
        then codes "[?] " ++ e.path ++ codes "\r\n"
        else [])
      ++ list_others es

  unfoldable pub list_directories : List DirectoryEntry → Text
  list_directories [] = []
  list_directories (e ∷ es) =
      (if fs.is_directory e.path then codes "[DIR] " ++ e.filename ++ codes "\r\n" else [])
      ++ list_directories es

  unfoldable pub list_files : List DirectoryEntry → Text
  list_files [] = []
  list_files (e ∷ es) =
      (if fs.is_regular_file e.path then codes "[FILE] " ++ e.filename ++ codes "\r\n" else [])
      ++ list_files es

  -- The virtual `fetch_resource_content`.
  unfoldable pub fetch_resource_content : FilesystemResource → Text
  unfolding list_others list_directories list_files
  fetch_resource_content (http_filesystem_resource request_uri_) = fs.contents request_uri_
  fetch_resource_content (http_directory_listing request_uri_) =
      let es = fs.entries request_uri_ in list_others es ++ list_directories es ++ list_files es

  -- `http_filesystem_resource::execute`
  unfoldable pub execute : FilesystemResource → Resource
  execute resource request response =
      let filled = insert_all (fetch_resource_header resource) response.header in
      (
        ok tt,
        record response {
          header = filled;
          message_body =
              if is_get request.method
              then fetch_resource_content resource
              else response.message_body;
          status_code = http_ok;
        },
      )
