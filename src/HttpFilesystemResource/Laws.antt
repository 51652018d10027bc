-- ===== src/HttpFilesystemResource/Laws.antt =====
-- GET and HEAD on files and directories.
use http_cpp.Base.{◌≡◌, refl, Text, codes, none, some, to_string, length}
use http_cpp.Base.Order.{text_order, text_cmp}
use http_cpp.Base.StdMap.{find, assign}
use http_cpp.Base.StdMap.Laws.{IsSorted, find-insert_all}
use http_cpp.HttpConstants.{m_get, m_head, http_ok}
use http_cpp.GenericStructure.{GenericRequest, GenericResponse}
use http_cpp.HttpFilesystemResource.{
  FileSystem, http_filesystem_resource, fetch_resource_header, fetch_resource_content, execute,
}

module _ (fs : FileSystem) where
  content_length-file :
      (p : Text)
      → find (codes "Content-Length") (fetch_resource_header fs (http_filesystem_resource p))
        ≡ some (to_string (length (fs.contents p)))
  unfolding fetch_resource_header find assign text_cmp
  content_length-file p = refl

  -- On a file, a GET answers 200 with the file's bytes, and a HEAD answers 200 with the same
  -- headers and the body as it was; the Content-Length of both is the number of the file's bytes,
  -- in a response that had no such header yet.
  pub execute-get_head :
      (p : Text) (get head : GenericRequest) (response : GenericResponse)
      → get.method ≡ m_get
      → head.method ≡ m_head
      → IsSorted response.header
      → find (codes "Content-Length") response.header ≡ none
      → let got = (execute fs (http_filesystem_resource p) get response).1 in
        let seen = (execute fs (http_filesystem_resource p) head response).1 in
        (got.message_body ≡ fs.contents p)
        × (seen.message_body ≡ response.message_body)
        × (seen.header ≡ got.header)
        × (find (codes "Content-Length") seen.header ≡ some (to_string (length got.message_body)))
        × (got.status_code ≡ http_ok)
        × (seen.status_code ≡ http_ok)
  unfolding execute fetch_resource_content
  execute-get_head p get head response g h sorted fresh = (
    rw g refl,
    rw h refl,
    refl,
    rw g (
        rw
          (
            find-insert_all (codes "Content-Length")
                (fetch_resource_header fs (http_filesystem_resource p)) response.header sorted,
            fresh,
            content_length-file p,
          )
          refl),
    refl,
    refl,
  )
