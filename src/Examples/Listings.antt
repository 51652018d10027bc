-- ===== src/Examples/Listings.antt =====
-- A directory that is listed.
use http_cpp.Base.{◌≡◌, refl, All, codes, [], ◌∷◌, text_eq, none, false, true}
use mathlib.Core.List.{Perm}
use http_cpp.HttpConstants.{m_get, http_continue}
use http_cpp.GenericStructure.{GenericRequest, generic_response}
use http_cpp.HttpFilesystemResource.{
  DirectoryEntry, FileSystem, http_directory_listing, execute, fetch_resource_content,
}
use http_cpp.HttpFilesystemResource.Listing.{HasOneKind, by_kind, entry_lines, execute-listing}

abbrev the_file : DirectoryEntry
the_file = record { path = codes "/a/f"; filename = codes "f" }

abbrev the_socket : DirectoryEntry
the_socket = record { path = codes "/a/s"; filename = codes "s" }

abbrev the_directory : DirectoryEntry
the_directory = record { path = codes "/a/d"; filename = codes "d" }

abbrev mixed : FileSystem
mixed = record {
  exists = λ p. true;
  is_directory = text_eq (codes "/a/d");
  is_regular_file = text_eq (codes "/a/f");
  entries = λ p. the_file ∷ the_directory ∷ the_socket ∷ [];
  contents = λ p. [];
  last_write_date = λ p. [];
  magic_file = λ p. none;
  has_magic = false;
}

abbrev get_directory : GenericRequest
get_directory = record { method = m_get; request_uri = codes "/"; header = []; message_body = [] }

apart : All (HasOneKind mixed) (mixed.entries (codes "/a"))
unfolding text_eq
apart = (refl, (refl, (refl, tt)))

listed_test :
    (execute mixed
      (http_directory_listing (codes "/a"))
      get_directory
      (generic_response http_continue)).1.message_body
    ≡ codes "[?] /a/s\r\n[DIR] d\r\n[FILE] f\r\n"
unfolding execute fetch_resource_content text_eq
listed_test = refl

execute-listing_example :
    ((execute mixed
        (http_directory_listing (codes "/a"))
        get_directory
        (generic_response http_continue)).1.message_body
      ≡ entry_lines mixed (by_kind mixed (mixed.entries (codes "/a"))))
    × Perm (by_kind mixed (mixed.entries (codes "/a"))) (mixed.entries (codes "/a"))
execute-listing_example =
    execute-listing mixed (codes "/a") get_directory (generic_response http_continue) refl apart
