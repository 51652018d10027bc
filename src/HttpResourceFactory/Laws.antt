-- ===== src/HttpResourceFactory/Laws.antt =====
-- What the filesystem's factory serves.
use http_cpp.Base.{◌≡◌, Text, codes, ◌++◌, Option, none, some, Bool, ◌⊎◌, true, false, not, ◌&&◌}
use http_cpp.HttpFilesystemResource.{
  FileSystem, FilesystemResource, http_filesystem_resource, http_directory_listing,
}

-- The text begins with the other.
abbrev pub Extends : Text → Text → Type 0
Extends s t = (u : Text) × (t ≡ s ++ u)

module _ (fs : FileSystem) where
  -- What may be served for a path: a file that exists and is no directory, under the path; or the
  -- listing of the path, if it is a directory and its index.html is no file.
  abbrev pub is_index : Text → Bool
  is_index dir =
      fs.exists (dir ++ codes "index.html") && not (fs.is_directory (dir ++ codes "index.html"))

  abbrev pub IsServed : Text → FilesystemResource → Type 0
  IsServed path (http_filesystem_resource p) =
      Extends path p × (fs.exists p ≡ true) × (fs.is_directory p ≡ false)
  IsServed path (http_directory_listing p) =
      Extends path p × (fs.is_directory path ≡ true) × (is_index p ≡ false)

  -- And nothing is served only where there is neither a file nor a directory.
  abbrev pub IsAnswer : Text → Option FilesystemResource → Type 0
  IsAnswer path none =
      (fs.exists path ≡ false)
      ⊎ ((fs.is_regular_file path ≡ false) × (fs.is_directory path ≡ false))
  IsAnswer path (some resource) = IsServed path resource
