-- ===== src/HttpResourceFactory.antt =====
-- libhttp-cpp/src/http_resource_factory.h and .cpp: the factory of a service's resources.
pub mod Laws
use http_cpp.Base.{
  Text, codes, List, [], ◌∷◌, ◌++◌, Option, none, some, Bool, true, false, not, ◌&&◌, Outcome, ok,
  throw, terminate, undefined, invalid_argument, ◌>>=◌, ◌>>◌, noexcept, assert_that, ltb, ◌==◌,
  length, if◌then◌else◌,
}
use http_cpp.GenericStructure.{GenericRequest}
use http_cpp.HttpResource.{Resource, ResourceFactory, ExternalService}
use http_cpp.HttpFilesystemResource.{
  FileSystem, FilesystemResource, http_filesystem_resource, http_directory_listing, execute,
}

-- `if (path.back() != '/') path.append("/")`
unfoldable pub with_slash : Text → Text
with_slash [] = codes "/"
with_slash (c ∷ []) = if c == b'/' then c ∷ [] else c ∷ codes "/"
with_slash (c ∷ d ∷ s) = c ∷ with_slash (d ∷ s)

module _ (fs : FileSystem) where
  -- The resource at a path, without the assertion on it.
  unfoldable pub resource_at : Text → Option FilesystemResource
  resource_at path =
      if not (fs.exists path)
      then none
      else if fs.is_regular_file path
      then some (http_filesystem_resource path)
      else if fs.is_directory path
      then (let dir = with_slash path in
          let index_path = dir ++ codes "index.html" in
          if fs.exists index_path && not (fs.is_directory index_path)
          then some (http_filesystem_resource index_path)
          else some (http_directory_listing dir))
      else none

  -- `http_filesystem_resource_factory::create_handle`
  unfoldable pub create_filesystem_handle : Bool → Text → ResourceFactory
  create_filesystem_handle ndebug virtual_path_ request =
      let path = virtual_path_ ++ request.request_uri in
      assert_that ndebug (ltb 0 (length path)) >> elim (resource_at path) [
        | none ↦ ok none
        | some resource ↦ ok (some (execute fs resource))
      ]

  -- `http_external_resource_factory::create_handle`, which is `noexcept`.
  unfoldable pub create_external_handle : ExternalService → ResourceFactory
  create_external_handle service_ request = noexcept (service_ request)

  -- `http_resource_factory::create_resource_factory`. The loader stands for boost::dll, the
  -- library's `create_service` and its `setup()`.
  unfoldable pub create_resource_factory :
      Bool → (Text → Outcome ExternalService) → Text → Outcome ResourceFactory
  create_resource_factory ndebug load service_path =
      if fs.exists service_path
      then if fs.is_directory service_path
        then ok (create_filesystem_handle ndebug service_path)
        else if fs.is_regular_file service_path
        then (load service_path >>= λ service_. ok (create_external_handle service_))
        else throw invalid_argument
      else throw invalid_argument
