-- ===== src/HttpServer/Connect.antt =====
-- `http_server::connect` of src/http_server.cpp.
use http_cpp.Base.{
  ℕ, Text, codes, List, ◌++◌, Bool, true, false, not, Outcome, ok, throw, terminate, undefined,
  invalid_argument, Exception, foreign_exception, ◌>>=◌, noexcept, Exec, to_string, if◌then◌else◌,
}
use http_cpp.HttpResource.{ExternalService}
use http_cpp.HttpFilesystemResource.{FileSystem}
use http_cpp.HttpResourceFactory.{create_resource_factory}
use http_cpp.HttpService.Host.{Host}
use http_cpp.HttpServer.HttpWebsite.{HttpWebsite, emplace_website, erase_website}

-- What `connect` uses of the system: files, dynamic libraries, and the binding of an address.
pub record System : Type 0 where
  pub files : FileSystem
  pub load : Text → Outcome ExternalService
  pub bind : Text → Outcome (Unit {0})

-- The constructor of a website is `noexcept`.
unfoldable pub http_website : Bool → System → Text → Host → Text → Outcome HttpWebsite
http_website ndebug sys website_path host website_name = noexcept (
    create_resource_factory sys.files ndebug sys.load website_path >>= λ factory. ok (record {
      name_ = website_name;
      host_ = host;
      service_path_ = website_path;
      resource_factory_ = factory;
    }))

-- What a handler of `std::exception` catches.
abbrev pub is_standard : Exception → Bool
is_standard foreign_exception = false
is_standard e = true

-- After the website was put in: a standard exception of the binding takes it out again.
abbrev pub bind_website : HttpWebsite → Outcome (Unit {0}) → Exec (List HttpWebsite) (Unit {0})
bind_website w (throw e) websites_ =
    (throw e, if is_standard e then erase_website w websites_ else websites_)
bind_website w result websites_ = (result, websites_)

abbrev pub insert_website : System → ℕ → Outcome HttpWebsite → Exec (List HttpWebsite) (Unit {0})
insert_website sys port (ok w) websites_ =
    let (inserted, done) = emplace_website w websites_ in
    if done
    then bind_website w (sys.bind (codes "tcp://*:" ++ to_string port)) inserted
    else (throw invalid_argument, websites_)
insert_website sys port (throw e) websites_ = (throw e, websites_)
insert_website sys port terminate websites_ = (terminate, websites_)
insert_website sys port undefined websites_ = (undefined, websites_)

unfoldable pub connect : Bool → System → Text → Text → ℕ → Text → Exec (List HttpWebsite) (Unit {0})
unfolding http_website
connect ndebug sys website_path host_name port website_name websites_ =
    if not (sys.files.exists website_path)
    then (throw invalid_argument, websites_)
    else insert_website sys port
        (http_website ndebug sys website_path (record { name = host_name; port = port })
          website_name)
        websites_
