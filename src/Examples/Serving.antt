-- ===== src/Examples/Serving.antt =====
-- A request for a file, with its answer.
use http_cpp.Base.{◌≡◌, refl, codes, ◌∷◌, [], some, false, text_eq}
use http_cpp.HttpResourceFactory.{create_filesystem_handle}
use http_cpp.HttpService.Host.{host_eq}
use http_cpp.HttpServer.HttpWebsite.{HttpWebsite, find_website_by, website_eq_host}
use http_cpp.Examples.Websites.{one_file}

abbrev the_website : HttpWebsite
the_website = record {
  name_ = codes "files";
  host_ = record { name = codes "localhost"; port = 80 };
  service_path_ = codes "/www";
  resource_factory_ = create_filesystem_handle one_file false (codes "/www");
}

known :
    find_website_by (record { name = codes "localhost"; port = 80 }) (the_website ∷ [])
    ≡ some the_website
unfolding find_website_by website_eq_host host_eq text_eq
known = refl
