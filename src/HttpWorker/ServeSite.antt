-- ===== src/HttpWorker/ServeSite.antt =====
-- From `http_server::connect` to the answer for a file of the website.
use http_cpp.Base.{Outcome, ok}
use http_cpp.Build.{Build}
use http_cpp.HttpResource.{ResourceFactory}
use http_cpp.HttpService.Host.{Host}
use http_cpp.HttpServer.HttpWebsite.{HttpWebsite}

abbrev pub factory_or : ResourceFactory → Outcome HttpWebsite → ResourceFactory
factory_or f (ok w) = w.resource_factory_
factory_or f _ = f
