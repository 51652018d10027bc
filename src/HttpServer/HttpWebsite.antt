-- ===== src/HttpServer/HttpWebsite.antt =====
-- src/http_website.h and http_website.cpp, and the std::set of websites.
use http_cpp.Base.{Text, List, [], ◌∷◌, Option, none, some, Bool, true, false, if◌then◌else◌, Exec}
use http_cpp.Build.{Build}
use http_cpp.HttpResource.{ResourceFactory}
use http_cpp.HttpStructure.{HttpRequest, HttpResponse}
use http_cpp.HttpProtocolHandler.{HandlerCache}
use http_cpp.HttpService
use http_cpp.HttpService.{Memory}
use http_cpp.HttpService.Host.{Host, host_match, host_eq, host_lt}

-- A website with its service.
pub record HttpWebsite : Type 0 where
  pub name_ : Text
  pub host_ : Host
  pub service_path_ : Text
  pub resource_factory_ : ResourceFactory

unfoldable pub execute : Build → Memory → HttpWebsite → HttpRequest → Exec HandlerCache HttpResponse
execute b memory w = HttpService.execute b memory w.resource_factory_

-- `operator==` of a text, a host and a website.
unfoldable pub matches_text : HttpWebsite → Text → Bool
matches_text w host = host_match w.host_ host

unfoldable pub website_eq_host : HttpWebsite → Host → Bool
website_eq_host w other_host = host_eq w.host_ other_host

unfoldable pub website_eq : HttpWebsite → HttpWebsite → Bool
website_eq w other = host_eq w.host_ other.host_

-- `operator<` of a host and a website.
unfoldable pub website_lt_host : HttpWebsite → Host → Bool
website_lt_host w other_host = host_lt w.host_ other_host

unfoldable pub website_lt : HttpWebsite → HttpWebsite → Bool
website_lt w other = host_lt w.host_ other.host_

-- `std::set<http_website>::emplace`: the new set, and whether the website was put in. Websites
-- neither of which is less than the other are one.
unfoldable pub emplace_website : HttpWebsite → List HttpWebsite → List HttpWebsite × Bool
emplace_website w [] = (w ∷ [], true)
emplace_website w (v ∷ vs) =
    if website_lt w v
    then (w ∷ v ∷ vs, true)
    else if website_lt v w
    then (let (rest, done) = emplace_website w vs in (v ∷ rest, done))
    else (v ∷ vs, false)

-- `erase` of the element that was put in.
unfoldable pub erase_website : HttpWebsite → List HttpWebsite → List HttpWebsite
erase_website w [] = []
erase_website w (v ∷ vs) = if website_eq w v then vs else v ∷ erase_website w vs

-- `std::find` of a host among the websites.
unfoldable pub find_website_by : Host → List HttpWebsite → Option HttpWebsite
find_website_by host [] = none
find_website_by host (w ∷ ws) = if website_eq_host w host then some w else find_website_by host ws
