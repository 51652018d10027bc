-- ===== src/HttpServer.antt =====
-- src/http_server.h, http_server.cpp, http_website.h and http_website.cpp.
pub mod HttpWebsite
pub mod Connect
pub mod Server
pub mod Forward
pub mod Laws
pub mod Websites
pub mod Run
pub mod RunLaws
