-- ===== src/HttpServer.antt =====
-- src/httpserver: the REST server and the file server.
pub mod RestServer
pub mod FileServer
