-- ===== src/Web.antt =====
-- The proxies of gios-spr-2018-pr3-master: the handlers of server/handle_with_file.c and
-- server/handle_with_curl.c, and the `main` functions of server/webproxy.c and cache/webproxy.c.
pub mod File
pub mod Curl
pub mod Fetch
pub mod Server
pub mod Cached
pub mod Launched
