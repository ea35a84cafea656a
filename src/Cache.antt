-- ===== src/Cache.antt =====
-- The proxy and its cache daemon: cache/handle_with_cache.c and cache/simplecached.c of
-- gios-spr-2018-pr3-master.
pub mod Message
pub mod Chunks
pub mod Send
pub mod Daemon
pub mod Startup
pub mod Proxy
pub mod Laws
pub mod System
pub mod Threads
pub mod Crossed
