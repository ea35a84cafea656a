-- ===== src/Echo.antt =====
-- The echo programs, echo/echoserver.c and echo/echoclient.c of gios-spr-2018-pr1-master.
pub mod Server
pub mod Client
pub mod Laws
