-- ===== src/Transfer.antt =====
-- The file transfer programs, transfer/transferserver.c and transfer/transferclient.c of
-- gios-spr-2018-pr1-master.
pub mod Server
pub mod Client
pub mod Laws
