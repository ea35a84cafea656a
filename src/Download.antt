-- ===== src/Download.antt =====
-- The download programs gflib/gfclient_download.c and mtgf/gfclient_download.c of
-- gios-spr-2018-pr1-master, and their workload.
pub mod Workload
pub mod Names
pub mod Files
pub mod Program
pub mod Laws
pub mod Requests
