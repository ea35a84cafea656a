-- ===== src/Rpc.antt =====
-- The RPC call and the RPC service of gios-spr-2018-pr4-master: minifyjpeg_xdr.c, minifyjpeg_clnt.c,
-- magickminify.c, minifyjpeg_svc.c, and of rpc_mt minify_via_rpc.c, minifyjpeg.c and minifyjpeg_svc.c.
pub mod Call
pub mod Xdr
pub mod Image
pub mod Dispatch
pub mod Remote
pub mod Failing
pub mod Service
pub mod Accounts
pub mod Race
pub mod Links
