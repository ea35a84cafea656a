-- ===== src/Minify.antt =====
-- The RPC client: rpc_mt/minifyjpeg_main.c and minifyjpeg_main.c of gios-spr-2018-pr4-master.
pub mod Worker
pub mod Main
pub mod Program
pub mod Laws
pub mod Once
pub mod Lock
pub mod Fair
pub mod Join
pub mod Written
pub mod Finished
pub mod Ended
pub mod Idle
pub mod Unset
pub mod Remote
