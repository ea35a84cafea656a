-- ===== src/Rpc/Dispatch.antt =====
-- What the RPC services make of one request: `minifyjpeg_prog_1` of minifyjpeg_svc.c, and its two parts
-- in rpc_mt/minifyjpeg_svc.c, that of the boss and that of a worker; with `minifyjpeg_proc_1_svc` of
-- minifyjpeg.c and of rpc_mt/minifyjpeg.c. The RPC library is a parameter.
use intro_to_os.Base.{
  ℕ, ◌^◌, ◌%◌, Bool, true, false, List, Option, none, some, length, take, ◌==◌, if◌then◌else◌,
}
use intro_to_os.Text.{Bytes}
use intro_to_os.Launch.{Started}
use intro_to_os.Rpc.Call.{register}
use intro_to_os.Rpc.Xdr.{Primitives, ImageIn, decode_image_in, encode_image_out}
use intro_to_os.Rpc.Image.{Magick, Minified, minified, magickminify}

-- What the client gets: an answer, an empty one, an error of the RPC library, or nothing; or what
-- becomes of the service: it exits, having answered or not, or is undefined.
pub data Answer : Type 0 where
  replied : (bytes : Bytes) → Answer
  replied_void no_procedure cannot_decode system_error silent : Answer
  stopped : ℕ → (before : Option Bytes) → Answer
  undefined : Answer

-- `dst_len` becomes an `u_int`.
abbrev pub with_dst_len : Minified → Minified
with_dst_len (minified dst) = minified (take (length dst % 2 ^ 32) dst)
with_dst_len (Minified.exited status) = Minified.exited status
with_dst_len Minified.undefined = Minified.undefined

-- `svc_sendreply`, which encodes the result and sends it.
abbrev pub send_reply : (sends : Bool) → (encoded : Option Bytes) → Answer
send_reply sends none = system_error
send_reply sends (some bytes) = if sends then replied bytes else system_error

-- Behind `svc_sendreply`: a failure of `svc_freeargs` ends the service.
abbrev pub free_args : (frees : Bool) → Answer → Answer
free_args true answer = answer
free_args false (replied bytes) = stopped 1 (some bytes)
free_args false answer = stopped 1 none

-- `exit` in the scaling and undefined behaviour come before `svc_freeargs`.
abbrev pub finish : (frees : Bool) → Answer → Answer
finish frees (replied bytes) = free_args frees (replied bytes)
finish frees system_error = free_args frees system_error
finish frees other = other

-- ImageMagick at one request: behind `magickminify_init`, or without it, where it may never have been set
-- up, or a `magickminify_cleanup` behind an earlier answer may have ended it.
abbrev pub Library : Type 1
Library = (initialised : Bool) → Magick

module _ (xdr : Primitives) (magick : Library) where
  -- `minifyjpeg_proc_1_svc`: the text of the result. It returns 1, and only the length that the client
  -- wrote into `src_len` of the text counts. That of minifyjpeg.c calls `magickminify_init` first
  -- (`inits`), that of rpc_mt/minifyjpeg.c does not.
  unfoldable pub minifyjpeg_proc_1_svc : (inits : Bool) → ImageIn → Minified
  unfolding magickminify
  minifyjpeg_proc_1_svc inits image_input =
      with_dst_len (magickminify (magick inits) image_input.src)

  -- `svc_sendreply` behind the procedure.
  abbrev pub answer_with : (sends : Bool) → (result : Minified) → Answer
  answer_with sends (minified dst) = send_reply sends (encode_image_out xdr dst)
  answer_with sends (Minified.exited status) = stopped status none
  answer_with sends Minified.undefined = Answer.undefined

  -- `_minifyjpeg_proc_1` and `svc_sendreply`, in minifyjpeg_svc.c and in the worker of rpc_mt.
  unfoldable pub answer : (inits sends : Bool) → ImageIn → Answer
  unfolding minifyjpeg_proc_1_svc
  answer inits sends argument = answer_with sends (minifyjpeg_proc_1_svc inits argument)

  abbrev pub with_args : (sends frees : Bool) → Option ImageIn → Answer
  with_args sends frees none = cannot_decode
  with_args sends frees (some argument) = finish frees (answer true sends argument)

  -- `minifyjpeg_prog_1` of minifyjpeg_svc.c: NULLPROC is 0 and MINIFYJPEG_PROC is 1.
  unfoldable pub minifyjpeg_prog_1 :
      (rq_proc : ℕ) → (arguments : Bytes) → (sends frees : Bool) → Answer
  unfolding answer decode_image_in
  minifyjpeg_prog_1 rq_proc arguments sends frees =
      if rq_proc == 0
      then (if sends then replied_void else silent)
      else if rq_proc == 1
      then with_args sends frees (decode_image_in xdr arguments)
      else no_procedure

  -- The boss of rpc_mt: it decodes without a look at the procedure, and queues (`some`).
  unfoldable pub boss_decode : (rq_proc : ℕ) → (arguments : Bytes) → Option ImageIn
  unfolding decode_image_in
  boss_decode rq_proc arguments = decode_image_in xdr arguments

  abbrev pub with_queued : (sends : Bool) → Option ImageIn → Answer
  with_queued sends none = cannot_decode
  with_queued sends (some argument) = answer false sends argument

  -- The boss and then a worker. The arguments are never freed.
  unfoldable pub queue_and_answer : (rq_proc : ℕ) → (arguments : Bytes) → (sends : Bool) → Answer
  unfolding answer boss_decode
  queue_and_answer rq_proc arguments sends = with_queued sends (boss_decode rq_proc arguments)

-- `main` of minifyjpeg_svc.c, up to `svc_run`, and the status with which it ends if that returns.
abbrev pub main : (transports : List Bool) → Started ℕ
main transports = register transports 1
