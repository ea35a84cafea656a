-- ===== src/Rpc/Remote.antt =====
-- A call of `minify_via_rpc` through the stub, the XDR functions, and the service.
use intro_to_os.Base.{
  not, ℕ, ◌^◌, ◌%◌, ◌≡◌, ◌<◌, ◌≤◌, Bool, true, false, Option, none, some, length, take-eq_self,
  if◌then◌else◌, ap, ◌∙◌, arith,
}
use intro_to_os.Text.{Bytes}
use intro_to_os.Rpc.Call.{Stub, returned, overflow, with_answer, minify_via_rpc, le→leb, lt→leb}
use intro_to_os.Rpc.Xdr.{
  Primitives, IsXdr, ImageIn, encode_image_in, decode_image_in, encode_image_out, decode_image_out,
  decode-encode_image_in, decode-encode_image_out,
}
use intro_to_os.Rpc.Image.{minified, magickminify}
use intro_to_os.Rpc.Dispatch.{
  Library, Answer, replied, minifyjpeg_proc_1_svc, with_dst_len, send_reply, answer_with, answer,
  finish, with_args, minifyjpeg_prog_1, boss_decode, with_queued, queue_and_answer,
}

-- `clnt_call`: with the encoded arguments, `none` if they could not be encoded, and what decodes the
-- result, it gives a status and the decoded result.
abbrev pub ClntCall : Type 0
ClntCall = (arguments : Option Bytes) → (decode : Bytes → Option Bytes) → ℕ × Option Bytes

-- `minifyjpeg_proc_1` of minifyjpeg_clnt.c. The two `int` fields are those that `minify_via_rpc` leaves
-- unassigned.
unfoldable pub minifyjpeg_proc_1 : Primitives → ClntCall → (src_len dst_len : ℕ) → Stub
unfolding encode_image_in
minifyjpeg_proc_1 xdr clnt_call src_len dst_len src =
    clnt_call (encode_image_in xdr (record { src = src; src_len = src_len; dst_len = dst_len }))
      (decode_image_out xdr)

-- What the RPC library says of a call whose answer arrives before its timeout of 5 seconds: the status is RPC_SUCCESS, 0, and
-- the answer is decoded, or RPC_CANTDECODERES, 2.
pub record Delivers (service : Bytes → Answer) (clnt_call : ClntCall) : Type 0 where
  pub success :
      (arguments bytes text : Bytes) (decode : Bytes → Option Bytes)
      → service arguments ≡ replied bytes
      → decode bytes ≡ some text
      → clnt_call (some arguments) decode ≡ (0, some text)
  pub garbled :
      (arguments bytes : Bytes) (decode : Bytes → Option Bytes)
      → service arguments ≡ replied bytes
      → decode bytes ≡ none
      → clnt_call (some arguments) decode ≡ (2, none)

-- The service with one thread and that of rpc_mt, on a request for the procedure, when its answer can be
-- sent and the library can free what it has decoded.
abbrev pub serve : (rpc_mt : Bool) → Primitives → Library → (arguments : Bytes) → Answer
serve false xdr magick arguments = minifyjpeg_prog_1 xdr magick 1 arguments true true
serve true xdr magick arguments = queue_and_answer xdr magick 1 arguments true

module _ (rpc_mt : Bool) (xdr : Primitives) (magick : Library) (clnt_call : ClntCall)
    (sound : IsXdr xdr) (delivers : Delivers (serve rpc_mt xdr magick) clnt_call)
    (src_len dst_len : ℕ) (src dst : Bytes) (fits : src_len < 2 ^ 32) (fits' : dst_len < 2 ^ 32)
    (small : length src < 2 ^ 32) (small_answer : length dst < 2 ^ 32)
    (scales : magickminify (magick (not rpc_mt)) src ≡ minified dst) where
  abbrev argument : ImageIn
  argument = record { src = src; src_len = src_len; dst_len = dst_len }

  -- The bytes of the answer, which the client decodes to the scaled image.
  abbrev Reply : (ImageIn → Answer) → Type 0
  Reply service =
      (bytes : Bytes) × (service argument ≡ replied bytes) × (decode_image_out xdr bytes ≡ some dst)

  answer-replied : Reply (answer xdr magick (not rpc_mt) true)
  unfolding answer minifyjpeg_proc_1_svc
  answer-replied =
      let (bytes, puts, gets) = decode-encode_image_out xdr sound dst small_answer in
      (
        bytes,
        ap (λ r. answer_with xdr magick true (with_dst_len r)) scales
            ∙ ap (λ d. send_reply true (encode_image_out xdr d))
                (take-eq_self (length dst % 2 ^ 32) dst (omega arith))
            ∙ ap (send_reply true) puts,
        gets,
      )

  serve-answer :
      (mt : Bool) (arguments bytes : Bytes)
      → decode_image_in xdr arguments ≡ some argument
      → answer xdr magick (not mt) true argument ≡ replied bytes
      → serve mt xdr magick arguments ≡ replied bytes
  unfolding minifyjpeg_prog_1 queue_and_answer boss_decode
  serve-answer false arguments bytes decodes answers =
      ap (with_args xdr magick true true) decodes ∙ ap (finish true) answers
  serve-answer true arguments bytes decodes answers =
      ap (with_queued xdr magick true) decodes ∙ answers

  minifyjpeg_proc_1_lem : minifyjpeg_proc_1 xdr clnt_call src_len dst_len src ≡ (0, some dst)
  unfolding minifyjpeg_proc_1
  minifyjpeg_proc_1_lem =
      let (arguments, puts, gets) = decode-encode_image_in xdr sound argument small fits fits' in
      let (bytes, answers, decodes) = answer-replied in
      ap (λ o. clnt_call o (decode_image_out xdr)) puts
      ∙ delivers.success arguments bytes dst (decode_image_out xdr)
          (serve-answer rpc_mt arguments bytes gets answers) decodes

  minify_via_rpc-remote :
      minify_via_rpc (minifyjpeg_proc_1 xdr clnt_call src_len dst_len) src
      ≡ with_answer (length src) (0, some dst)
  unfolding minify_via_rpc
  minify_via_rpc-remote =
      ap (λ s. with_answer (length src) (minifyjpeg_proc_1 xdr clnt_call src_len dst_len s))
        (take-eq_self (length src % 2 ^ 32) src (omega arith))
      ∙ ap (with_answer (length src)) minifyjpeg_proc_1_lem

-- With either service, and whatever the two `int` fields that the client leaves unassigned hold: if the
-- scaled image of a source below 4 GB is no longer than the source, `minify_via_rpc` returns success and
-- the scaled image. This holds of XDR primitives that read what they wrote, and of an RPC library that
-- delivers the answers of the service.
pub minify_via_rpc-serve_shorter :
    (rpc_mt : Bool) (xdr : Primitives) (magick : Library) (clnt_call : ClntCall) (sound : IsXdr xdr)
    (delivers : Delivers (serve rpc_mt xdr magick) clnt_call) (src_len dst_len : ℕ)
    (src dst : Bytes)
    → src_len < 2 ^ 32
    → dst_len < 2 ^ 32
    → length src < 2 ^ 32
    → magickminify (magick (not rpc_mt)) src ≡ minified dst
    → length dst ≤ length src
    → minify_via_rpc (minifyjpeg_proc_1 xdr clnt_call src_len dst_len) src ≡ returned 0 (some dst)
minify_via_rpc-serve_shorter mt xdr magick clnt_call sound delivers a b src dst fits fits' small
      scales shorter =
    minify_via_rpc-remote mt xdr magick clnt_call sound delivers a b src dst fits fits' small
      (omega (arith, shorter)) scales
    ∙ ap (λ t. if t then returned 0 (some dst) else overflow)
        (le→leb (length dst) (length src) shorter)

-- With either service, and whatever the two `int` fields that the client leaves unassigned hold: if the
-- scaled image of a source is longer than the source and below 4 GB, the answer is decoded past the end
-- of the client's buffer. This holds of XDR primitives that read what they wrote, and of an RPC library
-- that delivers the answers of the service.
pub minify_via_rpc-serve_longer :
    (rpc_mt : Bool) (xdr : Primitives) (magick : Library) (clnt_call : ClntCall) (sound : IsXdr xdr)
    (delivers : Delivers (serve rpc_mt xdr magick) clnt_call) (src_len dst_len : ℕ)
    (src dst : Bytes)
    → src_len < 2 ^ 32
    → dst_len < 2 ^ 32
    → length dst < 2 ^ 32
    → magickminify (magick (not rpc_mt)) src ≡ minified dst
    → length src < length dst
    → minify_via_rpc (minifyjpeg_proc_1 xdr clnt_call src_len dst_len) src ≡ overflow
minify_via_rpc-serve_longer mt xdr magick clnt_call sound delivers a b src dst fits fits' small
      scales longer =
    minify_via_rpc-remote mt xdr magick clnt_call sound delivers a b src dst fits fits'
      (omega (arith, longer)) small scales
    ∙ ap (λ t. if t then returned 0 (some dst) else overflow)
        (lt→leb (length src) (length dst) longer)
