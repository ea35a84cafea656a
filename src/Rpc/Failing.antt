-- ===== src/Rpc/Failing.antt =====
-- What becomes of the services of gios-spr-2018-pr4-master when ImageMagick fails.
use intro_to_os.Base.{not, ◌^◌, ◌≡◌, ◌<◌, refl, Bool, true, false, none, some, length, ap, ◌∙◌}
use intro_to_os.Text.{Bytes}
use intro_to_os.Rpc.Xdr.{
  Primitives, IsXdr, ImageIn, encode_image_in, decode_image_in, decode-encode_image_in,
}
use intro_to_os.Rpc.Image.{Magick, Minified, magickminify, with_image, with_resize}
use intro_to_os.Rpc.Dispatch.{
  Library, replied, replied_void, no_procedure, cannot_decode, system_error, silent, Answer,
  stopped, minifyjpeg_proc_1_svc, with_dst_len, answer_with, answer, finish, with_args,
  minifyjpeg_prog_1, boss_decode, with_queued, queue_and_answer,
}
use intro_to_os.Rpc.Remote.{serve}

finish-true : (a : Answer) → a ≡ finish true a
finish-true (replied bytes) = refl
finish-true replied_void = refl
finish-true no_procedure = refl
finish-true cannot_decode = refl
finish-true system_error = refl
finish-true silent = refl
finish-true (stopped status before) = refl
finish-true Answer.undefined = refl

serve-cases :
    (mt : Bool) (xdr : Primitives) (magick : Library) (arguments : Bytes) (objp : ImageIn)
    (result : Minified)
    → decode_image_in xdr arguments ≡ some objp
    → magickminify (magick (not mt)) objp.src ≡ result
    → serve mt xdr magick arguments
      ≡ finish true (answer_with xdr magick true (with_dst_len result))
unfolding minifyjpeg_prog_1 queue_and_answer boss_decode answer minifyjpeg_proc_1_svc
serve-cases false xdr magick arguments objp result decodes scales =
    ap (with_args xdr magick true true) decodes
    ∙ ap (λ r. finish true (answer_with xdr magick true (with_dst_len r))) scales
serve-cases true xdr magick arguments objp result decodes scales =
    ap (with_queued xdr magick true) decodes
    ∙ ap (λ r. answer_with xdr magick true (with_dst_len r)) scales
    ∙ finish-true (answer_with xdr magick true (with_dst_len result))

-- What becomes of the service where ImageMagick gives no scaled image.
pub data Fails (magick : Magick) (src : Bytes) : Answer → Type 1 where
  no_image : magick.blob_to_image src ≡ none → Fails magick src (stopped 1 none)
  no_resize :
      (image : magick.Image)
      → magick.blob_to_image src ≡ some image
      → magick.minify_image image ≡ none
      → Fails magick src Answer.undefined

Fails-magickminify :
    (xdr : Primitives) (library : Library) (magick : Magick) (src : Bytes) (end : Answer)
    → Fails magick src end
    → finish true (answer_with xdr library true (with_dst_len (magickminify magick src))) ≡ end
unfolding magickminify
Fails-magickminify xdr library magick src _ (no_image reads) =
    ap (λ i. finish true (answer_with xdr library true (with_dst_len (with_image magick i)))) reads
Fails-magickminify xdr library magick src _ (no_resize image reads scales) =
    ap (λ i. finish true (answer_with xdr library true (with_dst_len (with_image magick i)))) reads
    ∙ ap (λ r. finish true (answer_with xdr library true (with_dst_len (with_resize magick r))))
        scales

-- A request whose text is below 4 GB and no image ends the process of either service with status 1,
-- unanswered, whatever the two `int` fields of the request are. With an image that cannot be scaled the
-- service is undefined.
pub serve-Fails :
    (rpc_mt : Bool) (xdr : Primitives) (magick : Library) (sound : IsXdr xdr) (objp : ImageIn)
    (end : Answer)
    → objp.src_len < 2 ^ 32
    → objp.dst_len < 2 ^ 32
    → length objp.src < 2 ^ 32
    → Fails (magick (not rpc_mt)) objp.src end
    → (arguments : Bytes) × (encode_image_in xdr objp ≡ some arguments)
      × (serve rpc_mt xdr magick arguments ≡ end)
serve-Fails mt xdr magick sound objp end fits fits' small fails =
    let (arguments, puts, gets) = decode-encode_image_in xdr sound objp small fits fits' in
    (
      arguments,
      puts,
      serve-cases mt xdr magick arguments objp (magickminify (magick (not mt)) objp.src) gets refl
          ∙ Fails-magickminify xdr magick (magick (not mt)) objp.src end fails,
    )
