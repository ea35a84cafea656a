-- ===== src/Tests/Remote.antt =====
-- Runs of the theorems on a call from the client through XDR and a service to ImageMagick and back, with
-- small stand-ins for the two libraries.
use intro_to_os.Base.{
  ℕ, ◌≡◌, ◌∙◌, ap, refl, Bool, true, false, [], ◌∷◌, ◌++◌, Option, none, some, length, take, drop,
  ltb, length-append, take-append_self, drop-append_self, if◌then◌else◌, arith,
}
use intro_to_os.Text.{Bytes, codes}
use intro_to_os.Tests.Workers.{
  five_rounds, five_rounds-IsRound, picture, one_picture, all_files, defaults_accepted,
  one_picture_read, one_client, a_is_picture, b_is_no_picture, is_picture,
}
use intro_to_os.Minify.Main.{defaults}
use intro_to_os.Minify.Program.{main}
use intro_to_os.Minify.Finished.{AllWritten}
use intro_to_os.Minify.Fair.{concat_turns}
use intro_to_os.Minify.Ended.{Finishes}
use intro_to_os.Minify.Remote.{Scalable, main-serve}
use intro_to_os.Rpc.Call.{Called, returned, overflow, minify_via_rpc}
use intro_to_os.Rpc.Xdr.{Primitives, IsXdr, ImageIn, encode_image_in}
use intro_to_os.Rpc.Image.{magickminify, minified}
use intro_to_os.Rpc.Dispatch.{Library, Answer, replied, stopped}
use intro_to_os.Rpc.Failing.{no_image, serve-Fails}
use intro_to_os.Rpc.Remote.{
  ClntCall, minifyjpeg_proc_1, Delivers, serve, minify_via_rpc-serve_shorter,
  minify_via_rpc-serve_longer,
}

-- A text behind its length, and a number as it is.
abbrev taken : ℕ → Bytes → Option (Bytes × Bytes)
taken n text = if ltb (length text) n then none else some (take n text, drop n text)

abbrev get_text : Bytes → Option (Bytes × Bytes)
get_text [] = none
get_text (n ∷ text) = taken n text

abbrev get_number : Bytes → Option (ℕ × Bytes)
get_number [] = none
get_number (n ∷ rest) = some (n, rest)

abbrev xdr : Primitives
xdr = record {
  put_bytes = λ text. some (length text ∷ text);
  get_bytes = get_text;
  put_int = λ n. some (n ∷ []);
  get_int = get_number;
}

not_short : (text rest : Bytes) → ltb (length (text ++ rest)) (length text) ≡ false
not_short text rest = ground (arith, length-append text rest)

taken_lem : (text rest : Bytes) → taken (length text) (text ++ rest) ≡ some (text, rest)
taken_lem text rest =
    ap
      (λ short.
        if short
        then none
        else some (take (length text) (text ++ rest), drop (length text) (text ++ rest)))
      (not_short text rest)
    ∙ ap (λ front. some (front, drop (length text) (text ++ rest))) (take-append_self text rest)
    ∙ ap (λ end. some (text, end)) (drop-append_self text rest)

xdr-IsXdr : IsXdr xdr
xdr-IsXdr = record {
  bytes_back = λ text rest small. (length text ∷ text, refl, taken_lem text rest);
  int_back = λ n rest small. (n ∷ [], refl, refl);
}

-- An image is a text that is not empty; it is scaled to this text.
abbrev image_of : Bytes → Option Bytes
image_of [] = none
image_of (byte ∷ text) = some (byte ∷ text)

abbrev magick : (scaled : Bytes) → Library
magick scaled inits = record {
  Image = Bytes;
  blob_to_image = image_of;
  minify_image = λ image. some scaled;
  image_to_blob = λ image. image;
  read_image = λ filename. none;
}

abbrev with_result : Option Bytes → ℕ × Option Bytes
with_result none = (2, none)
with_result (some text) = (0, some text)

abbrev with_reply : Answer → (decode : Bytes → Option Bytes) → ℕ × Option Bytes
with_reply (replied bytes) decode = with_result (decode bytes)
with_reply other decode = (5, none)

-- The network loses nothing.
abbrev clnt_call : (service : Bytes → Answer) → ClntCall
clnt_call service none decode = (1, none)
clnt_call service (some arguments) decode = with_reply (service arguments) decode

clnt_call-Delivers : (service : Bytes → Answer) → Delivers service (clnt_call service)
clnt_call-Delivers service = record {
  success = λ arguments bytes text decode answers decodes.
      ap (λ a. with_reply a decode) answers ∙ ap with_result decodes;
  garbled = λ arguments bytes decode answers fails.
      ap (λ a. with_reply a decode) answers ∙ ap with_result fails;
}

abbrev stub : (rpc_mt : Bool) → (scaled : Bytes) → Bytes → ℕ × Option Bytes
stub rpc_mt scaled = minifyjpeg_proc_1 xdr (clnt_call (serve rpc_mt xdr (magick scaled))) 7 9

scales :
    (scaled : Bytes) (inits : Bool)
    → magickminify (magick scaled inits) (codes "jpeg") ≡ minified scaled
unfolding magickminify
scales scaled inits = refl

minify_via_rpc-serve_shorter_example :
    minify_via_rpc (stub true (codes "j")) (codes "jpeg") ≡ returned 0 (some (codes "j"))
minify_via_rpc-serve_shorter_example =
    minify_via_rpc-serve_shorter true xdr (magick (codes "j"))
      (clnt_call (serve true xdr (magick (codes "j")))) xdr-IsXdr
      (clnt_call-Delivers (serve true xdr (magick (codes "j")))) 7 9 (codes "jpeg") (codes "j")
      (omega arith) (omega arith) (omega arith) (scales (codes "j") false) (omega arith)

minify_via_rpc-serve_longer_example :
    minify_via_rpc (stub false (codes "JPEGs")) (codes "jpeg") ≡ overflow
minify_via_rpc-serve_longer_example =
    minify_via_rpc-serve_longer false xdr (magick (codes "JPEGs"))
      (clnt_call (serve false xdr (magick (codes "JPEGs")))) xdr-IsXdr
      (clnt_call-Delivers (serve false xdr (magick (codes "JPEGs")))) 7 9 (codes "jpeg")
      (codes "JPEGs") (omega arith) (omega arith) (omega arith) (scales (codes "JPEGs") true)
      (omega arith)

-- An empty text is no image.
abbrev empty : ImageIn
empty = record { src = []; src_len = 7; dst_len = 9 }

serve-Fails_example :
    (arguments : Bytes) × (encode_image_in xdr empty ≡ some arguments)
    × (serve true xdr (magick (codes "j")) arguments ≡ stopped 1 none)
serve-Fails_example =
    serve-Fails true xdr (magick (codes "j")) xdr-IsXdr empty (stopped 1 none) (omega arith)
      (omega arith) (omega arith) (no_image refl)

abbrev called : Called → ℕ × Bytes
called (returned clnt_stat (some dst)) = (clnt_stat, dst)
called other = (1, [])

abbrev call : Bytes → ℕ × Bytes
call src = called (minify_via_rpc (stub false (codes "j")) src)

picture-Scalable :
    Scalable xdr
      (magick (codes "j"))
      (clnt_call (serve false xdr (magick (codes "j"))))
      xdr-IsXdr
      (clnt_call-Delivers (serve false xdr (magick (codes "j"))))
      7
      9
      (omega arith)
      (omega arith)
      call
      (λ src dst e. ap called e)
      (λ name. true)
      (λ name. codes "j")
      is_picture
      all_files
      picture
picture-Scalable = record {
  output = codes "b.jpg";
  source = codes "jpeg";
  named = refl;
  reads = refl;
  input = a_is_picture;
  apart = b_is_no_picture;
  writable = refl;
  scales = scales (codes "j") true;
  small = omega arith;
  shorter = omega arith;
}

main-serve_example :
    Finishes
      (AllWritten (λ name. true) call (λ name. codes "j") is_picture all_files (picture ∷ []))
      (main (λ name. true) call (λ i. true) (concat_turns five_rounds) all_files [] one_picture)
main-serve_example =
    main-serve xdr (magick (codes "j")) (clnt_call (serve false xdr (magick (codes "j")))) xdr-IsXdr
      (clnt_call-Delivers (serve false xdr (magick (codes "j")))) 7 9 (omega arith) (omega arith)
      call (λ src dst e. ap called e) (λ name. true) (λ name. codes "j") is_picture all_files
      (picture ∷ []) (λ i. true) five_rounds [] one_picture defaults defaults_accepted (omega arith)
      one_picture_read one_client (picture-Scalable, tt) five_rounds-IsRound (omega arith)
