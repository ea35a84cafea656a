-- ===== src/Rpc/Image.antt =====
-- magickminify.c and magickminify_test.c of gios-spr-2018-pr4-master. ImageMagick is a parameter.
use intro_to_os.Base.{ℕ, List, [], ◌∷◌, Option, none, some, length, ltb, if◌then◌else◌}
use intro_to_os.Text.{Bytes}

-- The calls of ImageMagick: an image in memory from a text and back, the image at half its size, and
-- the file that an image is read from. `none` is NULL; for an image that it cannot write `ImageToBlob`
-- gives NULL and the length 0, the empty text. What `CatchException` prints is left out.
pub record Magick : Type 1 where
  pub Image : Type 0
  pub blob_to_image : Bytes → Option Image
  pub minify_image : Image → Option Image
  pub image_to_blob : Image → Bytes
  pub read_image : (filename : Bytes) → Option Image

-- How a call ends: with a text, by `exit`, or with a NULL image in the hands of ImageMagick or of the
-- program, which is undefined.
pub data Minified : Type 0 where
  minified : Bytes → Minified
  exited : ℕ → Minified
  undefined : Minified

module _ (magick : Magick) where
  open magick use {Image, blob_to_image, minify_image, image_to_blob, read_image}

  -- The test behind `MinifyImage` is on `image` again, and not on `resize`.
  abbrev pub with_resize : (resize : Option Image) → Minified
  with_resize none = undefined
  with_resize (some resize) = minified (image_to_blob resize)

  abbrev pub with_image : (image : Option Image) → Minified
  with_image none = exited 1
  with_image (some image) = with_resize (minify_image image)

  unfoldable pub magickminify : (src : Bytes) → Minified
  magickminify src = with_image (blob_to_image src)

  -- How the test program ends: with the files that it wrote, by `exit`, or in undefined behaviour.
  pub data Tested : Type 0 where
    wrote : (filename : Bytes) → Image → Tested
    failed : ℕ → Tested
    overflow undefined : Tested

  -- `strcpy` into `resize->filename`, and `WriteImage`.
  abbrev pub write_resize : (room : ℕ) → (target : Bytes) → (resize : Option Image) → Tested
  write_resize room target none = Tested.undefined
  write_resize room target (some resize) =
      if ltb (length target) room then wrote target resize else overflow

  abbrev pub with_dst : (room : ℕ) → (target : Bytes) → Minified → Tested
  with_dst room target (minified dst) = write_resize room target (blob_to_image dst)
  with_dst room target (exited status) = failed status
  with_dst room target Minified.undefined = Tested.undefined

  abbrev pub with_source : (room : ℕ) → (target : Bytes) → (image : Option Image) → Tested
  with_source room target none = failed 1
  with_source room target (some image) = with_dst room target (magickminify (image_to_blob image))

  -- `main` of magickminify_test.c. `room` is the length of a `filename` in ImageMagick. Fewer than two
  -- arguments are NULL, which `strcpy` reads.
  unfoldable pub test_main : (room : ℕ) → (arguments : List Bytes) → Tested
  unfolding magickminify
  test_main room [] = Tested.undefined
  test_main room (source ∷ []) =
      if ltb (length source) room
      then (elim (read_image source) [ none ↦ failed 1 | some image ↦ Tested.undefined ])
      else overflow
  test_main room (source ∷ target ∷ arguments) =
      if ltb (length source) room then with_source room target (read_image source) else overflow
