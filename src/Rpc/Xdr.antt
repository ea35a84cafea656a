-- ===== src/Rpc/Xdr.antt =====
-- `xdr_image_in` and `xdr_image_out` of minifyjpeg_xdr.c in gios-spr-2018-pr4-master, which rpcgen made of
-- minifyjpeg.x. Each of them writes or reads, as the stream says. The primitives of the XDR library are
-- parameters.
use intro_to_os.Base.{ℕ, ◌^◌, ◌≡◌, ◌<◌, ◌++◌, [], refl, Option, none, some, length, ap, sym, ◌∙◌}
use mathlib.Core.List.{append-nil}
use intro_to_os.Text.{Bytes}

-- `xdr_bytes` with the limit `~0`, and `xdr_int`: what they write, `none` if the stream does not take
-- it, and what they read, with the rest of the stream, `none` if it is not there.
pub record Primitives : Type 0 where
  pub put_bytes : Bytes → Option Bytes
  pub get_bytes : Bytes → Option (Bytes × Bytes)
  pub put_int : ℕ → Option Bytes
  pub get_int : Bytes → Option (ℕ × Bytes)

-- What RFC 4506 says: a text below 4 GB and the pattern of an `int` are written, and read again from
-- the front of any stream that begins with what was written.
pub record IsXdr (xdr : Primitives) : Type 0 where
  pub bytes_back :
      (text rest : Bytes)
      → length text < 2 ^ 32
      → (written : Bytes) × (xdr.put_bytes text ≡ some written)
        × (xdr.get_bytes (written ++ rest) ≡ some (text, rest))
  pub int_back :
      (w : ℕ) (rest : Bytes)
      → w < 2 ^ 32
      → (written : Bytes) × (xdr.put_int w ≡ some written)
        × (xdr.get_int (written ++ rest) ≡ some (w, rest))

-- struct image_in
pub record ImageIn : Type 0 where
  pub src : Bytes
  pub src_len : ℕ
  pub dst_len : ℕ

abbrev pub joined : Option Bytes → Option Bytes → Option Bytes
joined none b = none
joined (some a) none = none
joined (some a) (some b) = some (a ++ b)

module _ (xdr : Primitives) where
  -- `xdr_image_in` on a stream that is written: `none` for FALSE.
  unfoldable pub encode_image_in : ImageIn → Option Bytes
  encode_image_in objp =
      joined (xdr.put_bytes objp.src) (joined (xdr.put_int objp.src_len) (xdr.put_int objp.dst_len))

  abbrev pub with_dst_len : (src : Bytes) → (src_len : ℕ) → Option (ℕ × Bytes) → Option ImageIn
  with_dst_len src src_len none = none
  with_dst_len src src_len (some (dst_len, rest)) =
      some (record { src = src; src_len = src_len; dst_len = dst_len })

  abbrev pub with_src_len : (src : Bytes) → Option (ℕ × Bytes) → Option ImageIn
  with_src_len src none = none
  with_src_len src (some (src_len, rest)) = with_dst_len src src_len (xdr.get_int rest)

  abbrev pub with_src : Option (Bytes × Bytes) → Option ImageIn
  with_src none = none
  with_src (some (src, rest)) = with_src_len src (xdr.get_int rest)

  -- `xdr_image_in` on a stream that is read.
  unfoldable pub decode_image_in : Bytes → Option ImageIn
  decode_image_in stream = with_src (xdr.get_bytes stream)

  -- `xdr_image_out`, both ways: the struct holds one text.
  abbrev pub encode_image_out : (dst : Bytes) → Option Bytes
  encode_image_out dst = xdr.put_bytes dst

  abbrev pub with_dst : Option (Bytes × Bytes) → Option Bytes
  with_dst none = none
  with_dst (some (dst, rest)) = some dst

  abbrev pub decode_image_out : Bytes → Option Bytes
  decode_image_out stream = with_dst (xdr.get_bytes stream)

  -- An `image_in` whose text is below 4 GB is written, and read again as it was.
  pub decode-encode_image_in :
      (sound : IsXdr xdr) (objp : ImageIn)
      → length objp.src < 2 ^ 32
      → objp.src_len < 2 ^ 32
      → objp.dst_len < 2 ^ 32
      → (written : Bytes) × (encode_image_in objp ≡ some written)
        × (decode_image_in written ≡ some objp)
  unfolding encode_image_in decode_image_in
  decode-encode_image_in sound objp small a b =
      let (last, puts_last, gets_last) = sound.int_back objp.dst_len [] b in
      let (middle, puts_middle, gets_middle) = sound.int_back objp.src_len last a in
      let (first, puts_first, gets_first) = sound.bytes_back objp.src (middle ++ last) small in
      let at_end : xdr.get_int last ≡ some (objp.dst_len, []) =
        ap xdr.get_int (sym (append-nil last)) ∙ gets_last in
      (
        first ++ (middle ++ last),
        rw (puts_first, puts_middle, puts_last) refl,
        ap with_src gets_first
            ∙ ap (with_src_len objp.src) gets_middle
            ∙ ap (with_dst_len objp.src objp.src_len) at_end,
      )

  -- An answer below 4 GB is written, and read again as it was.
  pub decode-encode_image_out :
      (sound : IsXdr xdr) (dst : Bytes)
      → length dst < 2 ^ 32
      → (written : Bytes) × (encode_image_out dst ≡ some written)
        × (decode_image_out written ≡ some dst)
  decode-encode_image_out sound dst small =
      let (written, puts, gets) = sound.bytes_back dst [] small in
      (
        written,
        puts,
        ap (λ s. with_dst (xdr.get_bytes s)) (sym (append-nil written)) ∙ ap with_dst gets,
      )
