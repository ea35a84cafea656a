-- ===== src/Cache/Chunks.antt =====
-- The loops that move a file in chunks: into the segment (cache/simplecached.c), and from a file or
-- the segment to the client (cache/handle_with_cache.c, server/handle_with_file.c).
use intro_to_os.Base.{
  ℕ, ◌+◌, ◌-◌, ◌≡◌, ◌<◌, ◌≤◌, refl, false, [], ◌∷◌, ◌++◌, List, Option, none, some, length,
  length-append, take, drop, ltb, lt→ltb, le→ltb, at_most, if◌then◌else◌, ◌==◌, All, map, ap, sym,
  ◌∙◌, arith, append-take-drop, length-take, drop-append, drop-append_self, take-append_self,
  length-drop,
}
use mathlib.Core.List.{append_assoc}
use mathlib.Core.Path.{subst}
use intro_to_os.Text.{Bytes}

-- `memcpy` of the chunk to this offset.
abbrev pub write_at : ℕ → (chunk segment : Bytes) → Bytes
write_at at chunk segment = take at segment ++ (chunk ++ drop (at + length chunk) segment)

-- What `pread` gives that is ready to give `k` bytes, with room for `room` of them and `left` bytes
-- behind the offset.
abbrev pub read_count : (k room left : ℕ) → ℕ
read_count k room left = at_most k (at_most room left)

-- How the daemon's loop ends, with the segment; `copying` is a loop that still reads.
pub data Copied : Type 0 where
  copied read_error copying : Bytes → Copied

-- The loop over `bytes_transferred`, here `done`. Each answer is that of one `pread`, `none` for -1.
unfoldable pub copy_loop :
    (room : ℕ) (file : Bytes) → List (Option ℕ) → (done : ℕ) → (segment : Bytes) → Copied
copy_loop room file [] done segment =
    if ltb done (length file) then copying segment else copied segment
copy_loop room file (none ∷ answers) done segment =
    if ltb done (length file) then read_error segment else copied segment
copy_loop room file (some k ∷ answers) done segment =
    let n = read_count k room (length file - done) in
    let more =
      copy_loop room file answers (done + n) (write_at done (take n (drop done file)) segment) in
    if ltb done (length file) then (if n == 0 then read_error segment else more) else copied segment

-- How a loop that serves the client ends: with the bytes that `gfs_send` took, as a count of bytes,
-- as a failure, or still at work.
pub data Sent : Type 0 where
  sent failed sending : Bytes → Sent

-- The loop of the handlers: each answer is that of one `pread` or `read` and that of the `gfs_send`
-- behind it, of which the latter is not used if the first fails.
unfoldable pub send_loop :
    (room : ℕ) (file : Bytes) (file_len : ℕ)
    → List (Option ℕ × Option ℕ)
    → (done : ℕ) → (wire : Bytes) → Sent
send_loop room file file_len [] done wire = if ltb done file_len then sending wire else sent wire
send_loop room file file_len ((none, s) ∷ answers) done wire =
    if ltb done file_len then failed wire else sent wire
send_loop room file file_len ((some k, none) ∷ answers) done wire =
    if ltb done file_len then failed wire else sent wire
send_loop room file file_len ((some k, some m) ∷ answers) done wire =
    let n = read_count k room (length file - done) in
    let took = take (at_most m n) (take n (drop done file)) in
    let more = send_loop room file file_len answers (done + n) (wire ++ took) in
    if ltb done file_len
    then (if n == 0 then failed wire else if at_most m n == n then more else failed (wire ++ took))
    else sent wire

abbrev pub reads : List ℕ → List (Option ℕ)
reads ks = map some ks

-- Reads of these sizes, each followed by a `gfs_send` that takes up to a whole buffer.
abbrev pub serves : (room : ℕ) → List ℕ → List (Option ℕ × Option ℕ)
serves room ks = map (λ k. (some k, some room)) ks

pub read_count-pos : (k room left : ℕ) → 0 < k → 0 < room → 0 < left → 0 < read_count k room left
read_count-pos k room left a b c = ground arith

pub read_count-le : (k room left : ℕ) → read_count k room left ≤ left
read_count-le k room left = ground arith

write_at-append :
    (pre tail chunk : Bytes) (n : ℕ)
    → length chunk ≡ n
    → write_at (length pre) chunk (pre ++ tail) ≡ (pre ++ chunk) ++ drop n tail
write_at-append pre tail chunk n e =
    ap (λ t. t ++ (chunk ++ drop (length pre + length chunk) (pre ++ tail)))
      (take-append_self pre tail)
    ∙ ap (λ t. pre ++ (chunk ++ t)) (drop-append pre tail (length chunk) ∙ ap (λ k. drop k tail) e)
    ∙ sym (append_assoc pre chunk (drop n tail))

pub left_over : (pre rest : Bytes) → length (pre ++ rest) - length pre ≡ length rest
left_over pre rest = omega (arith, length-append pre rest)

pub pos→test : (n : ℕ) → 0 < n → (n == 0) ≡ false
pos→test n h = ground arith

copy_loop-end :
    (room : ℕ) (pre : Bytes) (ks : List ℕ)
    → copy_loop room (pre ++ []) (reads ks) (length pre) (pre ++ []) ≡ copied (pre ++ [])
unfolding copy_loop
copy_loop-end room pre [] =
    rw (le→ltb (length pre) (length (pre ++ [])) (omega (arith, length-append pre []))) refl
copy_loop-end room pre (k ∷ ks) =
    rw (le→ltb (length pre) (length (pre ++ [])) (omega (arith, length-append pre []))) refl

module _ (room : ℕ) (pos : 0 < room) where
  -- A round that reads `n` bytes.
  copy_loop-round :
      (file segment : Bytes) (done k n : ℕ) (answers : List (Option ℕ))
      → done < length file
      → read_count k room (length file - done) ≡ n
      → 0 < n
      → copy_loop room file (some k ∷ answers) done segment
        ≡ copy_loop room file answers (done + n) (write_at done (take n (drop done file)) segment)
  unfolding copy_loop
  copy_loop-round file segment done k n answers lt e some_read =
      rw (lt→ltb done (length file) lt, e, pos→test n some_read) refl

  -- The loop with `pre` done and `rest` left to do, on a segment whose end is `tail`.
  copy_loop-rest :
      (pre rest tail : Bytes) (ks : List ℕ)
      → length tail ≡ length rest
      → All (λ k. 0 < k) ks
      → length rest ≤ length ks
      → copy_loop room (pre ++ rest) (reads ks) (length pre) (pre ++ tail) ≡ copied (pre ++ rest)
  copy_loop-rest pre [] [] ks same filled enough = copy_loop-end room pre ks
  copy_loop-rest pre [] (c ∷ tail) ks same filled enough = absurd (omega arith)
  copy_loop-rest pre (c ∷ rest) tail [] same filled enough = absurd (omega arith)
  copy_loop-rest pre (c ∷ rest) tail (k ∷ ks) same filled enough =
      let n = read_count k room (length (c ∷ rest)) in
      let chunk = take n (c ∷ rest) in
      let some_read = read_count-pos k room (length (c ∷ rest)) filled.0 pos (omega arith) in
      let taken = length-take n (c ∷ rest) (read_count-le k room (length (c ∷ rest))) in
      let file = pre ++ c ∷ rest in
      copy_loop-round file (pre ++ tail) (length pre) k n (reads ks)
        (omega (arith, length-append pre (c ∷ rest)))
        (ap (read_count k room) (left_over pre (c ∷ rest))) some_read
      ∙ ap (λ s. copy_loop room file (reads ks) (length pre + n) s)
          (ap (λ t. write_at (length pre) (take n t) (pre ++ tail))
              (drop-append_self pre (c ∷ rest))
            ∙ write_at-append pre tail chunk n taken)
      ∙ ap (λ d. copy_loop room file (reads ks) d ((pre ++ chunk) ++ drop n tail))
          (omega (arith, length-append pre chunk, taken))
      ∙ subst
          (λ f.
            copy_loop room f (reads ks) (length (pre ++ chunk)) ((pre ++ chunk) ++ drop n tail)
            ≡ copied f)
          (append-take-drop pre (c ∷ rest) n)
          (copy_loop-rest (pre ++ chunk) (drop n (c ∷ rest)) (drop n tail) ks
            (omega (arith, length-drop n tail, length-drop n (c ∷ rest))) filled.1
            (omega (arith, length-drop n (c ∷ rest))))

  -- Whatever sizes the reads have, as long as each gives a byte and there are enough of them, the
  -- loop ends with the file in the segment.
  pub copy_loop_lem :
      (file segment : Bytes) (ks : List ℕ)
      → length segment ≡ length file
      → All (λ k. 0 < k) ks
      → length file ≤ length ks
      → copy_loop room file (reads ks) 0 segment ≡ copied file
  copy_loop_lem file segment ks = copy_loop-rest [] file segment ks
