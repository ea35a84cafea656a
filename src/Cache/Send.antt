-- ===== src/Cache/Send.antt =====
-- What the loop of cache/handle_with_cache.c and server/handle_with_file.c sends.
use intro_to_os.Base.{
  ℕ, ◌+◌, ◌-◌, ◌≡◌, ◌<◌, ◌≤◌, refl, Bool, true, false, [], ◌∷◌, ◌++◌, List, Option, none, some,
  length, length-append, take, drop, ltb, lt→ltb, le→ltb, ltb→le, at_most, if◌then◌else◌, ==_refl,
  ==_iff, All, ap, sym, ◌∙◌, arith, append-take-drop, length-take, take-eq_self, drop-append_self,
  length-drop, Bool-cases, inl, inr,
}
use mathlib.Core.List.{append-nil}
use mathlib.Core.Path.{subst}
use intro_to_os.Text.{Bytes}
use intro_to_os.Cache.Chunks.{
  send_loop, Sent, sent, failed, sending, serves, read_count, read_count-pos, read_count-le,
  pos→test, left_over,
}

read_count-le_room : (k room left : ℕ) → read_count k room left ≤ room
read_count-le_room k room left = ground arith

at_most-le : (m n : ℕ) → n ≤ m → at_most m n ≡ n
at_most-le m n h = ground arith

send_loop-end :
    (room : ℕ) (pre : Bytes) (ks : List ℕ)
    → send_loop room (pre ++ []) (length (pre ++ [])) (serves room ks) (length pre) pre
      ≡ sent (pre ++ [])
unfolding send_loop
send_loop-end room pre [] =
    rw (le→ltb (length pre) (length (pre ++ [])) (omega (arith, length-append pre [])))
      (ap sent (sym (append-nil pre)))
send_loop-end room pre (k ∷ ks) =
    rw (le→ltb (length pre) (length (pre ++ [])) (omega (arith, length-append pre [])))
      (ap sent (sym (append-nil pre)))

module _ (room : ℕ) (pos : 0 < room) where
  -- A round that reads `n` bytes and sends them all.
  send_loop-round :
      (file : Bytes) (file_len done k m n : ℕ) (answers : List (Option ℕ × Option ℕ))
      (wire chunk : Bytes)
      → done < file_len
      → read_count k room (length file - done) ≡ n
      → 0 < n
      → at_most m n ≡ n
      → take n (take n (drop done file)) ≡ chunk
      → send_loop room file file_len ((some k, some m) ∷ answers) done wire
        ≡ send_loop room file file_len answers (done + n) (wire ++ chunk)
  unfolding send_loop
  send_loop-round file file_len done k m n answers wire chunk lt e some_read whole same =
      rw (lt→ltb done file_len lt, e, whole, pos→test n some_read, ==_refl n, same) refl

  -- The loop with `pre` sent and `rest` left.
  send_loop-rest :
      (pre rest : Bytes) (ks : List ℕ)
      → All (λ k. 0 < k) ks
      → length rest ≤ length ks
      → send_loop room (pre ++ rest) (length (pre ++ rest)) (serves room ks) (length pre) pre
        ≡ sent (pre ++ rest)
  send_loop-rest pre [] ks filled enough = send_loop-end room pre ks
  send_loop-rest pre (c ∷ rest) [] filled enough = absurd (omega arith)
  send_loop-rest pre (c ∷ rest) (k ∷ ks) filled enough =
      let n = read_count k room (length (c ∷ rest)) in
      let chunk = take n (c ∷ rest) in
      let some_read = read_count-pos k room (length (c ∷ rest)) filled.0 pos (omega arith) in
      let taken = length-take n (c ∷ rest) (read_count-le k room (length (c ∷ rest))) in
      let file = pre ++ c ∷ rest in
      send_loop-round file (length file) (length pre) k room n (serves room ks) pre chunk
        (omega (arith, length-append pre (c ∷ rest)))
        (ap (read_count k room) (left_over pre (c ∷ rest))) some_read
        (at_most-le room n (read_count-le_room k room (length (c ∷ rest))))
        (ap (λ t. take n (take n t)) (drop-append_self pre (c ∷ rest))
          ∙ take-eq_self n (take n (c ∷ rest)) (omega (arith, taken)))
      ∙ ap (λ d. send_loop room file (length file) (serves room ks) d (pre ++ chunk))
          (omega (arith, length-append pre chunk, taken))
      ∙ subst
          (λ f.
            send_loop room f (length f) (serves room ks) (length (pre ++ chunk)) (pre ++ chunk)
            ≡ sent f)
          (append-take-drop pre (c ∷ rest) n)
          (send_loop-rest (pre ++ chunk) (drop n (c ∷ rest)) ks filled.1
            (omega (arith, length-drop n (c ∷ rest))))

  -- Whatever sizes the reads have, as long as each gives a byte and there are enough of them, the
  -- client gets the file, if each `gfs_send` takes its chunk.
  pub send_loop_lem :
      (file : Bytes) (ks : List ℕ)
      → All (λ k. 0 < k) ks
      → length file ≤ length ks
      → send_loop room file (length file) (serves room ks) 0 [] ≡ sent file
  send_loop_lem file ks = send_loop-rest [] file ks

-- Where the loop ends without a failure, the wire satisfies `P`.
abbrev pub OnSent : (Bytes → Type 0) → Sent → Type 0
OnSent P (sent wire) = P wire
OnSent P (failed wire) = Unit
OnSent P (sending wire) = Unit

-- The loop is at its end, or has not read anything yet.
nothing_left : (pre rest : Bytes) → length (pre ++ rest) ≤ length pre → pre ≡ pre ++ rest
nothing_left pre [] h = sym (append-nil pre)
nothing_left pre (c ∷ rest) h = absurd (omega (arith, length-append pre (c ∷ rest)))

at_end :
    (pre rest : Bytes) (more : Sent)
    → OnSent (λ wire. wire ≡ pre ++ rest) more
    → OnSent
        (λ wire. wire ≡ pre ++ rest)
        (if ltb (length pre) (length (pre ++ rest)) then more else sent pre)
at_end pre rest more h = elim (Bool-cases (ltb (length pre) (length (pre ++ rest)))) [
  | inl going ↦ rw going h
  | inr over ↦ rw over (nothing_left pre rest (ltb→le _ _ over))
]

failed_or :
    (P : Bytes → Type 0) (b : Bool) (wire : Bytes) (more : Sent)
    → OnSent P more
    → OnSent P (if b then failed wire else more)
failed_or P true wire more h = tt
failed_or P false wire more h = h

or_failed :
    (P : Bytes → Type 0) (b : Bool) (wire : Bytes) (more : Sent)
    → (b ≡ true → OnSent P more)
    → OnSent P (if b then more else failed wire)
or_failed P true wire more h = h refl
or_failed P false wire more h = tt

same_chunk :
    (m n : ℕ) (chunk rest : Bytes)
    → at_most m n ≡ n
    → length chunk ≤ n
    → take n rest ≡ chunk
    → chunk ≡ take (at_most m n) (take n rest)
same_chunk m n chunk rest whole short same =
    sym (ap (λ k. take k (take n rest)) whole ∙ ap (take n) same ∙ take-eq_self n chunk short)

module _ (room : ℕ) where
  send_loop-OnSent :
      (pre rest : Bytes) (answers : List (Option ℕ × Option ℕ))
      → OnSent
          (λ wire. wire ≡ pre ++ rest)
          (send_loop room (pre ++ rest) (length (pre ++ rest)) answers (length pre) pre)
  unfolding send_loop
  send_loop-OnSent pre rest [] = at_end pre rest (sending pre) tt
  send_loop-OnSent pre rest ((none, s) ∷ answers) = at_end pre rest (failed pre) tt
  send_loop-OnSent pre rest ((some k, none) ∷ answers) = at_end pre rest (failed pre) tt
  send_loop-OnSent pre rest ((some k, some m) ∷ answers) =
      let file = pre ++ rest in
      let n = read_count k room (length file - length pre) in
      let chunk = take n rest in
      let P = λ (wire : Bytes). wire ≡ file in
      let loop = λ (d : ℕ) (w : Bytes). send_loop room file (length file) answers d w in
      let few = read_count-le k room (length file - length pre) in
      let taken = length-take n rest (omega (arith, few, left_over pre rest)) in
      at_end pre rest _ (
        failed_or P _ pre _ (
          or_failed P _ _ _ λ whole.
            subst (λ t. OnSent P (loop (length pre + n) (pre ++ t)))
              (same_chunk m n chunk (drop (length pre) file) ((==_iff _ _).0 whole)
                (omega (arith, taken)) (ap (take n) (drop-append_self pre rest)))
              (subst (λ d. OnSent P (loop d (pre ++ chunk)))
                (omega (arith, length-append pre chunk, taken))
                (subst
                  (λ f.
                    OnSent (λ wire. wire ≡ f)
                      (send_loop room f (length f) answers (length (pre ++ chunk)) (pre ++ chunk)))
                  (append-take-drop pre rest n)
                  (send_loop-OnSent (pre ++ chunk) (drop n rest) answers)))))

  -- Whatever the reads and the sends give: if the loop ends without a failure, the client has got
  -- exactly the file.
  pub send_loop-exact :
      (file : Bytes) (answers : List (Option ℕ × Option ℕ))
      → OnSent (λ wire. wire ≡ file) (send_loop room file (length file) answers 0 [])
  send_loop-exact file answers = send_loop-OnSent [] file answers
