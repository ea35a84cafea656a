-- ===== src/Web/Fetch.antt =====
-- What `handle_with_curl` of server/handle_with_curl.c sends, when `gfs_send` takes all of the body.
use intro_to_os.Base.{
  ℕ, ◌+◌, ◌/◌, ◌==◌, ◌&&◌, ltb, ◌%◌, ◌^◌, ◌≡◌, ◌<◌, ◌≤◌, refl, suc, [], ◌∷◌, ◌++◌, List, Option,
  none, some, length, take, lt→ltb, le→ltb, at_most, if◌then◌else◌, ap, ◌∙◌, sym, Bool, true, map,
  length-append, take-eq_self, arith,
}
use mathlib.Core.List.{append_assoc, append-nil}
use intro_to_os.Text.{Bytes}
use intro_to_os.Web.Curl.{
  Memory, BufferStruct, write_memory_callback, perform, empty, finished, send_loop, to_double,
  round_loop, served, with_url, with_handle, Transfer, handle_with_curl, bufsize, with_length,
}
use intro_to_os.Web.File.{join}

-- The chunks, each of which finds room.
abbrev pub stored : List Bytes → List (Bool × Bytes)
stored chunks = map (λ chunk. (true, chunk)) chunks

abbrev pub concat : List Bytes → Bytes
concat [] = []
concat (chunk ∷ chunks) = chunk ++ concat chunks

map-append : (xs ys : Bytes) → map some (xs ++ ys) ≡ map some xs ++ map some ys
map-append [] ys = refl
map-append (x ∷ xs) ys = ap (λ zs. some x ∷ zs) (map-append xs ys)

length-map : (xs : Bytes) → length (map some xs) ≡ length xs
length-map [] = refl
length-map (x ∷ xs) = ap suc (length-map xs)

-- The buffer with these bytes.
abbrev pub holding : Bytes → BufferStruct
holding text = record { buffer = some (map some text); size = length text }

perform-holding :
    (text : Bytes) (chunks : List Bytes)
    → perform (stored chunks) (holding text) ≡ holding (text ++ concat chunks)
unfolding perform write_memory_callback
perform-holding text [] = ap holding (sym (append-nil text))
perform-holding text (chunk ∷ chunks) =
    ap
      (λ m. perform (stored chunks) (record { buffer = some m; size = length text + length chunk }))
      (sym (map-append text chunk))
    ∙ ap
        (λ n.
          perform (stored chunks) (record { buffer = some (map some (text ++ chunk)); size = n }))
        (sym (length-append text chunk))
    ∙ perform-holding (text ++ chunk) chunks
    ∙ ap holding (append_assoc text chunk (concat chunks))

-- If `realloc` never fails, the buffer has the chunks in order.
perform-stored :
    (chunk : Bytes) (chunks : List Bytes)
    → perform (stored (chunk ∷ chunks)) empty ≡ holding (concat (chunk ∷ chunks))
unfolding perform write_memory_callback
perform-stored chunk chunks =
    ap (λ n. perform (stored chunks) (record { buffer = some (map some chunk); size = n }))
      (omega arith)
    ∙ perform-holding chunk chunks

take-all :
    (m : ℕ) (memory : Memory) → length memory ≤ m → take (at_most m (length memory)) memory ≡ memory
take-all m memory h = take-eq_self (at_most m (length memory)) memory (ground arith)

-- Up to 2^53 a `double` is exact.
to_double-exact : (n : ℕ) → n < 2 ^ 53 → to_double n ≡ n
unfolding to_double round_loop
to_double-exact n small =
    let whole : n / 1 ≡ n = omega arith in
    let nothing : n % 1 ≡ 0 = omega arith in
    rw (whole, lt→ltb n (2 ^ 53) small, nothing, ltb, ◌&&◌, ◌==◌) (omega arith)

-- With everything sent.
send_loop-end :
    (memory wire : Memory) (cl done : ℕ) (answers : List (Option ℕ))
    → cl ≤ done
    → done < 2 ^ 53
    → send_loop memory cl answers done wire ≡ finished wire done
unfolding send_loop
send_loop-end memory wire cl done [] h small =
    rw (to_double-exact done small, le→ltb done cl h) refl
send_loop-end memory wire cl done (none ∷ answers) h small =
    rw (to_double-exact done small, le→ltb done cl h) refl
send_loop-end memory wire cl done (some m ∷ answers) h small =
    rw (to_double-exact done small, le→ltb done cl h) refl

-- A round of the loop.
send_loop-round :
    (memory wire : Memory) (cl done m : ℕ) (answers : List (Option ℕ))
    → done < cl
    → done < 2 ^ 53
    → send_loop memory cl (some m ∷ answers) done wire
      ≡ send_loop memory cl answers
          ((done + at_most m (length memory)) % 2 ^ 64)
          (wire ++ take (at_most m (length memory)) memory)
unfolding send_loop
send_loop-round memory wire cl done m answers h small =
    rw (to_double-exact done small, lt→ltb done cl h) refl

-- One send that takes the whole buffer ends the loop.
send_loop-last :
    (memory wire : Memory) (done m : ℕ) (answers : List (Option ℕ))
    → done < length memory
    → length memory ≤ m
    → done + length memory < 2 ^ 53
    → send_loop memory (length memory) (some m ∷ answers) done wire
      ≡ finished (wire ++ memory) (done + length memory)
send_loop-last memory wire done m answers lt enough small =
    let n : (done + at_most m (length memory)) % 2 ^ 64 ≡ done + length memory = ground arith in
    send_loop-round memory wire (length memory) done m answers lt (omega arith)
    ∙ ap
        (λ w.
          send_loop memory (length memory) answers ((done + at_most m (length memory)) % 2 ^ 64)
            (wire ++ w))
        (take-all m memory enough)
    ∙ ap (λ d. send_loop memory (length memory) answers d (wire ++ memory)) n
    ∙ send_loop-end memory (wire ++ memory) (length memory) (done + length memory) answers
        (omega arith) small

-- libcurl gets all of a body in these chunks, and knows its length.
abbrev pub complete : Bytes → List Bytes → Transfer
complete chunk chunks = record {
  handle = true;
  performed = true;
  chunks = stored (chunk ∷ chunks);
  info = some (some (length (concat (chunk ∷ chunks))));
}

module _ (data_dir path chunk : Bytes) (chunks : List Bytes) (curl : Bytes → Transfer)
    (fits : length (data_dir ++ path) < bufsize)
    (gets : curl (data_dir ++ path) ≡ complete chunk chunks)
    (filled : 0 < length (concat (chunk ∷ chunks)))
    (small : length (concat (chunk ∷ chunks)) < 2 ^ 53) where
  -- The handler asks for the header with the length of the body, and sends from the whole buffer.
  handle_with_curl-loop :
      (answers : List (Option ℕ))
      → handle_with_curl data_dir path curl answers
        ≡ served (length (concat (chunk ∷ chunks))) (
            send_loop
              (map some (concat (chunk ∷ chunks)))
              (length (concat (chunk ∷ chunks)))
              answers
              0
              [])
  unfolding handle_with_curl join
  handle_with_curl-loop answers =
      ap (λ b. with_url (if b then some (data_dir ++ path) else none) curl answers)
        (lt→ltb _ _ fits)
      ∙ ap (λ t. with_handle t.handle t.performed t.info (perform t.chunks empty) answers) gets
      ∙ ap (λ m. with_length (some (some (length (concat (chunk ∷ chunks))))) m answers)
          (perform-stored chunk chunks)

  -- For a URL that fits the buffer, and a body that is not empty, is shorter than 2^53 bytes, and
  -- arrives whole with its length known: if `realloc` never fails and the first `gfs_send` takes
  -- the whole body, the client gets the header with the length of the body, and then the body.
  pub handle_with_curl-full :
      (m : ℕ) (answers : List (Option ℕ))
      → length (concat (chunk ∷ chunks)) ≤ m
      → handle_with_curl data_dir path curl (some m ∷ answers)
        ≡ served
            (length (concat (chunk ∷ chunks)))
            (finished (map some (concat (chunk ∷ chunks))) (length (concat (chunk ∷ chunks))))
  handle_with_curl-full m answers enough =
      let text = concat (chunk ∷ chunks) in
      handle_with_curl-loop (some m ∷ answers)
      ∙ ap (λ n. served (length text) (send_loop (map some text) n (some m ∷ answers) 0 []))
          (sym (length-map text))
      ∙ ap (served (length text)) (
          send_loop-last (map some text) [] 0 m answers (omega (arith, length-map text))
            (omega (arith, length-map text)) (omega (arith, length-map text)))
      ∙ ap (λ n. served (length text) (finished (map some text) n)) (omega (arith, length-map text))
