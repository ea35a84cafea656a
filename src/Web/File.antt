-- ===== src/Web/File.antt =====
-- `handle_with_file` of server/handle_with_file.c in gios-spr-2018-pr3-master. `gfs_sendheader` and
-- `gfs_send` are those of a library without source: a handler is taken as the header that it asks
-- for and the bytes that it sends.
use intro_to_os.Base.{
  ℕ, ◌≡◌, ◌<◌, ◌≤◌, refl, [], ◌++◌, List, Option, none, some, length, ltb, lt→ltb, if◌then◌else◌,
  All, ap, ◌∙◌, Bool, true, false, arith,
}
use intro_to_os.Text.{Bytes}
use intro_to_os.Cache.Chunks.{Sent, sent, send_loop, serves}
use intro_to_os.Cache.Send.{send_loop_lem, send_loop-exact, OnSent}

abbrev pub bufsize : ℕ
bufsize = 8803

-- `strncpy` and `strncat` get the size of the whole buffer as their limit: what does not fit with its
-- NUL is written past the end (`none`).
unfoldable pub join : (room : ℕ) → (data_dir path : Bytes) → Option Bytes
join room data_dir path =
    if ltb (length (data_dir ++ path)) room then some (data_dir ++ path) else none

-- What `open` finds: nothing (ENOENT), another error, or a file that `fstat` can read or not.
pub data Opened : Type 0 where
  missing refused : Opened
  found : Option Bytes → Opened

-- The handler asks for the header FILE_NOT_FOUND; returns SERVER_FAILURE before any header; asks for
-- the header OK with this length and sends bytes; or writes past its buffer.
pub data Handled : Type 0 where
  not_found server_failure overflow : Handled
  served : (file_len : ℕ) → Sent → Handled

abbrev pub with_file : Opened → List (Option ℕ × Option ℕ) → Handled
with_file missing answers = not_found
with_file refused answers = server_failure
with_file (found none) answers = server_failure
with_file (found (some file)) answers =
    served (length file) (send_loop bufsize file (length file) answers 0 [])

abbrev pub with_name :
    Option Bytes → (files : Bytes → Opened) → List (Option ℕ × Option ℕ) → Handled
with_name none files answers = overflow
with_name (some name) files answers = with_file (files name) answers

-- Each answer is that of one `read` and of the `gfs_send` behind it.
unfoldable pub handle_with_file :
    (data_dir path : Bytes) → (files : Bytes → Opened) → List (Option ℕ × Option ℕ) → Handled
unfolding join
handle_with_file data_dir path files answers = with_name (join bufsize data_dir path) files answers

-- Where the handler asks for the header OK, what it asks for and sends satisfies `P`.
abbrev pub OnServed : (ℕ → Sent → Type 0) → Handled → Type 0
OnServed P (served file_len s) = P file_len s
OnServed P not_found = Unit
OnServed P server_failure = Unit
OnServed P overflow = Unit

module _ (answers : List (Option ℕ × Option ℕ)) where
  -- The header and the bytes are those of this file.
  abbrev pub IsOf : Bytes → ℕ → Sent → Type 0
  IsOf file file_len s = (file_len ≡ length file) × OnSent (λ wire. wire ≡ file) s

  with_file-OnServed :
      (o : Opened)
      → OnServed
          (λ n s. (file : Bytes) × (o ≡ found (some file)) × IsOf file n s)
          (with_file o answers)
  with_file-OnServed missing = tt
  with_file-OnServed refused = tt
  with_file-OnServed (found none) = tt
  with_file-OnServed (found (some file)) =
      (file, refl, (refl, send_loop-exact bufsize file answers))

  handle_with_file-under :
      (data_dir path : Bytes) (files : Bytes → Opened) (b : Bool)
      → OnServed
          (λ n s. (file : Bytes) × (files (data_dir ++ path) ≡ found (some file)) × IsOf file n s)
          (with_name (if b then some (data_dir ++ path) else none) files answers)
  handle_with_file-under data_dir path files true = with_file-OnServed (files (data_dir ++ path))
  handle_with_file-under data_dir path files false = tt

-- Whatever `open`, the reads and the sends give: if the handler asks for the header OK, the name opens
-- a file, the header has the length of that file, and if the loop ends without a failure, the client
-- has got exactly that file.
pub handle_with_file-OnServed :
    (data_dir path : Bytes) (files : Bytes → Opened) (answers : List (Option ℕ × Option ℕ))
    → OnServed
        (λ n s.
          (file : Bytes) × (files (data_dir ++ path) ≡ found (some file)) × IsOf answers file n s)
        (handle_with_file data_dir path files answers)
unfolding handle_with_file join
handle_with_file-OnServed data_dir path files answers =
    handle_with_file-under answers data_dir path files (ltb (length (data_dir ++ path)) bufsize)

-- If the name fits and opens a file, each read gives a byte, there are enough of them, and each send
-- takes its chunk, then the handler sends the header and the whole file.
pub handle_with_file-serves :
    (data_dir path file : Bytes) (files : Bytes → Opened) (ks : List ℕ)
    → length (data_dir ++ path) < bufsize
    → files (data_dir ++ path) ≡ found (some file)
    → All (λ k. 0 < k) ks
    → length file ≤ length ks
    → handle_with_file data_dir path files (serves bufsize ks) ≡ served (length file) (sent file)
unfolding handle_with_file join
handle_with_file-serves data_dir path file files ks fits opens filled enough =
    ap (λ b. with_name (if b then some (data_dir ++ path) else none) files (serves bufsize ks))
      (lt→ltb _ _ fits)
    ∙ ap (λ o. with_file o (serves bufsize ks)) opens
    ∙ ap (served (length file)) (send_loop_lem bufsize (omega arith) file ks filled enough)
