-- ===== src/Tests/Workers.antt =====
-- Runs of the theorems on rpc_mt/minifyjpeg_main.c and minifyjpeg_main.c.
use intro_to_os.Base.{
  ap, All, Bool, false, ℕ, ◌≡◌, refl, true, false, List, [], ◌∷◌, some, Option, arith,
}
use intro_to_os.Text.{Bytes, codes}
use intro_to_os.Minify.Worker.{Request, Disk, Pool, run, waiting}
use intro_to_os.Launch.{ready}
use intro_to_os.Minify.Written.{Planned}
use intro_to_os.Minify.Finished.{AllWritten, Completes, main-AllWritten}
use intro_to_os.Text.{strcmp}
use intro_to_os.Text.Compare.{bytes_eq}
use intro_to_os.Minify.Program.{
  connect_all, load_requests, main, OnFinished, IsHandled, main-IsHandled,
}
use intro_to_os.Minify.Main.{options, defaults, load_loop, start}
use intro_to_os.Minify.Fair.{IsRound, concat_turns}
use intro_to_os.Minify.Ended.{Finishes, main-Finishes}
use intro_to_os.Minify.Unset.{IsCode, main-first_failure}
use intro_to_os.Minify.Unset as Unset
use intro_to_os.Minify.Laws.{OnRunning}
use intro_to_os.Minify.Lock.{IsExclusive, run-IsExclusive}

abbrev pub picture : Request
picture = record { inputfilename = codes "a.jpg"; outputfilename = some (codes "b.jpg") }

abbrev pictures : List Request
pictures = picture ∷ picture ∷ []

abbrev pub all_files : Disk
all_files name = some (codes "jpeg")

abbrev halve : Bytes → ℕ × Bytes
halve src = (0, codes "j")

abbrev two_workers : Pool
two_workers = record {
  locked = false;
  queue = pictures;
  workers = record { phase = waiting; code = 0 } ∷ record { phase = waiting; code = 0 } ∷ [];
  disk = all_files;
  handled = [];
}

abbrev turns : List ℕ
turns = 0 ∷ 1 ∷ 0 ∷ 1 ∷ 1 ∷ 0 ∷ 1 ∷ 1 ∷ 1 ∷ 0 ∷ 0 ∷ []

run-IsExclusive_example :
    OnRunning IsExclusive (run (λ name. true) halve turns (start 2 pictures all_files))
run-IsExclusive_example = run-IsExclusive (λ name. true) halve turns 2 pictures all_files

abbrev pub one_picture : Bytes → Option (List Bytes)
one_picture name = some (codes "a.jpg" ∷ codes "b.jpg" ∷ [])

pub defaults_accepted : options [] defaults ≡ ready defaults
unfolding options
defaults_accepted = refl

pub one_picture_read : load_requests (one_picture defaults.workload) ≡ ready (picture ∷ [])
unfolding load_requests load_loop
one_picture_read = refl

main-IsHandled_example :
    OnFinished
      (λ code s. IsHandled (λ r. true) (picture ∷ []) s)
      (main (λ name. true) halve (λ i. true) (0 ∷ 0 ∷ 0 ∷ 0 ∷ 0 ∷ []) all_files [] one_picture)
main-IsHandled_example =
    main-IsHandled (λ name. true) halve (λ i. true) (0 ∷ 0 ∷ 0 ∷ 0 ∷ 0 ∷ []) all_files (λ r. true)
      [] one_picture defaults (picture ∷ []) defaults_accepted (omega arith) one_picture_read

abbrev pub is_picture : Bytes → Bool
is_picture name = bytes_eq name (codes "a.jpg")

pub a_is_picture : is_picture (codes "a.jpg") ≡ true
unfolding bytes_eq strcmp
a_is_picture = refl

pub b_is_no_picture : is_picture (codes "b.jpg") ≡ false
unfolding bytes_eq strcmp
b_is_no_picture = refl

picture-Planned : Planned (λ name. true) halve (λ name. codes "j") is_picture all_files picture
picture-Planned = record {
  output = codes "b.jpg";
  source = codes "jpeg";
  named = refl;
  reads = refl;
  input = a_is_picture;
  apart = b_is_no_picture;
  writable = refl;
  scales = refl;
}

pub one_client : connect_all (λ i. true) 1 0 ≡ true
unfolding connect_all
one_client = refl

main-AllWritten_example :
    Completes
      (AllWritten (λ name. true) halve (λ name. codes "j") is_picture all_files (picture ∷ []))
      (main (λ name. true) halve (λ i. true) (0 ∷ 0 ∷ 0 ∷ 0 ∷ 0 ∷ []) all_files [] one_picture)
main-AllWritten_example =
    main-AllWritten (λ name. true) halve (λ name. codes "j") is_picture all_files (picture ∷ [])
      (picture-Planned, tt) (λ i. true) (0 ∷ 0 ∷ 0 ∷ 0 ∷ 0 ∷ []) [] one_picture defaults
      defaults_accepted (omega arith) one_picture_read one_client

abbrev no_pictures : Bytes → Option (List Bytes)
no_pictures name = some []

no_pictures_read : load_requests (no_pictures defaults.workload) ≡ ready []
unfolding load_requests load_loop
no_pictures_read = refl

main-first_failure_example :
    OnFinished
      (λ code s. IsCode (λ i. 42) 1 code)
      (Unset.main (λ name. true) halve (λ i. true) (λ i. 42) (0 ∷ 0 ∷ []) all_files [] no_pictures)
    × OnFinished
        (λ code s. code ≡ some 0)
        (main (λ name. true) halve (λ i. true) (0 ∷ 0 ∷ []) all_files [] no_pictures)
main-first_failure_example =
    main-first_failure (λ name. true) halve (λ i. true) (λ i. 42) (0 ∷ 0 ∷ []) all_files []
      no_pictures defaults defaults_accepted (omega arith) no_pictures_read

-- Five rounds for one thread and one request.
abbrev pub five_rounds : List (List ℕ)
five_rounds = (0 ∷ []) ∷ (0 ∷ []) ∷ (0 ∷ []) ∷ (0 ∷ []) ∷ (0 ∷ []) ∷ []

one_turn : IsRound 1 (0 ∷ [])
one_turn i lt = (0, ap some (omega arith))

pub five_rounds-IsRound : All (IsRound 1) five_rounds
five_rounds-IsRound = (one_turn, (one_turn, (one_turn, (one_turn, (one_turn, tt)))))

main-Finishes_example :
    Finishes
      (AllWritten (λ name. true) halve (λ name. codes "j") is_picture all_files (picture ∷ []))
      (main (λ name. true) halve (λ i. true) (concat_turns five_rounds) all_files [] one_picture)
main-Finishes_example =
    main-Finishes (λ name. true) halve (λ name. codes "j") is_picture all_files (picture ∷ [])
      (λ i. true) five_rounds [] one_picture defaults defaults_accepted (omega arith)
      one_picture_read one_client (picture-Planned, tt) five_rounds-IsRound (omega arith)
