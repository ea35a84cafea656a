-- ===== src/Tests/Download.antt =====
-- Runs of the theorems on the workload and the download programs of gios-spr-2018-pr1-master.
use intro_to_os.Base.{ℕ, ◌≡◌, refl, true, List, [], ◌∷◌, none, some, arith, ◌==◌}
use intro_to_os.Text.{Bytes, codes}
use intro_to_os.GfServer.{ok}
use intro_to_os.Download.Names.{multithreaded}
use intro_to_os.Download.Files.{Access, open_file, directories, make_all}
use intro_to_os.Download.Program.{Performed, finished, request_loop}
use intro_to_os.Sockets.{at, dial_loop, connected}
use intro_to_os.GfClient.{gfc_perform, undefined}
use intro_to_os.Download.Requests.{request_of, gfc_perform-request_of}
use intro_to_os.Download.Laws.{files_of, request_loop-files_of}

abbrev two_paths : List Bytes
two_paths = codes "/a/x" ∷ codes "/b" ∷ []

abbrev allowed : Access
allowed = record { makes = λ d. true; opens = λ f. true }

make_all-true : (ds : List Bytes) → make_all (λ d. true) ds ≡ true
unfolding make_all
make_all-true [] = refl
make_all-true (d ∷ ds) = make_all-true ds

open_file-allowed : (name : Bytes) → open_file allowed name ≡ true
unfolding open_file
open_file-allowed name = rw (make_all-true (directories name)) refl

-- The second request fails.
abbrev answers : ℕ → Bytes → Performed
answers n path = record { text = path; failed = n == 1; status = ok }

request_loop-files_of_example :
    request_loop multithreaded allowed two_paths answers 3 0 []
    ≡ finished (files_of b'-' two_paths answers 3 0 [])
request_loop-files_of_example =
    request_loop-files_of multithreaded refl (omega arith) allowed open_file-allowed answers
      two_paths (omega arith) (omega arith)
      ((omega arith, omega arith), ((omega arith, omega arith), tt)) 3 [] (omega arith)
      (λ p m later small. tt)

dialled_first : dial_loop {A = ℕ} (1 ∷ []) (connected ∷ []) ≡ at 1
unfolding dial_loop
dialled_first = refl

gfc_perform-request_of_example :
    gfc_perform
      (request_of (codes "localhost") (codes "/a") 6200 [])
      (some (1 ∷ []))
      (connected ∷ [])
      none
      []
    ≡ at undefined
gfc_perform-request_of_example =
    gfc_perform-request_of (codes "localhost") (codes "/a") [] 6200 1 (1 ∷ []) (connected ∷ []) none
      [] dialled_first
