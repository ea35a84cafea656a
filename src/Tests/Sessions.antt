-- ===== src/Tests/Sessions.antt =====
-- Runs of the theorems on the echo and transfer programs.
use intro_to_os.Base.{length, ◌≡◌, refl, true, List, [], ◌∷◌, some, arith}
use intro_to_os.Text.{Bytes, codes}
use intro_to_os.Echo.Server.{
  running, defaults as server_defaults, options as server_options, check as server_check,
  serve as echo_serve,
}
use intro_to_os.Echo.Client.{Config, defaults}
use intro_to_os.Echo.Laws.{IsShort, Answered, arrive, serve-Answered}
use intro_to_os.Transfer.Server.{serve_first}
use intro_to_os.Transfer.Client.{saved, save}
use intro_to_os.Transfer.Laws.{
  OnClosed, serve_first-length, full, serve_first-full, save-serve_first, Delivers,
}

abc-Delivers :
    Delivers (serve_first true (codes "abc") (full (5000 ∷ []))) (codes "ab" ∷ codes "c" ∷ [])
abc-Delivers =
    rw (serve_first-full (codes "abc") 5000 [] (omega arith) (omega arith, tt) (omega arith))
      (refl, (omega arith, (omega arith, tt)))

save-serve_first_example :
    save true (some (codes "ab") ∷ some (codes "c") ∷ some [] ∷ []) ≡ saved (codes "abc")
save-serve_first_example =
    save-serve_first (codes "abc") 5000 [] (codes "ab" ∷ codes "c" ∷ []) [] (omega arith)
      (omega arith, tt) (omega arith) abc-Delivers

abbrev hello : Config
hello = record defaults { message = codes "hello" }

abbrev two_clients : List Config
two_clients = hello ∷ defaults ∷ []

hello-IsShort : IsShort hello
hello-IsShort = record { free = refl; shown = refl; fits = omega arith }

defaults-IsShort : IsShort defaults
defaults-IsShort = record { free = refl; shown = refl; fits = omega arith }

-- Sevens, but for the last byte.
abbrev unset_buffer : Bytes
unset_buffer = 7 ∷ 7 ∷ 7 ∷ 7 ∷ 7 ∷ 7 ∷ 7 ∷ 7 ∷ 7 ∷ 7 ∷ 7 ∷ 7 ∷ 7 ∷ 7 ∷ 7 ∷ 0 ∷ []

serve-Answered_example :
    Answered two_clients (echo_serve unset_buffer (arrive two_clients)).0
    × ((echo_serve unset_buffer (arrive two_clients)).1 ≡ running)
serve-Answered_example =
    serve-Answered unset_buffer two_clients refl (hello-IsShort, (defaults-IsShort, tt))

serve_first-length_example :
    OnClosed (λ wire. length wire ≡ 3) (serve_first true (codes "abc") (full (1 ∷ 1 ∷ 5 ∷ [])))
serve_first-length_example = serve_first-length (codes "abc") 1 (1 ∷ 5 ∷ []) (omega arith)
