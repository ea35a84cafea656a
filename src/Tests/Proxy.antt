-- ===== src/Tests/Proxy.antt =====
-- Runs of the theorems on the handlers and the start of the proxies of gios-spr-2018-pr3-master.
use intro_to_os.Base.{◌≡◌, refl, true, [], ◌∷◌, some, map, arith}
use intro_to_os.Text.{Bytes, codes}
use intro_to_os.Launch.{WhenReady}
use intro_to_os.Cache.Chunks.{sent, serves}
use intro_to_os.Web.File.{
  handle_with_file, found, served, OnServed, IsOf, handle_with_file-OnServed,
  handle_with_file-serves,
}
use intro_to_os.Web.Curl as Curl
use intro_to_os.Web.Curl.{handle_with_curl, finished}
use intro_to_os.Web.Fetch.{complete, handle_with_curl-full}
use intro_to_os.Web.Cached.{thread_count, System, main}
use intro_to_os.Web.Launched.{IsLaunched, main-IsLaunched}

abbrev page : Bytes
page = codes "page"

handle_with_file-OnServed_example :
    OnServed
      (λ n s.
        (file : Bytes) × (found (some page) ≡ found (some file))
        × IsOf ((some 9, some 9) ∷ []) file n s)
      (handle_with_file
        (codes "dir")
        (codes "/a")
        (λ name. found (some page))
        ((some 9, some 9) ∷ []))
handle_with_file-OnServed_example =
    handle_with_file-OnServed (codes "dir") (codes "/a") (λ name. found (some page))
      ((some 9, some 9) ∷ [])

handle_with_file-serves_example :
    handle_with_file
      (codes "dir")
      (codes "/a")
      (λ name. found (some page))
      (serves 8803 (3 ∷ 3 ∷ 3 ∷ 3 ∷ []))
    ≡ served 4 (sent page)
handle_with_file-serves_example =
    handle_with_file-serves (codes "dir") (codes "/a") page (λ name. found (some page))
      (3 ∷ 3 ∷ 3 ∷ 3 ∷ []) (omega arith) refl
      (omega arith, (omega arith, (omega arith, (omega arith, tt)))) (omega arith)

handle_with_curl-full_example :
    handle_with_curl
      (codes "host")
      (codes "/a")
      (λ url. complete (codes "pa") (codes "ge" ∷ []))
      (some 9 ∷ [])
    ≡ Curl.served 4 (finished (map some page) 4)
handle_with_curl-full_example =
    handle_with_curl-full (codes "host") (codes "/a") (codes "pa") (codes "ge" ∷ [])
      (λ url. complete (codes "pa") (codes "ge" ∷ [])) (omega arith) refl (omega arith)
      (omega arith) 9 [] (omega arith)

abbrev willing : System
willing = record {
  opens = true;
  truncates = λ n. true;
  maps = λ n. true;
  key = some 1;
  key_cache_to_proxy = some 2;
  queue = λ k. some 3;
}

main-IsLaunched_example :
    WhenReady
      (IsLaunched (thread_count (codes "5") ∷ []) willing)
      (main (thread_count (codes "5") ∷ []) willing)
main-IsLaunched_example = main-IsLaunched (thread_count (codes "5") ∷ []) willing (tt, tt)
