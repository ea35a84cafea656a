-- ===== src/GfServer/Request.antt =====
-- How `gfserver_serve` of gflib/gfserver.c reads a request.
use intro_to_os.Base.{
  ◌≡◌, ◌<◌, ◌↔◌, refl, true, false, [], ◌∷◌, ◌++◌, some, ◌==◌, length, drop, arith, ap, ◌∙◌,
}
use mathlib.Core.List.{append_assoc}
use intro_to_os.Text.{Bytes, codes, nul, c_string, no_nul, strtok, is_space, is_line_end}
use intro_to_os.Text.Compare.{bytes_eq, eq_of_bytes_eq}
use intro_to_os.Text.Token.{
  IsToken, strtok-IsToken, strtok-IsToken_whole, c_string-append, all_of-append,
}
use intro_to_os.GfClient.{request_header}
use intro_to_os.GfServer.{
  call, crash, trim_space, begins_with_slash, with_scheme, with_method, with_path, answer, validate,
  parse_request, serve_one,
}

abbrev pub request_text : (s m p rest : Bytes) → Bytes
request_text s m p rest = s ++ (b' ' ∷ (m ++ (b' ' ∷ (p ++ (13 ∷ rest)))))

module _ (s m : Bytes) (scheme_token : IsToken is_space s) (method_token : IsToken is_space m) where
  -- A request of three tokens is validated by just these, whatever follows the line end.
  parse_request-validate :
      (p rest : Bytes)
      → IsToken is_line_end p
      → parse_request (request_text s m p rest) ≡ validate s m p
  unfolding parse_request
  parse_request-validate p rest path_token =
      ap with_scheme
        (strtok-IsToken is_space b' ' s (m ++ (b' ' ∷ (p ++ (13 ∷ rest)))) refl scheme_token)
      ∙ ap (with_method (some s))
          (strtok-IsToken is_space b' ' m (p ++ (13 ∷ rest)) refl method_token)
      ∙ ap (with_path (some s) (some m)) (strtok-IsToken is_line_end 13 p rest refl path_token)

  -- A request with a scheme and a method but no path makes the server call `strlen(NULL)`.
  parse_request-crash : parse_request (s ++ (b' ' ∷ m)) ≡ crash
  unfolding parse_request strtok
  parse_request-crash =
      ap with_scheme (strtok-IsToken is_space b' ' s m refl scheme_token)
      ∙ ap (with_method (some s)) (strtok-IsToken_whole is_space m method_token)

-- What makes a request good.
abbrev pub IsGood : (s m p q : Bytes) → Type 0
IsGood s m p q =
    (s ≡ codes "GETFILE") × (m ≡ codes "GET") × (trim_space p ≡ q) × (begins_with_slash q ≡ true)

validate-IsGood : (s m p q : Bytes) → validate s m p ≡ call q → IsGood s m p q
unfolding validate
validate-IsGood s m p q h =
    ground (arith, eq_of_bytes_eq s (codes "GETFILE"), eq_of_bytes_eq m (codes "GET"))

-- The handler is called with the path `q` exactly if the scheme and the method are right and the
-- path, less a space at its end, is `q` and begins with a slash.
validate_iff : (s m p q : Bytes) → (validate s m p ≡ call q) ↔ IsGood s m p q
unfolding validate bytes_eq
validate_iff s m p q = (
  (λ h. validate-IsGood s m p q h),
  λ (scheme_good, method_good, path_good, slash). rw (scheme_good, method_good, path_good, slash),
)

no_nul-append_false : (s t : Bytes) → no_nul t ≡ false → no_nul (s ++ t) ≡ false
no_nul-append_false [] t h = h
no_nul-append_false (c ∷ s) t h = ground (arith, no_nul-append_false s t h)

-- The request that asks for a path.
abbrev get_request : Bytes → Bytes
get_request path = request_text (codes "GETFILE") (codes "GET") path (10 ∷ 13 ∷ 10 ∷ [])

answer-append :
    (text stale : Bytes)
    → 0 < length text
    → no_nul text ≡ true
    → no_nul stale ≡ false
    → answer (text ++ stale) ≡ parse_request (text ++ c_string stale)
unfolding answer
answer-append [] stale pos clean ends = absurd (omega arith)
answer-append (c ∷ s) stale pos clean ends =
    rw (no_nul-append_false (c ∷ s) stale ends, c_string-append (c ∷ s) stale clean, head_clean)
  where
    head_clean : (c == nul) ≡ false
    head_clean = ground arith

get_request-append :
    (path rest : Bytes)
    → get_request path ++ rest
      ≡ request_text (codes "GETFILE") (codes "GET") path ((10 ∷ 13 ∷ 10 ∷ []) ++ rest)
get_request-append path rest =
    ap (λ (t : Bytes). codes "GETFILE" ++ (b' ' ∷ (codes "GET" ++ (b' ' ∷ t))))
      (append_assoc path (13 ∷ 10 ∷ 13 ∷ 10 ∷ []) rest)

-- The header that the client library sends for a path, if it arrives whole, makes the server call the
-- handler with this path, whatever the buffer held before, if a NUL stands behind it. The path is not
-- empty, begins with a slash, does not end in a space, and has no NUL and no line end.
pub serve_one-call :
    (path buffer : Bytes)
    → IsToken is_line_end path
    → no_nul path ≡ true
    → begins_with_slash path ≡ true
    → trim_space path ≡ path
    → no_nul (drop (length (request_header path)) buffer) ≡ false
    → (serve_one (some (request_header path)) buffer).1 ≡ call path
unfolding serve_one request_header
serve_one-call path buffer t clean slash trimmed ends =
    let stale : Bytes = drop (length (get_request path)) buffer in
    answer-append (get_request path) stale (omega arith)
      (all_of-append _ path (13 ∷ 10 ∷ 13 ∷ 10 ∷ []) clean refl) ends
    ∙ ap parse_request (get_request-append path (c_string stale))
    ∙ parse_request-validate (codes "GETFILE") (codes "GET")
        (record { filled = omega arith; free = refl })
        (record { filled = omega arith; free = refl }) path ((10 ∷ 13 ∷ 10 ∷ []) ++ c_string stale)
        t
    ∙ (validate_iff (codes "GETFILE") (codes "GET") path path).1 (refl, refl, trimmed, slash)

-- A client that closes the connection without a request is served as the client before it was: the
-- buffer still holds that request.
serve_one_replay :
    (received buffer : Bytes)
    → serve_one (some []) (serve_one (some received) buffer).0 ≡ serve_one (some received) buffer
unfolding serve_one
serve_one_replay received buffer = refl
