-- ===== src/Transfer/Laws.antt =====
-- What the transfer programs guarantee: transfer/transferserver.c and transfer/transferclient.c.
use intro_to_os.Base.{
  append-take-drop, length-take, ℕ, zero, suc, ◌+◌, ◌-◌, ◌*◌, ◌%◌, ◌^◌, lt→ltb, ◌≡◌, ◌≤◌, ◌<◌, ◌⊎◌,
  take-append-drop, length-drop, drop-length, true, [], ◌∷◌, ◌++◌, List, Option, some, ltb, length,
  take, drop, map, All, arith, refl, ap, sym, ◌∙◌, Bool-cases, inl, inr, le→ltb, ltb→lt, ltb→le,
  length-append,
}
use mathlib.Core.Path.{subst}
use mathlib.Core.List.{append_assoc}
use intro_to_os.Text.{concat, padded, Bytes}
use intro_to_os.Text.Token.{length-padded}
use intro_to_os.Transfer.Server.{
  room, Sent, closed, sending, request, accepted, send_loop, with_total, serve_first, undefined,
}
use intro_to_os.Transfer.Client.{saved, recv_loop, save}

taken : (n : ℕ) (s : Bytes) → n ≤ length s → take n (padded n s) ≡ take n s
unfolding padded
taken zero s h = refl
taken (suc n) [] h = absurd (omega arith)
taken (suc n) (c ∷ s) h = ap (λ t. c ∷ t) (taken n s (omega arith))

append-nil : (wire : Bytes) → wire ++ [] ≡ wire
append-nil [] = refl
append-nil (c ∷ wire) = ap (λ t. c ∷ t) (append-nil wire)

abbrev pub full : List ℕ → List (Option ℕ)
full ks = map some ks

abbrev pub OnClosed : (Bytes → Type 0) → Sent → Type 0
OnClosed P (closed wire) = P wire
OnClosed P (sending wire) = Unit
OnClosed P undefined = Unit

nothing_left : (wire s : Bytes) → length s ≤ 0 → wire ≡ wire ++ s
nothing_left wire [] h = sym (append-nil wire)
nothing_left wire (c ∷ s) h = absurd (omega arith)

accepted-request : (k left : ℕ) → room ≤ k → accepted k (request left) ≡ request left
accepted-request k left big = ground arith

request-le : (left : ℕ) → request left ≤ left
request-le left = ground arith

request-or : (left : ℕ) → (request left ≡ left) ⊎ (request left ≡ room)
request-or left = ground arith

request-rest : (left count : ℕ) → left ≤ room * suc count → left - request left ≤ room * count
request-rest left count h = elim (request-or left) [
  | inl e ↦ omega (arith, e)
  | inr e ↦ omega (arith, e)
]

-- With sockets that take what they are given, the loop sends the rest of the file and ends.
send_loop-full :
    (total sent : ℕ) (rest : Bytes) (ks : List ℕ) (wire : Bytes)
    → sent + length rest ≡ total
    → All (λ k. room ≤ k) ks
    → length rest ≤ room * length ks
    → send_loop total 0 sent rest (full ks) wire ≡ closed (wire ++ rest)
unfolding send_loop
send_loop-full total sent [] [] wire sum big enough =
    rw (le→ltb sent (total + 0) (omega arith)) (ap closed (sym (append-nil wire)))
send_loop-full total sent (c ∷ rest) [] wire sum big enough = absurd (omega arith)
send_loop-full total sent rest (k ∷ ks) wire sum big enough =
    let n = request (length rest) in
    let left : total + 0 - sent ≡ length rest = omega arith in
    let more =
      send_loop-full total (sent + n) (drop n rest) ks (wire ++ take n rest)
        (omega (arith, length-drop n rest, request-le (length rest))) big.1
        (omega (arith, length-drop n rest, request-rest (length rest) (length ks) enough)) in
    rw
      (
        left,
        accepted-request k (length rest) big.0,
        taken n rest (request-le (length rest)),
        send_loop,
      )
      elim (Bool-cases (ltb sent (total + 0))) [
        | inl more_left ↦ rw more_left (more ∙ ap closed (append-take-drop wire rest n))
        | inr none_left ↦
            rw none_left (ap closed (nothing_left wire rest (omega (arith, ltb→le _ _ none_left))))
      ]

drop-request : (s : Bytes) → drop (request (length s)) s ≡ drop room s
drop-request s = elim (Bool-cases (ltb (length s) room)) [
  | inl short ↦ rw short (
      drop-length (length s) s (omega arith)
      ∙ sym (drop-length room s (omega (arith, ltb→lt _ _ short))))
  | inr long ↦ rw long refl
]

-- The counters of a file of less than 2^31 bytes are its length.
serve_first-small :
    (file : Bytes) (answers : List (Option ℕ))
    → length file < 2 ^ 31
    → serve_first true file answers ≡ with_total (length file) file answers
unfolding serve_first
serve_first-small file answers small =
    let same : length file % 2 ^ 32 ≡ length file = omega arith in
    rw (same, lt→ltb (length file) (2 ^ 31) small) refl

-- A file of less than 2^31 bytes goes out whole over the first connection if it can be opened, its
-- `send` calls take what they are given, and there are enough of them: its bytes are sent in their
-- order, and the server then closes the connection.
pub serve_first-full :
    (file : Bytes) (k : ℕ) (ks : List ℕ)
    → length file < 2 ^ 31
    → All (λ j. room ≤ j) (k ∷ ks)
    → length file ≤ room * suc (length ks)
    → serve_first true file (full (k ∷ ks)) ≡ closed file
serve_first-full file k ks small big enough =
    let n = request (length file) in
    let more =
      send_loop-full (length file) n (drop n file) ks (take n file)
        (omega (arith, length-drop n file, request-le (length file))) big.1
        (omega (arith, length-drop n file, request-rest (length file) (length ks) enough)) in
    serve_first-small file (full (k ∷ ks)) small
    ∙ rw
        (
          accepted-request k (length file) big.0,
          taken n file (request-le (length file)),
          sym (drop-request file),
        )
        (more ∙ ap closed (take-append-drop n file))

recv_loop-concat :
    (chunks : List Bytes) (rs : List (Option Bytes)) (written : Bytes)
    → All (λ chunk. 0 < length chunk) chunks
    → recv_loop (map some chunks ++ (some [] ∷ rs)) written ≡ saved (written ++ concat chunks)
unfolding recv_loop
recv_loop-concat [] rs written all = ap saved (sym (append-nil written))
recv_loop-concat ([] ∷ chunks) rs written all = absurd (omega (arith, all.0))
recv_loop-concat ((c ∷ chunk) ∷ chunks) rs written all =
    recv_loop-concat chunks rs (written ++ (c ∷ chunk)) all.1
    ∙ ap saved (append_assoc written (c ∷ chunk) (concat chunks))

-- Whatever pieces that are not empty the connection cuts the bytes into, the client saves them all
-- in their order, up to the end of the connection, and returns 0.
save-concat :
    (chunks : List Bytes) (rs : List (Option Bytes))
    → All (λ chunk. 0 < length chunk) chunks
    → save true (map some chunks ++ (some [] ∷ rs)) ≡ saved (concat chunks)
unfolding save
save-concat [] rs all = refl
save-concat ([] ∷ chunks) rs all = absurd (omega (arith, all.0))
save-concat ((c ∷ chunk) ∷ chunks) rs all = recv_loop-concat chunks rs (c ∷ chunk) all.1

-- What the server has sent: the bytes of the connection, in pieces that are not empty.
abbrev pub Delivers : Sent → List Bytes → Type 0
Delivers (closed wire) chunks = (concat chunks ≡ wire) × All (λ chunk. 0 < length chunk) chunks
Delivers (sending wire) chunks = ⊥
Delivers undefined chunks = ⊥

-- A transfer copies a file of less than 2^31 bytes that the server can open: with enough `send` calls that
-- take what they are given, whatever pieces the bytes that the server sends come in, the client's output
-- file is the server's file.
pub save-serve_first :
    (file : Bytes) (k : ℕ) (ks : List ℕ) (chunks : List Bytes) (rs : List (Option Bytes))
    → length file < 2 ^ 31
    → All (λ j. room ≤ j) (k ∷ ks)
    → length file ≤ room * suc (length ks)
    → Delivers (serve_first true file (full (k ∷ ks))) chunks
    → save true (map some chunks ++ (some [] ∷ rs)) ≡ saved file
save-serve_first file k ks chunks rs small big enough delivers =
    let d = subst (λ t. Delivers t chunks) (serve_first-full file k ks small big enough) delivers in
    save-concat chunks rs d.1 ∙ ap saved d.0

accepted-le : (k n : ℕ) → accepted k n ≤ n
accepted-le k n = ground arith

length-chunk : (k n : ℕ) (s : Bytes) → length (take (accepted k n) (padded n s)) ≡ accepted k n
length-chunk k n s =
    length-take (accepted k n) (padded n s) (omega (arith, length-padded n s, accepted-le k n))

send_loop-length :
    (total sent : ℕ) (rest : Bytes) (ks : List ℕ) (wire : Bytes)
    → length wire ≡ sent
    → sent ≤ total
    → OnClosed (λ w. length w ≡ total) (send_loop total 0 sent rest (full ks) wire)
unfolding send_loop
send_loop-length total sent rest [] wire at_sent small = elim (Bool-cases (ltb sent (total + 0))) [
  | inl more_left ↦ rw more_left tt
  | inr none_left ↦ rw none_left (omega (arith, ltb→le _ _ none_left))
]
send_loop-length total sent rest (k ∷ ks) wire at_sent small =
    let n = request (total + 0 - sent) in
    let took = accepted k n in
    let chunk = take took (padded n rest) in
    let more =
      send_loop-length total (sent + took) (drop n rest) ks (wire ++ chunk)
        (omega (arith, length-append wire chunk, length-chunk k n rest))
        (omega (arith, accepted-le k n, request-le (total + 0 - sent))) in
    elim (Bool-cases (ltb sent (total + 0))) [
      | inl more_left ↦ rw more_left more
      | inr none_left ↦ rw none_left (omega (arith, ltb→le _ _ none_left))
    ]

-- Whatever the `send` calls take, as long as none of them fails, what the first connection has sent of a
-- file of less than 2^31 bytes when the server closes it is as long as the file.
pub serve_first-length :
    (file : Bytes) (k : ℕ) (ks : List ℕ)
    → length file < 2 ^ 31
    → OnClosed (λ wire. length wire ≡ length file) (serve_first true file (full (k ∷ ks)))
serve_first-length file k ks small =
    let n = request (length file) in
    let e = serve_first-small file (full (k ∷ ks)) small in
    subst (OnClosed (λ wire. length wire ≡ length file)) (sym e) (
      send_loop-length (length file) (accepted k n) (drop room file) ks
        (take (accepted k n) (padded n file)) (length-chunk k n file)
        (omega (arith, accepted-le k n, request-le (length file))))
