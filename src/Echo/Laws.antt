-- ===== src/Echo/Laws.antt =====
-- What the echo programs guarantee: echo/echoserver.c and echo/echoclient.c.
use intro_to_os.Base.{
  map, All, sym, take, take-eq_self, ◌∙◌, ◌-◌, ℕ, ◌≡◌, Bool, true, false, [], ◌∷◌, ◌++◌, List,
  Option, some, ◌==◌, ==_refl, ltb, length, ◌≤◌, ◌<◌, not, ◌&&◌, all_of, arith, refl, ap, ltb→lt,
  lt→ltb, drop, zero, suc,
}
use mathlib.Core.Path.{subst, ap₂}
use intro_to_os.Text.{Bytes, nul, no_nul, c_string}
use intro_to_os.Text.Token.{c_string_self}
use intro_to_os.Text.Decimal.{atoi}
use intro_to_os.Launch.{ready, port_room}
use intro_to_os.Echo.Server.{
  bufsize, Config as ServerConfig, defaults as server_defaults, options as server_options,
  check as server_check, below_one, echo, replied, serve, running, overwrite, cleared,
}
use intro_to_os.Echo.Client.{Config as ClientConfig, exchange}

-- A text that starts with a byte other than NUL.
abbrev pub is_shown : Bytes → Bool
is_shown [] = false
is_shown (c ∷ s) = not (c == nul)

abbrev pub received : List Bytes → List (Option Bytes)
received [] = []
received (m ∷ ms) = some m ∷ received ms

no_nul-append : (s t : Bytes) → no_nul t ≡ false → no_nul (s ++ t) ≡ false
no_nul-append [] t h = h
no_nul-append (c ∷ s) t h = rw (no_nul-append s t h) (ground arith)

-- A NUL further behind is one.
no_nul-drop : (k n : ℕ) (s : Bytes) → k ≤ n → no_nul (drop n s) ≡ false → no_nul (drop k s) ≡ false
no_nul-drop zero zero s h e = e
no_nul-drop zero (suc n) [] h e = e
no_nul-drop zero (suc n) (c ∷ s) h e = rw (no_nul-drop zero n s (omega arith) e) (ground arith)
no_nul-drop (suc k) zero s h e = absurd (omega arith)
no_nul-drop (suc k) (suc n) [] h e = e
no_nul-drop (suc k) (suc n) (c ∷ s) h e = no_nul-drop k n s (omega arith) e

-- The last byte of the buffer is NUL.
abbrev pub IsEnded : Bytes → Type 0
IsEnded buffer = no_nul (drop (bufsize - 1) buffer) ≡ false

-- A message that `recv` can give at once, and that the server sends back.
abbrev pub is_taken : Bytes → Bool
is_taken m = is_shown m && ltb (length m) bufsize

echo-is_taken :
    (buffer m : Bytes)
    → IsEnded buffer
    → is_shown m ≡ true
    → length m < bufsize
    → echo buffer (some m) ≡ replied m
unfolding echo
echo-is_taken buffer [] ended shown fits = ground arith
echo-is_taken buffer (c ∷ s) ended shown fits =
    let nul_behind : no_nul (overwrite (c ∷ s) buffer) ≡ false =
      no_nul-append (c ∷ s) (drop (length (c ∷ s)) buffer)
        (no_nul-drop (length (c ∷ s)) (bufsize - 1) buffer (omega arith) ended) in
    rw nul_behind (ground arith)

&&-left : (a b : Bool) → (a && b) ≡ true → a ≡ true
&&-left a b h = ground arith

&&-right : (a b : Bool) → (a && b) ≡ true → b ≡ true
&&-right a b h = ground arith

-- The server sends each message back unchanged and in order, for as long as the messages have at most 15
-- bytes and start with a byte other than NUL, and then still runs, if the last byte of its buffer was NUL
-- at first.
serve-replies :
    (buffer : Bytes) (ms : List Bytes)
    → IsEnded buffer
    → all_of is_taken ms ≡ true
    → serve buffer (received ms) ≡ (ms, running)
unfolding serve
serve-replies buffer [] ended h = refl
serve-replies buffer (m ∷ ms) ended h =
    let taken = &&-left (is_taken m) (all_of is_taken ms) h in
    rw
      (
        echo-is_taken buffer m ended (&&-left (is_shown m) (ltb (length m) bufsize) taken)
            (ltb→lt _ _ (&&-right (is_shown m) (ltb (length m) bufsize) taken)),
        serve-replies cleared ms refl (&&-right (is_taken m) (all_of is_taken ms) h),
        serve,
      )
      refl

-- What one `recv` into the buffer of either program gives of bytes that have all arrived.
abbrev pub received_once : Bytes → Bytes
received_once = take (bufsize - 1)

-- A message of 1 to 15 bytes without NUL comes back to the client as it was, if it has arrived when
-- `recv` is called, on both sides, and `send` takes it whole.
exchange-echo :
    (c : ClientConfig) (buffer : Bytes)
    → IsEnded buffer
    → no_nul c.message ≡ true
    → is_shown c.message ≡ true
    → length c.message < bufsize
    → (echo buffer (some (received_once c.message)) ≡ replied c.message)
      × (exchange c (some (length c.message)) (some (received_once c.message)) ≡ ready c.message)
unfolding exchange
exchange-echo c buffer ended free shown fits =
    let whole = take-eq_self (bufsize - 1) c.message (omega arith) in
    (
      ap (λ s. echo buffer (some s)) whole ∙ echo-is_taken buffer c.message ended shown fits,
      rw (==_refl (length c.message))
          (ap (λ s. ready (c_string s)) whole ∙ ap ready (c_string_self c.message free)),
    )

-- A client whose message has 1 to 15 bytes without NUL.
pub record IsShort (c : ClientConfig) : Type 0 where
  pub free : no_nul c.message ≡ true
  pub shown : is_shown c.message ≡ true
  pub fits : length c.message < bufsize

-- Each client prints its message when it has got its reply.
abbrev pub Answered : List ClientConfig → (replies : List Bytes) → Type 0
Answered [] [] = Unit
Answered [] (reply ∷ replies) = ⊥
Answered (c ∷ cs) [] = ⊥
Answered (c ∷ cs) (reply ∷ replies) =
    (exchange c (some (length c.message)) (some (received_once reply)) ≡ ready c.message)
    × Answered cs replies

-- What the server receives of the clients, one connection behind the other.
abbrev pub arrive : List ClientConfig → List (Option Bytes)
arrive [] = []
arrive (c ∷ cs) = some (received_once c.message) ∷ arrive cs

arrive_lem :
    (cs : List ClientConfig) → All IsShort cs → arrive cs ≡ received (map (λ c. c.message) cs)
arrive_lem [] all = refl
arrive_lem (c ∷ cs) all =
    ap₂ (λ (m : Bytes) (ms : List (Option Bytes)). some m ∷ ms)
      (take-eq_self (bufsize - 1) c.message (omega (arith, all.0.fits))) (arrive_lem cs all.1)

messages_shown :
    (cs : List ClientConfig) → All IsShort cs → all_of is_taken (map (λ c. c.message) cs) ≡ true
messages_shown [] all = refl
messages_shown (c ∷ cs) all = rw (all.0.shown, lt→ltb _ _ all.0.fits, messages_shown cs all.1) refl

replies-Answered : (cs : List ClientConfig) → All IsShort cs → Answered cs (map (λ c. c.message) cs)
replies-Answered [] all = tt
replies-Answered (c ∷ cs) all =
    ((exchange-echo c cleared refl all.0.free all.0.shown all.0.fits).1, replies-Answered cs all.1)

-- Clients that connect one behind the other, each with a message of 1 to 15 bytes without NUL that has
-- arrived when `recv` is called, on both sides, and that `send` takes whole: the server replies to all of
-- them and still runs, and each client prints its own message, if the last byte of the server's buffer,
-- which is never set before the first connection, was NUL at first.
pub serve-Answered :
    (buffer : Bytes) (cs : List ClientConfig)
    → IsEnded buffer
    → All IsShort cs
    → Answered cs (serve buffer (arrive cs)).0 × ((serve buffer (arrive cs)).1 ≡ running)
serve-Answered buffer cs ended all =
    let served : serve buffer (arrive cs) ≡ (map (λ c. c.message) cs, running) =
      ap (serve buffer) (arrive_lem cs all)
      ∙ serve-replies buffer _ ended (messages_shown cs all) in
    (subst (λ r. Answered cs r.0) (sym served) (replies-Answered cs all), ap (λ r. r.1) served)

-- What the server has when it starts to listen: `portno` is the number in `port`, in the range of
-- the ports, `port` fits its buffer, and `maxnpending` is a positive `int`.
abbrev pub ServerOk : ServerConfig → Type 0
ServerOk c =
    (c.portno ≡ atoi c.port)
    × (length c.port < port_room)
    × (1025 ≤ c.portno)
    × (c.portno ≤ 65535)
    × (below_one c.maxnpending ≡ false)

abbrev pub ServerKept : ServerConfig → Type 0
ServerKept c = (c.portno ≡ atoi c.port) × (length c.port < port_room)
