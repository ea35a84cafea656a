-- ===== src/Echo/Server.antt =====
-- echo/echoserver.c of gios-spr-2018-pr1-master: the options, the start of the server and its loop.
use intro_to_os.Base.{
  ℕ, ◌^◌, Bool, true, ◌||◌, [], ◌∷◌, ◌++◌, length, drop, List, Option, none, some, ◌==◌, ltb, leb,
  if◌then◌else◌,
}
use intro_to_os.Text.{Bytes, codes, nul, no_nul}
use intro_to_os.Text.Decimal.{atoi}
use intro_to_os.Launch.{Started, ready, exited, ◌>>=◌, copy_port, bad_port}
use intro_to_os.Sockets.{Tried, at, none_left, stopped, going_on, Bind, bind_loop}

-- What `getopt_long` returns, with `optarg`; `-x` is accepted and then falls to the default case.
pub data ServerOption : Type 0 where
  port maxnpending : Bytes → ServerOption
  help other : ServerOption

pub record Config : Type 0 where
  pub port : Bytes
  pub portno : ℕ
  pub maxnpending : ℕ

abbrev pub defaults : Config
defaults = record { port = codes "6200"; portno = 6200; maxnpending = 1 }

unfoldable pub options : List ServerOption → Config → Started Config
options [] c = ready c
options (ServerOption.port text ∷ os) c =
    copy_port text (record c { port = text; portno = atoi text }) >>= options os
options (ServerOption.maxnpending text ∷ os) c = options os (record c { maxnpending = atoi text })
options (ServerOption.help ∷ os) c = exited 0
options (ServerOption.other ∷ os) c = exited 1

-- `maxnpending < 1` of the `int` with this pattern.
abbrev pub below_one : ℕ → Bool
below_one w = w == 0 || leb (2 ^ 31) w

unfoldable pub check : (argc : ℕ) → Config → Started Config
check argc c =
    if bad_port c.portno
    then exited 1
    else if below_one c.maxnpending
    then exited 1
    else if ltb 7 argc
    then exited 1
    else ready c

-- Options, tests, the socket loop and `listen`. `found` is `none` if `getaddrinfo` fails.
unfoldable pub start :
    (argc : ℕ)
    → List ServerOption
    → (found : Option (List ℕ)) → List Bind
    → (listens : Bool) → Started (Config × Tried ℕ)
unfolding options check
start argc os found rounds listens = do
  c ← options os defaults
  c' ← check argc c
  elim found [
    | none ↦ exited 1
    | some addresses ↦ elim (bind_loop addresses rounds) [
      | none_left ↦ exited 1
      | stopped ↦ exited 1
      | going_on ↦ ready (c', going_on)
      | at p ↦ if listens then ready (c', at p) else exited 1
    ]
  ]

abbrev pub bufsize : ℕ
bufsize = 16

-- What one accepted connection comes to: the bytes that are sent back; `exit(1)`; or `printf` reads past
-- the end of the buffer.
pub data Echoed : Type 0 where
  replied : Bytes → Echoed
  stop undefined : Echoed

-- `recv` puts its bytes before what the buffer held behind them.
abbrev pub overwrite : Bytes → (buffer : Bytes) → Bytes
overwrite s buffer = s ++ drop (length s) buffer

-- `buffer[0] == '\0'`
abbrev pub is_empty : (buffer : Bytes) → Bool
is_empty [] = true
is_empty (c ∷ s) = c == nul

-- `recv` gives at most 15 bytes, or `none` for -1. `printf` by `%s` needs a NUL in the buffer.
unfoldable pub echo : (buffer : Bytes) → Option Bytes → Echoed
echo buffer none = stop
echo buffer (some s) =
    if no_nul (overwrite s buffer)
    then undefined
    else if is_empty (overwrite s buffer)
    then stop
    else replied s

abbrev pub cleared : Bytes
cleared = 0 ∷ 0 ∷ 0 ∷ 0 ∷ 0 ∷ 0 ∷ 0 ∷ 0 ∷ 0 ∷ 0 ∷ 0 ∷ 0 ∷ 0 ∷ 0 ∷ 0 ∷ 0 ∷ []

-- How the loop over the accepted connections goes: the server waits for the next one, has exited, or
-- what it does is undefined.
pub data Going : Type 0 where
  running ended faulted : Going

-- The replies in order, and how it goes on. `buffer` is not set before the first connection and cleared
-- behind each.
unfoldable pub serve : (buffer : Bytes) → List (Option Bytes) → List Bytes × Going
unfolding echo
serve buffer [] = ([], running)
serve buffer (r ∷ rs) =
    let (replies, going) = serve cleared rs in
    elim (echo buffer r) [
      | stop ↦ ([], ended)
      | undefined ↦ ([], faulted)
      | replied reply ↦ (reply ∷ replies, going)
    ]
