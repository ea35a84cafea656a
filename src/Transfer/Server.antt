-- ===== src/Transfer/Server.antt =====
-- transfer/transferserver.c of gios-spr-2018-pr1-master: the options, the start and the first connection.
-- Its end closes the one stream of the file, which every later connection reads from or closes again.
use intro_to_os.Base.{
  ℕ, ◌+◌, ◌-◌, ◌%◌, ◌^◌, Bool, [], ◌∷◌, ◌++◌, List, Option, none, some, ltb, if◌then◌else◌, length,
  take, drop,
}
use intro_to_os.Text.{padded, Bytes, codes}
use intro_to_os.Text.Decimal.{atoi}
use intro_to_os.Launch.{Started, ready, exited, ◌>>=◌, copy_port, bad_port}
use intro_to_os.Sockets.{Tried, at, none_left, stopped, going_on, Bind, bind_loop}

pub data ServerOption : Type 0 where
  port filename : Bytes → ServerOption
  help other : ServerOption

pub record Config : Type 0 where
  pub port : Bytes
  pub portno : ℕ
  pub filename : Bytes

abbrev pub defaults : Config
defaults = record { port = codes "6200"; portno = 6200; filename = codes "cs6200.txt" }

unfoldable pub options : List ServerOption → Config → Started Config
options [] c = ready c
options (ServerOption.port text ∷ os) c =
    copy_port text (record c { port = text; portno = atoi text }) >>= options os
options (ServerOption.filename text ∷ os) c = options os (record c { filename = text })
options (ServerOption.help ∷ os) c = exited 0
options (ServerOption.other ∷ os) c = exited 1

unfoldable pub check : (argc : ℕ) → Config → Started Config
check argc c = if bad_port c.portno then exited 1 else if ltb 7 argc then exited 1 else ready c

-- Up to the file's size: `files` is what `stat` finds under a name, `none` if it fails.
unfoldable pub start :
    (argc : ℕ)
    → List ServerOption
    → (found : Option (List ℕ)) → List Bind
    → (listens : Bool) → (files : Bytes → Option Bytes) → Started (Tried Bytes)
unfolding options check
start argc os found rounds listens files = do
  c ← options os defaults
  c' ← check argc c
  elim found [
    | none ↦ exited 1
    | some addresses ↦ elim (bind_loop addresses rounds) [
      | none_left ↦ exited 1
      | stopped ↦ exited 1
      | going_on ↦ ready going_on
      | at p ↦
          if listens
          then elim (files c'.filename) [ none ↦ exited 1 | some file ↦ ready (at file) ]
          else exited 1
    ]
  ]

-- `BUFSIZE-1`
abbrev pub room : ℕ
room = 4095

-- How far a connection gets: behind `close`, with what its socket took; waiting in `send`; or undefined.
pub data Sent : Type 0 where
  closed : Bytes → Sent
  sending : Bytes → Sent
  undefined : Sent

-- The bytes that one `send` is asked to take when `left` are missing.
abbrev pub request : (left : ℕ) → ℕ
request left = if ltb left room then left else room

-- `send` takes `k` of the `n` bytes, and never more than there are.
abbrev pub accepted : (k n : ℕ) → ℕ
accepted k n = if ltb k n then k else n

-- The loop on the rest of the file. `bytes_sent` is `sent - errors`, so that a first `send` that
-- fails leaves -1 there, and `bytes_left` is `total + errors - sent`. Each answer is that of one
-- `send`, `none` for -1.
unfoldable pub send_loop :
    (total errors sent : ℕ) → (rest : Bytes) → List (Option ℕ) → (wire : Bytes) → Sent
send_loop total errors sent rest [] wire =
    if ltb sent (total + errors) then sending wire else closed wire
send_loop total errors sent rest (none ∷ answers) wire = closed wire
send_loop total errors sent rest (some k ∷ answers) wire =
    let n = request (total + errors - sent) in
    let more =
      send_loop total errors (sent + accepted k n) (drop n rest) answers
        (wire ++ take (accepted k n) (padded n rest)) in
    if ltb sent (total + errors) then more else closed wire

-- The first connection with `total_bytes`. Its first bytes are in the buffer since before `accept`.
abbrev pub with_total : (total : ℕ) → (file : Bytes) → List (Option ℕ) → Sent
with_total total file [] = sending []
with_total total file (none ∷ answers) = send_loop total 1 0 (drop room file) answers []
with_total total file (some k ∷ answers) =
    let n = request total in
    send_loop total 0 (accepted k n) (drop room file) answers (take (accepted k n) (padded n file))

-- `total_bytes` is an `int`, which gets the low 32 bits of the size. If it is negative, so is
-- `bytes_left`, and `send` is told to read far past the buffer. `opens` is whether `fopen` succeeds; its
-- result is used without a test.
unfoldable pub serve_first : (opens : Bool) → (file : Bytes) → List (Option ℕ) → Sent
unfolding send_loop
serve_first opens file answers =
    let total = length file % 2 ^ 32 in
    if opens
    then if ltb total (2 ^ 31) then with_total total file answers else undefined
    else undefined
