-- ===== src/Transfer/Client.antt =====
-- transfer/transferclient.c of gios-spr-2018-pr1-master: the options, the connection and the loop
-- that saves the file.
use intro_to_os.Base.{
  ℕ, ◌^◌, ◌%◌, Bool, [], ◌∷◌, ◌++◌, List, Option, none, some, ltb, if◌then◌else◌,
}
use intro_to_os.Text.{Bytes, codes}
use intro_to_os.Text.Decimal.{atoi}
use intro_to_os.Launch.{Started, ready, exited, ◌>>=◌, copy_port, bad_port}
use intro_to_os.Sockets.{Tried, at, none_left, stopped, going_on, Dial, dial_loop}

pub data ClientOption : Type 0 where
  server port output : Bytes → ClientOption
  help other : ClientOption

pub record Config : Type 0 where
  pub hostname : Bytes
  pub port : Bytes
  pub portno : ℕ
  pub filename : Bytes

abbrev pub defaults : Config
defaults = record {
  hostname = codes "localhost";
  port = codes "6200";
  portno = 6200;
  filename = codes "6200.txt";
}

-- `portno` is an `unsigned short` here.
unfoldable pub options : List ClientOption → Config → Started Config
options [] c = ready c
options (ClientOption.server text ∷ os) c = options os (record c { hostname = text })
options (ClientOption.port text ∷ os) c =
    copy_port text (record c { port = text; portno = atoi text % 2 ^ 16 }) >>= options os
options (ClientOption.output text ∷ os) c = options os (record c { filename = text })
options (ClientOption.help ∷ os) c = exited 0
options (ClientOption.other ∷ os) c = exited 1

unfoldable pub check : (argc : ℕ) → Config → Started Config
check argc c = if bad_port c.portno then exited 1 else if ltb 7 argc then exited 1 else ready c

-- What is in the output file when the program returns 0, exits with 1 or waits in `recv`; it does
-- not exist before the first `recv`.
pub data Saved : Type 0 where
  saved : Bytes → Saved
  failed : Option Bytes → Saved
  waiting : Option Bytes → Saved

-- The loop, behind a `recv` that gave bytes. `none` is a `recv` of -1.
unfoldable pub recv_loop : List (Option Bytes) → (written : Bytes) → Saved
recv_loop [] written = waiting (some written)
recv_loop (none ∷ rs) written = failed (some written)
recv_loop (some [] ∷ rs) written = saved written
recv_loop (some (c ∷ chunk) ∷ rs) written = recv_loop rs (written ++ (c ∷ chunk))

unfoldable pub save : (opens : Bool) → List (Option Bytes) → Saved
unfolding recv_loop
save opens [] = waiting none
save opens (none ∷ rs) = failed none
save opens (some [] ∷ rs) = if opens then saved [] else failed none
save opens (some (c ∷ chunk) ∷ rs) = if opens then recv_loop rs (c ∷ chunk) else failed none

unfoldable pub run :
    (argc : ℕ)
    → List ClientOption
    → (found : Option (List ℕ)) → List Dial
    → (opens : Bool) → List (Option Bytes)
    → Started (Tried Saved)
unfolding options check save
run argc os found rounds opens rs = do
  c ← options os defaults
  c' ← check argc c
  elim found [
    | none ↦ exited 1
    | some addresses ↦ elim (dial_loop addresses rounds) [
      | none_left ↦ exited 1
      | stopped ↦ exited 1
      | going_on ↦ ready going_on
      | at p ↦ ready (at (save opens rs))
    ]
  ]
