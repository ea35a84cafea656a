-- ===== src/Echo/Client.antt =====
-- echo/echoclient.c of gios-spr-2018-pr1-master: the options, the connection and the exchange.
use intro_to_os.Base.{
  ℕ, ◌^◌, ◌%◌, [], ◌∷◌, List, Option, none, some, ◌==◌, ltb, if◌then◌else◌, length,
}
use intro_to_os.Text.{Bytes, codes, c_string}
use intro_to_os.Text.Decimal.{atoi}
use intro_to_os.Launch.{Started, ready, exited, ◌>>=◌, copy_port, bad_port}
use intro_to_os.Sockets.{Tried, at, none_left, stopped, going_on, Dial, dial_loop}

pub data ClientOption : Type 0 where
  server port message : Bytes → ClientOption
  help other : ClientOption

pub record Config : Type 0 where
  pub hostname : Bytes
  pub port : Bytes
  pub portno : ℕ
  pub message : Bytes

abbrev pub defaults : Config
defaults = record {
  hostname = codes "localhost";
  port = codes "6200";
  portno = 6200;
  message = codes "Hello world!!";
}

-- `portno` is an `unsigned short` here.
unfoldable pub options : List ClientOption → Config → Started Config
options [] c = ready c
options (ClientOption.server text ∷ os) c = options os (record c { hostname = text })
options (ClientOption.port text ∷ os) c =
    copy_port text (record c { port = text; portno = atoi text % 2 ^ 16 }) >>= options os
options (ClientOption.message text ∷ os) c = options os (record c { message = text })
options (ClientOption.help ∷ os) c = exited 0
options (ClientOption.other ∷ os) c = exited 1

unfoldable pub check : (argc : ℕ) → Config → Started Config
check argc c = if bad_port c.portno then exited 1 else if ltb 7 argc then exited 1 else ready c

-- What the program prints: `recvbuf` up to its first NUL, after `send` took the whole message.
unfoldable pub exchange : Config → (sent : Option ℕ) → (reply : Option Bytes) → Started Bytes
exchange c none reply = exited 1
exchange c (some n) reply =
    if n == length c.message
    then elim reply [ none ↦ exited 1 | some text ↦ ready (c_string text) ]
    else exited 1

unfoldable pub run :
    (argc : ℕ)
    → List ClientOption
    → (found : Option (List ℕ)) → List Dial
    → (sent : Option ℕ) → (reply : Option Bytes) → Started (Tried Bytes)
unfolding options check exchange
run argc os found rounds sent reply = do
  c ← options os defaults
  c' ← check argc c
  elim found [
    | none ↦ exited 1
    | some addresses ↦ elim (dial_loop addresses rounds) [
      | none_left ↦ exited 2
      | stopped ↦ exited 2
      | going_on ↦ ready going_on
      | at p ↦ exchange c' sent reply >>= λ text. ready (at text)
    ]
  ]
