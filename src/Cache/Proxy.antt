-- ===== src/Cache/Proxy.antt =====
-- `handle_with_cache` of cache/handle_with_cache.c. `gfs_sendheader` and `gfs_send` are those of a
-- library without source: a handler is taken as the header that it asks for and the bytes that it
-- sends.
use intro_to_os.Base.{
  ℕ, ◌-◌, Bool, [], List, Option, none, some, ◌==◌, if◌then◌else◌, ltb, not, ◌^◌,
}
use intro_to_os.Text.{Bytes, c_string}
use intro_to_os.Text.Compare.{bytes_eq}
use intro_to_os.Text.Decimal.{atoi}
use intro_to_os.Cache.Message.{bufsize, command, not_found, extend}
use intro_to_os.Cache.Chunks.{Sent, sent, failed, send_loop}

-- What the calls of one run of the handler give: whether `ftok`, `msgget`, `msgsnd` and the second
-- `ftok` succeed, what `msgrcv` receives, and what `shm_open` finds.
pub record Channel : Type 0 where
  pub has_key : Bool
  pub has_queue : Bool
  pub accepts : Bool
  pub has_key_back : Bool
  pub received : Option Bytes
  pub segment : Option Bytes

-- The handler sends the header FILE_NOT_FOUND; or the header OK with this length and then bytes; or
-- writes past its buffer.
pub data Handled : Type 0 where
  refused : Handled
  served : (file_len : ℕ) → Sent → Handled
  overflow : Handled

-- `pread` on the descriptor -1 fails.
abbrev pub without_segment : (file_len : ℕ) → Sent
without_segment file_len = if ltb 0 file_len then failed [] else sent []

abbrev pub from_segment : Option Bytes → (file_len : ℕ) → List (Option ℕ × Option ℕ) → Sent
from_segment none file_len answers = without_segment file_len
from_segment (some segment) file_len answers = send_loop bufsize segment file_len answers 0 []

-- The number in the reply, of which -1 is refused.
abbrev pub with_length :
    (message_from_cache : ℕ) → Option Bytes → List (Option ℕ × Option ℕ) → Handled
with_length message_from_cache segment answers =
    if message_from_cache == 2 ^ 32 - 1
    then refused
    else served (extend message_from_cache)
        (from_segment segment (extend message_from_cache) answers)

-- Behind `msgrcv`.
unfoldable pub with_reply : Option Bytes → Option Bytes → List (Option ℕ × Option ℕ) → Handled
unfolding send_loop
with_reply none segment answers = refused
with_reply (some text) segment answers =
    if bytes_eq (c_string text) not_found
    then refused
    else with_length (atoi (c_string text)) segment answers

abbrev pub with_command : Option Bytes → Channel → List (Option ℕ × Option ℕ) → Handled
with_command none ch answers = overflow
with_command (some text) ch answers =
    if not ch.accepts
    then refused
    else if not ch.has_key_back
    then refused
    else with_reply ch.received ch.segment answers

unfoldable pub handle_with_cache :
    (path name : Bytes) → Channel → List (Option ℕ × Option ℕ) → Handled
unfolding command with_reply
handle_with_cache path name ch answers =
    if not ch.has_key
    then refused
    else if not ch.has_queue
    then refused
    else with_command (command path name) ch answers
