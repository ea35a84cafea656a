-- ===== src/Cache/Laws.antt =====
-- One request through the proxy and the cache daemon: cache/handle_with_cache.c and
-- cache/simplecached.c with the messages and the segment between them.
use intro_to_os.Base.{
  ℕ, ◌≡◌, ◌<◌, refl, Bool, true, ◌∷◌, ◌++◌, List, Option, none, some, length, ap, ◌∙◌,
  if◌then◌else◌,
}
use intro_to_os.Text.{Bytes, is_space}
use intro_to_os.Text.Compare.{bytes_eq, bytes_eq_refl}
use intro_to_os.Text.Token.{IsToken, c_string_self}
use intro_to_os.Text.Decimal.{atoi}
use intro_to_os.Content.{Entry, returned, simplecache_get}
use intro_to_os.Cache.Message.{bufsize, command, parse_command-command, not_found}
use intro_to_os.Cache.Daemon.{replied, after_lookup, with_command, worker_round, lookup}
use intro_to_os.Cache.Proxy as Proxy
use intro_to_os.Cache.Proxy.{
  Channel, Handled, refused, handle_with_cache, with_reply, with_length, from_segment,
}

lookup-returned :
    (items : List Entry) (path : Bytes) (fd : ℕ)
    → simplecache_get items path ≡ returned (some fd)
    → lookup items (some path) ≡ returned (some fd)
unfolding lookup
lookup-returned items path fd h = h

-- The calls of a run in which all goes well.
abbrev pub channel : (text segment : Bytes) → Channel
channel text segment = record {
  has_key = true;
  has_queue = true;
  accepts = true;
  has_key_back = true;
  received = some text;
  segment = some segment;
}

handle_with_cache-with_reply :
    (path name text segment : Bytes) (answers : List (Option ℕ × Option ℕ))
    → command path name ≡ some (path ++ b' ' ∷ name)
    → handle_with_cache path name (channel text segment) answers
      ≡ with_reply (some text) (some segment) answers
unfolding handle_with_cache
handle_with_cache-with_reply path name text segment answers sends =
    ap (λ c. Proxy.with_command c (channel text segment) answers) sends

with_reply-not_found :
    (segment : Bytes) (answers : List (Option ℕ × Option ℕ))
    → with_reply (some not_found) (some segment) answers ≡ refused
unfolding with_reply
with_reply-not_found segment answers =
    ap (λ t. if bytes_eq t not_found then refused else with_length (atoi t) (some segment) answers)
      (c_string_self not_found refl)
    ∙ ap (λ (b : Bool). if b then refused else with_length (atoi not_found) (some segment) answers)
        (bytes_eq_refl not_found)

module _ (items : List Entry) (files : ℕ → Option Bytes) (segments : Bytes → Option Bytes)
    (path name : Bytes) (token : IsToken is_space path) (filled : 0 < length name)
    (fits : length (path ++ b' ' ∷ name) < bufsize) where
  -- The daemon's round on the proxy's command.
  worker_round-command :
      (sends removes : Bool) (rs : List (Option ℕ))
      → worker_round (some (path ++ b' ' ∷ name)) items files segments sends removes rs
        ≡ after_lookup (simplecache_get items path) files (some name) segments sends removes rs
  unfolding worker_round lookup
  worker_round-command sends removes rs =
      ap (λ c. with_command c items files segments sends removes rs)
        (parse_command-command path name token filled fits).1

  -- A request for a path that is not listed: the daemon answers NOT_FOUND and leaves the segment as it
  -- is, and on this answer the proxy sends the header FILE_NOT_FOUND.
  worker_round-refused :
      (rs : List (Option ℕ)) (segment : Bytes) (answers : List (Option ℕ × Option ℕ))
      → simplecache_get items path ≡ returned none
      → (worker_round (some (path ++ b' ' ∷ name)) items files segments true true rs
          ≡ replied not_found none)
        × (handle_with_cache path name (channel not_found segment) answers ≡ refused)
  worker_round-refused rs segment answers missing = (
    worker_round-command true true rs
        ∙ ap (λ l. after_lookup l files (some name) segments true true rs) missing,
    handle_with_cache-with_reply path name not_found segment answers
          (parse_command-command path name token filled fits).0
        ∙ with_reply-not_found segment answers,
  )
