-- ===== src/Sockets.antt =====
-- The loops over the results of `getaddrinfo` that the clients (echo/echoclient.c,
-- transfer/transferclient.c, gflib/gfclient.c) and the servers (echo/echoserver.c,
-- transfer/transferserver.c, gflib/gfserver.c) of gios-spr-2018-pr1-master share.
use intro_to_os.Base.{◌≡◌, refl, Bool, true, false, List, [], ◌∷◌, if◌then◌else◌}

-- How one round of a client's loop goes: `socket` fails, `connect` fails, or neither.
pub data Dial : Type 0 where
  no_socket refused connected : Dial

-- How one round of a server's loop goes; a failing `setsockopt` ends the program.
pub data Bind : Type 0 where
  no_socket no_option not_bound bound : Bind

-- Where a loop stands after these rounds: left at an address, at the NULL behind the last one, out
-- of the program by `exit(1)`, or still going on.
pub data Tried (A : Type 0) : Type 0 where
  at : A → Tried A
  none_left : Tried A
  stopped : Tried A
  going_on : Tried A

abbrev pub failing : List Dial → Bool
failing [] = true
failing (connected ∷ rounds) = false
failing (_ ∷ rounds) = failing rounds

module _ {A : Type 0} where
  -- `continue` goes back to the test without `p = p->ai_next`.
  unfoldable pub dial_loop : List A → List Dial → Tried A
  dial_loop [] rounds = none_left
  dial_loop (p ∷ rest) [] = going_on
  dial_loop (p ∷ rest) (Dial.no_socket ∷ rounds) = dial_loop (p ∷ rest) rounds
  dial_loop (p ∷ rest) (refused ∷ rounds) = dial_loop (p ∷ rest) rounds
  dial_loop (p ∷ rest) (connected ∷ rounds) = at p

  unfoldable pub bind_loop : List A → List Bind → Tried A
  bind_loop [] rounds = none_left
  bind_loop (p ∷ rest) [] = going_on
  bind_loop (p ∷ rest) (Bind.no_socket ∷ rounds) = bind_loop (p ∷ rest) rounds
  bind_loop (p ∷ rest) (no_option ∷ rounds) = stopped
  bind_loop (p ∷ rest) (not_bound ∷ rounds) = bind_loop (p ∷ rest) rounds
  bind_loop (p ∷ rest) (bound ∷ rounds) = at p

  -- The loop leaves at the first address or not at all.
  abbrev pub AtFirst : A → Tried A → Type 0
  AtFirst p (at q) = q ≡ p
  AtFirst p none_left = ⊥
  AtFirst p stopped = Unit
  AtFirst p going_on = Unit

  -- The other addresses are never tried: however the rounds go, a client's loop ends at the first
  -- address or goes on with it, and it goes on for as long as no round connects.
  dial_loop-AtFirst :
      (p : A) (rest : List A) (rounds : List Dial)
      → AtFirst p (dial_loop (p ∷ rest) rounds)
        × (dial_loop (p ∷ rest) rounds ≡ (if failing rounds then going_on else at p))
  unfolding dial_loop
  dial_loop-AtFirst p rest [] = (tt, refl)
  dial_loop-AtFirst p rest (Dial.no_socket ∷ rounds) = dial_loop-AtFirst p rest rounds
  dial_loop-AtFirst p rest (refused ∷ rounds) = dial_loop-AtFirst p rest rounds
  dial_loop-AtFirst p rest (connected ∷ rounds) = (refl, refl)

  -- So it is with a server's loop.
  bind_loop-AtFirst :
      (p : A) (rest : List A) (rounds : List Bind) → AtFirst p (bind_loop (p ∷ rest) rounds)
  unfolding bind_loop
  bind_loop-AtFirst p rest [] = tt
  bind_loop-AtFirst p rest (Bind.no_socket ∷ rounds) = bind_loop-AtFirst p rest rounds
  bind_loop-AtFirst p rest (no_option ∷ rounds) = tt
  bind_loop-AtFirst p rest (not_bound ∷ rounds) = bind_loop-AtFirst p rest rounds
  bind_loop-AtFirst p rest (bound ∷ rounds) = refl
