-- ===== src/Launch.antt =====
-- What the `main` functions have in common: how far a program gets before its work, the port option
-- with its buffer, and the test of the port.
use intro_to_os.Base.{ℕ, ◌≡◌, Bool, true, false, ◌||◌, ltb, if◌then◌else◌, length, ◌≤◌, refl, arith}
use intro_to_os.Text.{Bytes}

-- A step of `main` goes on with what it has, ends the program with a status, or writes past a
-- buffer.
pub data Started (A : Type 0) : Type 0 where
  ready : A → Started A
  exited : ℕ → Started A
  overflow : Started A

module _ {A B : Type 0} where
  infixl 5 ◌>>=◌
  abbrev pub ◌>>=◌ : Started A → (A → Started B) → Started B
  ready a >>= f = f a
  exited code >>= f = exited code
  overflow >>= f = overflow

-- `char port[100]`, which `strcpy` fills without a test.
abbrev pub port_room : ℕ
port_room = 100

abbrev pub copy_port : {A : Type 0} → Bytes → A → Started A
copy_port text next = if ltb (length text) port_room then ready next else overflow

-- `(portno < 1025) || (portno > 65535)`. A negative `int` has a pattern of 2^31 or more.
abbrev pub bad_port : ℕ → Bool
bad_port portno = ltb portno 1025 || ltb 65535 portno

-- The program gets ready, and what it has then satisfies `P`.
abbrev pub WhenReady : {A : Type 0} → (A → Type 0) → Started A → Type 0
WhenReady P (ready a) = P a
WhenReady P (exited code) = Unit
WhenReady P overflow = Unit

pub WhenReady->>= :
    {A B : Type 0} (P : A → Type 0) (Q : B → Type 0) (m : Started A) (f : A → Started B)
    → WhenReady P m
    → ((a : A) → P a → WhenReady Q (f a))
    → WhenReady Q (m >>= f)
WhenReady->>= P Q (ready a) f h k = k a h
WhenReady->>= P Q (exited code) f h k = tt
WhenReady->>= P Q overflow f h k = tt

-- What is behind a test that ends the program may use that the test failed.
pub WhenReady-guard :
    {A : Type 0} (code : ℕ) (P : A → Type 0) (b : Bool) (m : Started A)
    → (b ≡ false → WhenReady P m)
    → WhenReady P (if b then exited code else m)
WhenReady-guard code P true m k = tt
WhenReady-guard code P false m k = k refl

-- The same for a test that lets the program go on.
pub WhenReady-require :
    {A : Type 0} (code : ℕ) (P : A → Type 0) (b : Bool) (m : Started A)
    → (b ≡ true → WhenReady P m)
    → WhenReady P (if b then m else exited code)
WhenReady-require code P true m k = k refl
WhenReady-require code P false m k = tt

-- What a step gives may also use that the step gave it.
pub WhenReady-self :
    {A : Type 0} (P : A → Type 0) (m : Started A)
    → WhenReady P m
    → WhenReady (λ a. P a × (m ≡ ready a)) m
WhenReady-self P (ready a) h = (h, refl)
WhenReady-self P (exited code) h = tt
WhenReady-self P overflow h = tt

fitting :
    {A : Type 0} (P : A → Type 0) (b : Bool) (next : A)
    → (b ≡ true → P next)
    → WhenReady P (if b then ready next else overflow)
fitting P true next k = k refl
fitting P false next k = tt

pub WhenReady-copy_port :
    {A : Type 0} (P : A → Type 0) (text : Bytes) (next : A)
    → (ltb (length text) port_room ≡ true → P next)
    → WhenReady P (copy_port text next)
WhenReady-copy_port P text next k = fitting P (ltb (length text) port_room) next k

pub bad_port-range : (portno : ℕ) → bad_port portno ≡ false → (1025 ≤ portno) × (portno ≤ 65535)
bad_port-range portno h = ground arith
