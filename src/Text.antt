-- ===== src/Text.antt =====
-- The string functions of the C library that the programs call, on bytes. A C string is the list
-- of its bytes without the NUL that ends it.
pub mod Compare
pub mod Token
pub mod Decimal
pub mod Atoi
use Prim.Native.Char.{code}
use Prim.Native.Nat.{compare, Ordering}
use Prim.Native.String.{String}
use intro_to_os.Base.{
  zero, ℕ, suc, ◌≡◌, Bool, List, [], ◌∷◌, ◌++◌, Option, none, some, ◌==◌, ◌||◌, if◌then◌else◌,
  arith, refl, true, false, all_of, not,
}

abbrev pub Bytes : Type 0
Bytes = List ℕ

-- What the chunks of a stream come to.
abbrev pub concat : List Bytes → Bytes
concat [] = []
concat (chunk ∷ chunks) = chunk ++ concat chunks

-- The bytes of an ASCII literal.
abbrev pub codes : String → Bytes
codes String.[] = []
codes (String.◌∷◌ c s) = code c ∷ codes s

abbrev pub nul : ℕ
nul = 0

abbrev pub newline : ℕ
newline = 10

abbrev pub carriage_return : ℕ
carriage_return = 13

abbrev pub tab : ℕ
tab = 9

-- What a `char *` to these bytes reads: all up to the first NUL.
unfoldable pub c_string : Bytes → Bytes
c_string [] = []
c_string (c ∷ s) = if c == nul then [] else c ∷ c_string s

abbrev pub no_nul : Bytes → Bool
no_nul = all_of (λ c. not (c == nul))

-- `strcmp`; the callers only read the sign of its result.
unfoldable pub strcmp : Bytes → Bytes → Ordering
strcmp [] [] = Ordering.eq
strcmp [] (b ∷ t) = Ordering.lt
strcmp (a ∷ s) [] = Ordering.gt
strcmp (a ∷ s) (b ∷ t) = elim (compare a b) [
  | Ordering.lt ↦ Ordering.lt
  | Ordering.gt ↦ Ordering.gt
  | Ordering.eq ↦ strcmp s t
]

-- `strsep`: what stands before the first delimiter, and what stands behind it.
unfoldable pub strsep : (ℕ → Bool) → Bytes → Bytes × Option Bytes
strsep delim [] = ([], none)
strsep delim (c ∷ s) =
    let (token, rest) = strsep delim s in if delim c then ([], some s) else (c ∷ token, rest)

-- `strtok` from the second phase on: the token and what stands behind the delimiter that ends it.
unfoldable pub token_end : (ℕ → Bool) → Bytes → Bytes × Bytes
token_end delim [] = ([], [])
token_end delim (c ∷ s) =
    let (token, rest) = token_end delim s in if delim c then ([], s) else (c ∷ token, rest)

-- `strtok` skips delimiters first, and returns NULL (`none`) if nothing else is left. The second
-- component is where the next `strtok(NULL, …)` goes on.
unfoldable pub strtok : (ℕ → Bool) → Bytes → Option Bytes × Bytes
unfolding token_end
strtok delim [] = (none, [])
strtok delim (c ∷ s) =
    if delim c
    then strtok delim s
    else (let (token, rest) = token_end delim (c ∷ s) in (some token, rest))

-- The delimiters that the programs pass.
abbrev pub is_space : ℕ → Bool
is_space c = c == b' '

abbrev pub is_blank : ℕ → Bool
is_blank c = c == b' ' || c == tab

abbrev pub is_line_end : ℕ → Bool
is_line_end c = c == carriage_return || c == newline

-- The first `n` bytes of a cleared buffer or of a file of that length, into which these are put.
unfoldable pub padded : ℕ → Bytes → Bytes
padded zero s = []
padded (suc n) [] = nul ∷ padded n []
padded (suc n) (c ∷ s) = c ∷ padded n s
