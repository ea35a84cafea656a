-- ===== src/Text/Token.antt =====
-- What `strsep`, `strtok` and `c_string` do on a text that is put together from a token, a
-- delimiter and a rest.
use intro_to_os.Base.{
  ap, zero, suc, Bool-cases, inl, inr, ℕ, ◌<◌, length, ◌≡◌, refl, Bool, true, not, [], ◌∷◌, ◌++◌,
  arith, all_of, some, none, List,
}
use intro_to_os.Text.{padded, Bytes, c_string, no_nul, strsep, strtok, token_end}

-- No byte of the token is a delimiter.
abbrev pub free_of : (ℕ → Bool) → Bytes → Bool
free_of delim = all_of (λ c. not (delim c))

module _ (delim : ℕ → Bool) (d : ℕ) (is : delim d ≡ true) where
  pub strsep-append :
      (token rest : Bytes)
      → free_of delim token ≡ true
      → strsep delim (token ++ d ∷ rest) ≡ (token, some rest)
  unfolding strsep
  strsep-append [] rest h = rw is
  strsep-append (c ∷ token) rest h = ground (arith, strsep-append token rest)

  token_end-append :
      (token rest : Bytes)
      → free_of delim token ≡ true
      → token_end delim (token ++ d ∷ rest) ≡ (token, rest)
  unfolding token_end
  token_end-append [] rest h = rw is
  token_end-append (c ∷ token) rest h = ground (arith, token_end-append token rest)

  -- A token that is not empty is returned whole.
  strtok-append :
      (c : ℕ) (token rest : Bytes)
      → free_of delim (c ∷ token) ≡ true
      → strtok delim ((c ∷ token) ++ d ∷ rest) ≡ (some (c ∷ token), rest)
  unfolding strtok
  strtok-append c token rest h = ground (arith, token_end-append (c ∷ token) rest h)

token_end_whole :
    (delim : ℕ → Bool) (token : Bytes)
    → free_of delim token ≡ true
    → token_end delim token ≡ (token, [])
unfolding token_end
token_end_whole delim [] h = refl
token_end_whole delim (c ∷ token) h = ground (arith, token_end_whole delim token)

-- A token that reaches to the end of the text leaves nothing.
strtok_whole :
    (delim : ℕ → Bool) (c : ℕ) (token : Bytes)
    → free_of delim (c ∷ token) ≡ true
    → strtok delim (c ∷ token) ≡ (some (c ∷ token), [])
unfolding strtok
strtok_whole delim c token h = ground (arith, token_end_whole delim (c ∷ token))

pub strsep_whole :
    (delim : ℕ → Bool) (token : Bytes)
    → free_of delim token ≡ true
    → strsep delim token ≡ (token, none)
unfolding strsep
strsep_whole delim [] h = refl
strsep_whole delim (c ∷ token) h = ground (arith, strsep_whole delim token)

pub c_string_self : (s : Bytes) → no_nul s ≡ true → c_string s ≡ s
unfolding c_string
c_string_self [] h = refl
c_string_self (c ∷ s) h = ground (arith, c_string_self s)

pub c_string-append : (s t : Bytes) → no_nul s ≡ true → c_string (s ++ t) ≡ s ++ c_string t
unfolding c_string
c_string-append [] t h = refl
c_string-append (c ∷ s) t h = ground (arith, c_string-append s t)

pub all_of-append {ℓ} :
    {A : Type ℓ} (p : A → Bool) (xs ys : List A)
    → all_of p xs ≡ true
    → all_of p ys ≡ true
    → all_of p (xs ++ ys) ≡ true
all_of-append p [] ys h k = k
all_of-append p (x ∷ xs) ys h k = ground (arith, all_of-append p xs ys)

-- A token as `strtok` returns it: not empty and without the delimiter.
pub record IsToken (delim : ℕ → Bool) (s : Bytes) : Type 0 where
  pub filled : 0 < length s
  pub free : free_of delim s ≡ true

pub strtok-IsToken :
    (delim : ℕ → Bool) (d : ℕ) (s rest : Bytes)
    → delim d ≡ true
    → IsToken delim s
    → strtok delim (s ++ d ∷ rest) ≡ (some s, rest)
strtok-IsToken delim d [] rest is t = absurd (omega (arith, t.filled))
strtok-IsToken delim d (c ∷ s) rest is t = strtok-append delim d is c s rest t.free

pub strtok-IsToken_whole :
    (delim : ℕ → Bool) (s : Bytes) → IsToken delim s → strtok delim s ≡ (some s, [])
strtok-IsToken_whole delim [] t = absurd (omega (arith, t.filled))
strtok-IsToken_whole delim (c ∷ s) t = strtok_whole delim c s t.free

pub all_of_weaken :
    (p q : ℕ → Bool) (s : Bytes)
    → ((c : ℕ) → p c ≡ true → q c ≡ true)
    → all_of p s ≡ true
    → all_of q s ≡ true
all_of_weaken p q [] w h = refl
all_of_weaken p q (c ∷ s) w h = elim (Bool-cases (p c)) [
  | inl good ↦ rw (w c good) (all_of_weaken p q s w (rw good at h))
  | inr bad ↦ cc (h, bad)
]

pub length-padded : (n : ℕ) (s : Bytes) → length (padded n s) ≡ n
unfolding padded
length-padded zero s = refl
length-padded (suc n) [] = ap suc (length-padded n [])
length-padded (suc n) (c ∷ s) = ap suc (length-padded n s)
