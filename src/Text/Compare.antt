-- ===== src/Text/Compare.antt =====
-- `strcmp` of the C library as a comparison.
use Prim.Native.Nat.{Ordering}
use intro_to_os.Base.{◌≡◌, refl, ◌⊎◌, inl, inr, [], ◌∷◌, arith, true, false, Bool}
use intro_to_os.Text.{Bytes, strcmp}

pub strcmp_refl : (s : Bytes) → strcmp s s ≡ Ordering.eq
unfolding strcmp
strcmp_refl [] = refl
strcmp_refl (a ∷ s) = ground (arith, strcmp_refl s)

pub eq_of_strcmp : (s t : Bytes) → strcmp s t ≡ Ordering.eq → s ≡ t
unfolding strcmp
eq_of_strcmp [] [] h = refl
eq_of_strcmp [] (b ∷ t) h = cc
eq_of_strcmp (a ∷ s) [] h = cc
eq_of_strcmp (a ∷ s) (b ∷ t) h = ground (arith, eq_of_strcmp s t)

pub strcmp-gt_of_lt : (s t : Bytes) → strcmp s t ≡ Ordering.lt → strcmp t s ≡ Ordering.gt
unfolding strcmp
strcmp-gt_of_lt [] [] h = cc
strcmp-gt_of_lt [] (b ∷ t) h = refl
strcmp-gt_of_lt (a ∷ s) [] h = cc
strcmp-gt_of_lt (a ∷ s) (b ∷ t) h = ground (arith, strcmp-gt_of_lt s t)

pub strcmp-lt_of_gt : (s t : Bytes) → strcmp s t ≡ Ordering.gt → strcmp t s ≡ Ordering.lt
unfolding strcmp
strcmp-lt_of_gt [] [] h = cc
strcmp-lt_of_gt [] (b ∷ t) h = cc
strcmp-lt_of_gt (a ∷ s) [] h = refl
strcmp-lt_of_gt (a ∷ s) (b ∷ t) h = ground (arith, strcmp-lt_of_gt s t)

pub strcmp-lt_trans :
    (s t u : Bytes) → strcmp s t ≡ Ordering.lt → strcmp t u ≡ Ordering.lt → strcmp s u ≡ Ordering.lt
unfolding strcmp
strcmp-lt_trans [] [] u h k = cc
strcmp-lt_trans [] (b ∷ t) [] h k = cc
strcmp-lt_trans [] (b ∷ t) (c ∷ u) h k = refl
strcmp-lt_trans (a ∷ s) [] u h k = cc
strcmp-lt_trans (a ∷ s) (b ∷ t) [] h k = cc
strcmp-lt_trans (a ∷ s) (b ∷ t) (c ∷ u) h k = ground (arith, strcmp-lt_trans s t u)

pub Ordering-cases : (o : Ordering) → (o ≡ Ordering.lt) ⊎ ((o ≡ Ordering.gt) ⊎ (o ≡ Ordering.eq))
Ordering-cases Ordering.lt = inl refl
Ordering-cases Ordering.gt = inr (inl refl)
Ordering-cases Ordering.eq = inr (inr refl)

-- `strcmp(s, t) == 0`
unfoldable pub bytes_eq : Bytes → Bytes → Bool
unfolding strcmp
bytes_eq s t = elim (strcmp s t) [ Ordering.eq ↦ true | _ ↦ false ]

pub bytes_eq_refl : (s : Bytes) → bytes_eq s s ≡ true
unfolding bytes_eq
bytes_eq_refl s = ground (arith, strcmp_refl s)

pub eq_of_bytes_eq : (s t : Bytes) → bytes_eq s t ≡ true → s ≡ t
unfolding bytes_eq
eq_of_bytes_eq s t h = eq_of_strcmp s t (ground arith)
