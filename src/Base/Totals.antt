-- ===== src/Base/Totals.antt =====
-- Lists of threads: a change of one of them, and sums over them.
use Prim.Native.Nat.{ℕ, zero, suc, ◌+◌, ◌<◌, ◌≤◌}
use mathlib.Core.Path.{◌≡◌, refl, ap}
use mathlib.Core.Logic.{inl, inr}
use mathlib.Core.List.{List, [], ◌∷◌, ◌++◌, map}
use mathlib.Core.Option.{some}
use native.Mathlib.Omega.{arith}
use intro_to_os.Base.Tests.{trichotomy}
use intro_to_os.Base.Lists.{length, get_elem?, All}

abbrev pub set_elem : {A : Type 0} → ℕ → A → List A → List A
set_elem i y [] = []
set_elem zero y (x ∷ xs) = y ∷ xs
set_elem (suc i) y (x ∷ xs) = x ∷ set_elem i y xs

abbrev pub total : {A : Type 0} → (A → ℕ) → List A → ℕ
total w [] = 0
total w (x ∷ xs) = w x + total w xs

pub total-set_elem :
    {A : Type 0} (w : A → ℕ) (i : ℕ) (x y : A) (xs : List A)
    → get_elem? xs i ≡ some x
    → total w (set_elem i y xs) + w x ≡ total w xs + w y
total-set_elem w i x y [] h = cc
total-set_elem w zero x y (z ∷ xs) h = grind arith
total-set_elem w (suc i) x y (z ∷ xs) h = omega (arith, total-set_elem w i x y xs h)

-- A sum that is not 0 has a part that is not 0.
pub total-pos :
    {A : Type 0} (w : A → ℕ) (xs : List A)
    → 0 < total w xs
    → (i : ℕ) × (x : A) × (get_elem? xs i ≡ some x) × (0 < w x)
total-pos w [] h = absurd (omega arith)
total-pos w (x ∷ xs) h = elim (trichotomy 0 (w x)) [
  | inl lt ↦ (0, x, refl, lt)
  | inr least ↦ let (i, y, got, pos) = total-pos w xs (grind arith) in (suc i, y, got, pos)
]

pub length-set_elem :
    {A : Type 0} (i : ℕ) (y : A) (xs : List A) → length (set_elem i y xs) ≡ length xs
length-set_elem i y [] = refl
length-set_elem zero y (x ∷ xs) = refl
length-set_elem (suc i) y (x ∷ xs) = ap suc (length-set_elem i y xs)

pub total-append :
    {A : Type 0} (w : A → ℕ) (xs ys : List A) → total w (xs ++ ys) ≡ total w xs + total w ys
total-append w [] ys = omega arith
total-append w (x ∷ xs) ys = omega (arith, total-append w xs ys)

pub total-get_elem? :
    {A : Type 0} (w : A → ℕ) (xs : List A) (j : ℕ) (x : A)
    → get_elem? xs j ≡ some x
    → w x ≤ total w xs
total-get_elem? w [] j x h = cc
total-get_elem? w (y ∷ xs) zero x h = grind arith
total-get_elem? w (y ∷ xs) (suc j) x h = omega (arith, total-get_elem? w xs j x h)

pub All-set_elem :
    {A : Type 0} (P : A → Type 0) (i : ℕ) (y : A) (xs : List A)
    → All P xs
    → P y
    → All P (set_elem i y xs)
All-set_elem P i y [] all h = tt
All-set_elem P zero y (x ∷ xs) all h = (h, all.1)
All-set_elem P (suc i) y (x ∷ xs) all h = (all.0, All-set_elem P i y xs all.1 h)

pub map-set_elem :
    {A B : Type 0} (f : A → B) (i : ℕ) (x y : A) (xs : List A)
    → get_elem? xs i ≡ some x
    → f y ≡ f x
    → map f (set_elem i y xs) ≡ map f xs
map-set_elem f i x y [] got e = refl
map-set_elem f zero x y (z ∷ xs) got e = cc
map-set_elem f (suc i) x y (z ∷ xs) got e = ap (λ ys. f z ∷ ys) (map-set_elem f i x y xs got e)
