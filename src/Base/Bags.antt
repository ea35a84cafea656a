-- ===== src/Base/Bags.antt =====
-- Lists without their order.
use Prim.Native.Nat.{ℕ}
use mathlib.Core.Path.{◌≡◌}
use mathlib.Core.Bool.{Bool, true, false}
use mathlib.Core.List.{List}
use mathlib.Core.Quot
use mathlib.Core.Quot.{Quot}
use intro_to_os.Base.Totals.{total}

-- 1 for an element of the kind `p`.
abbrev pub one_of : {A : Type 0} → (A → Bool) → A → ℕ
one_of p x = elim (p x) [ true ↦ 1 | false ↦ 0 ]

-- As many elements of each kind.
abbrev pub SameItems : {A : Type 0} → List A → List A → Type 0
SameItems {A = A} xs ys = (p : A → Bool) → total (one_of p) xs ≡ total (one_of p) ys

abbrev pub Bag : Type 0 → Type 0
Bag A = Quot (SameItems {A = A})

abbrev pub of_list : {A : Type 0} → List A → Bag A
of_list xs = Quot.mk xs

pub of_list_eq : {A : Type 0} (xs ys : List A) → SameItems xs ys → of_list xs ≡ of_list ys
of_list_eq xs ys h = Quot.sound h
