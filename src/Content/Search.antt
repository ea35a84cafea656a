-- ===== src/Content/Search.antt =====
-- The binary search of content.c and simplecache.c, and what it is to find.
use Prim.Native.Nat.{Ordering}
use intro_to_os.Base.{
  ℕ, zero, suc, ◌+◌, ◌-◌, ◌*◌, ◌/◌, ◌≡◌, ◌≢◌, ◌<◌, ◌≤◌, List, [], ◌∷◌, some, arith, ltb, trichotomy,
  length, get_elem?, get_elem?-lt, Bool-cases, ltb→lt, ltb→le, ◌^◌, inl, inr, ap, sym, ◌∙◌,
}
use intro_to_os.Text.{Bytes, strcmp}
use intro_to_os.Text.Compare.{strcmp_refl, eq_of_strcmp, strcmp-gt_of_lt, Ordering-cases}
use intro_to_os.Content.{Entry, Probe, hit, miss, out_of_bounds, out_of_fuel, middle, search, probe}

-- A total read for statements: an index in range.
abbrev pub key_at : List Entry → ℕ → Bytes
key_at [] i = []
key_at (e ∷ items) zero = e.key
key_at (e ∷ items) (suc i) = key_at items i

-- In the order of `_itemcmp`.
abbrev pub IsSorted : List Entry → Type 0
IsSorted items =
    (i j : ℕ) → i < j → j < length items → strcmp (key_at items i) (key_at items j) ≢ Ordering.gt

-- What the search of the range from `lo` up to `end` is to find out.
abbrev pub Finds : List Entry → Bytes → (lo end : ℕ) → Probe → Type 0
Finds items key lo end (hit i) = (lo ≤ i) × (i < end) × (key_at items i ≡ key)
Finds items key lo end miss = (i : ℕ) → lo ≤ i → i < end → key_at items i ≢ key
Finds items key lo end out_of_bounds = ⊥
Finds items key lo end out_of_fuel = ⊥

pub pow2 : ℕ → ℕ
pow2 zero = 1
pow2 (suc k) = 2 * pow2 k

pub key_at-get :
    (items : List Entry) (i : ℕ) (e : Entry) → get_elem? items i ≡ some e → key_at items i ≡ e.key
key_at-get [] i e h = cc
key_at-get (x ∷ items) zero e h = cc
key_at-get (x ∷ items) (suc i) e h = key_at-get items i e h

-- A wider range that adds only other keys.
widen :
    (items : List Entry) (key : Bytes) (lo end lo' end' : ℕ) (p : Probe)
    → lo ≤ lo'
    → end' ≤ end
    → ((i : ℕ) → lo ≤ i → i < end → (key_at items i ≡ key) → (lo' ≤ i) × (i < end'))
    → Finds items key lo' end' p
    → Finds items key lo end p
widen items key lo end lo' end' (hit i) a b only f = (omega arith, omega arith, f.2)
widen items key lo end lo' end' miss a b only f = λ i p q e. f i (only i p q e).0 (only i p q e).1 e
widen items key lo end lo' end' out_of_bounds a b only f = f
widen items key lo end lo' end' out_of_fuel a b only f = f

module _ (items : List Entry) (key : Bytes) (sorted : IsSorted items) where
  -- A key below the middle one stands before it, and one above stands behind it.
  before :
      (m i : ℕ)
      → i < length items
      → strcmp key (key_at items m) ≡ Ordering.lt
      → key_at items i ≡ key
      → i < m
  before m i small h e = elim (trichotomy m i) [
    | inl lt ↦ absurd (sorted m i lt small (ap (strcmp (key_at items m)) e ∙ strcmp-gt_of_lt _ _ h))
    | inr (inl same) ↦ cc (h, ap (strcmp key) (ap (key_at items) same ∙ e) ∙ strcmp_refl key)
    | inr (inr gt) ↦ gt
  ]

  behind :
      (m i : ℕ)
      → m < length items
      → strcmp key (key_at items m) ≡ Ordering.gt
      → key_at items i ≡ key
      → m < i
  behind m i small h e = elim (trichotomy m i) [
    | inl lt ↦ lt
    | inr (inl same) ↦ cc (h, ap (strcmp key) (ap (key_at items) same ∙ e) ∙ strcmp_refl key)
    | inr (inr gt) ↦ absurd (sorted i m gt small (ap (λ s. strcmp s (key_at items m)) e ∙ h))
  ]

  -- One round, given what the search of either half finds.
  search_round :
      (k lo end : ℕ)
      → end ≤ length items
      → ((lo' end' : ℕ)
          → lo < end
          → end' ≤ length items
          → end' - lo' ≤ (end - lo) / 2
          → Finds items key lo' end' (search k items key lo' end'))
      → Finds items key lo end (search (suc k) items key lo end)
  unfolding search
  search_round k lo end fits rec = elim (Bool-cases (ltb lo end)) [
    | inr empty ↦ rw (empty, search) (λ i p q. absurd (omega (arith, ltb→le lo end empty)))
    | inl more ↦
        let lt : lo < end = ltb→lt lo end more in
        let m : ℕ = middle lo end in
        let inside : m < length items = omega arith in
        let (e, got) = get_elem?-lt items m inside in
        let same : e.key ≡ key_at items m = sym (key_at-get items m e got) in
        elim (Ordering-cases (strcmp key e.key)) [
          | inl below ↦
              rw (more, got, below, search)
                (widen items key lo end lo m _ (omega arith) (omega arith)
                  (λ i p q e'.
                    (p, before m i (omega arith) (ap (strcmp key) (sym same) ∙ below) e'))
                  (rec lo m lt (omega arith) (omega arith)))
          | inr (inl above) ↦
              rw (more, got, above, search)
                (widen items key lo end (m + 1) end _ (omega arith) (omega arith)
                  (λ i p q e'.
                    (omega (arith, behind m i inside (ap (strcmp key) (sym same) ∙ above) e'), q))
                  (rec (m + 1) end lt fits (omega arith)))
          | inr (inr equal) ↦
              rw (more, got, equal, search)
                (omega arith, omega arith, sym same ∙ sym (eq_of_strcmp key e.key equal))
        ]
  ]

  -- With `pow2 k` above the width of the range, `k + 1` rounds are enough.
  search-Finds :
      (k lo end : ℕ)
      → end ≤ length items
      → end - lo < pow2 k
      → Finds items key lo end (search (suc k) items key lo end)
  unfolding pow2
  search-Finds zero lo end fits small =
      search_round zero lo end fits (λ lo' end' lt _ _. absurd (omega arith))
  search-Finds (suc k) lo end fits small =
      search_round (suc k) lo end fits
        (λ lo' end' lt fits' half. search-Finds k lo' end' fits' (omega arith))

  -- On a sorted table of fewer than 2^31 items a lookup ends in its 32 rounds without a read out
  -- of bounds. It ends at an index that holds the key, or no index holds it.
  pub probe-Finds : length items < 2 ^ 31 → Finds items key 0 (length items) (probe items key)
  unfolding probe
  probe-Finds small = search-Finds 31 0 (length items) (omega arith) (unfold pow2 in (omega arith))
