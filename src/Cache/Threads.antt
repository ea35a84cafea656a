-- ===== src/Cache/Threads.antt =====
-- Lemmas on the lists of threads of Cache/System, and on what a proxy thread hears (cache/handle_with_cache.c
-- and cache/simplecached.c).
use intro_to_os.Base.{
  ℕ, zero, suc, ◌-◌, ◌%◌, ◌^◌, ◌<◌, ◌==◌, lt→ltb, ◌≡◌, ◌≢◌, ◌⊎◌, inl, inr, refl, ap, false, [], ◌∷◌,
  List, some, get_elem?, set_elem, length, map, arith,
}
use intro_to_os.Text.{Bytes}
use intro_to_os.Cache.System.{
  told, Worker, waiting, busy, stuck, gone, length_reply, heard, has_queue,
}

-- A length below 2^31 is heard as it is.
pub heard-length_reply :
    (p contents : Bytes)
    → length contents < 2 ^ 31
    → heard p (length_reply contents) ≡ told p (length contents)
heard-length_reply p contents small =
    let low : length contents % 2 ^ 32 ≡ length contents = omega arith in
    let positive : (length contents == 2 ^ 32 - 1) ≡ false = ground arith in
    rw (low, positive, lt→ltb (length contents) (2 ^ 31) small) refl

pub get_elem?-set_elem :
    {A : Type 0} (xs : List A) (j k : ℕ) (y z : A)
    → get_elem? (set_elem j y xs) k ≡ some z
    → (z ≡ y) ⊎ (get_elem? xs k ≡ some z)
get_elem?-set_elem [] j k y z h = inr h
get_elem?-set_elem (x ∷ xs) zero zero y z h = inl cc
get_elem?-set_elem (x ∷ xs) zero (suc k) y z h = inr h
get_elem?-set_elem (x ∷ xs) (suc j) zero y z h = inr h
get_elem?-set_elem (x ∷ xs) (suc j) (suc k) y z h = get_elem?-set_elem xs j k y z h

-- The change of the only element.
pub set_elem_only :
    {A : Type 0} (xs : List A) (i : ℕ) (a x y : A)
    → xs ≡ a ∷ []
    → get_elem? xs i ≡ some x
    → (a ≡ x) × (set_elem i y xs ≡ y ∷ [])
set_elem_only [] i a x y only at = cc
set_elem_only (z ∷ []) zero a x y only at = (cc, refl)
set_elem_only (z ∷ []) (suc i) a x y only at = cc
set_elem_only (z ∷ z' ∷ xs) i a x y only at = absurd (omega (arith, ap length only))

pub has_queue-cons :
    (d : Worker) (ds : List Worker) → has_queue ds ≡ false → has_queue (d ∷ ds) ≡ false
has_queue-cons waiting ds h = h
has_queue-cons (busy p) ds h = h
has_queue-cons stuck ds h = h
has_queue-cons gone ds h = refl

-- A thread that ends with its `fstat` takes the queue away, which stays so.
pub has_queue-gone :
    (ds : List Worker) (j : ℕ) (d : Worker)
    → get_elem? ds j ≡ some d
    → has_queue (set_elem j gone ds) ≡ false
has_queue-gone [] j d at = cc
has_queue-gone (x ∷ ds) zero d at = refl
has_queue-gone (waiting ∷ ds) (suc j) d at = has_queue-gone ds j d at
has_queue-gone (busy p ∷ ds) (suc j) d at = has_queue-gone ds j d at
has_queue-gone (stuck ∷ ds) (suc j) d at = has_queue-gone ds j d at
has_queue-gone (gone ∷ ds) (suc j) d at = refl

pub has_queue-set_elem :
    (ds : List Worker) (j : ℕ) (d d' : Worker)
    → d ≢ gone
    → get_elem? ds j ≡ some d
    → has_queue ds ≡ false
    → has_queue (set_elem j d' ds) ≡ false
has_queue-set_elem [] j d d' ne at h = h
has_queue-set_elem (waiting ∷ ds) zero d d' ne at h = has_queue-cons d' ds h
has_queue-set_elem (busy p ∷ ds) zero d d' ne at h = has_queue-cons d' ds h
has_queue-set_elem (stuck ∷ ds) zero d d' ne at h = has_queue-cons d' ds h
has_queue-set_elem (gone ∷ ds) zero d d' ne at h = absurd (ne (cc))
has_queue-set_elem (waiting ∷ ds) (suc j) d d' ne at h = has_queue-set_elem ds j d d' ne at h
has_queue-set_elem (busy p ∷ ds) (suc j) d d' ne at h = has_queue-set_elem ds j d d' ne at h
has_queue-set_elem (stuck ∷ ds) (suc j) d d' ne at h = has_queue-set_elem ds j d d' ne at h
has_queue-set_elem (gone ∷ ds) (suc j) d d' ne at h = refl

pub has_queue-ended :
    (ds : List Worker) (j : ℕ) (d : Worker)
    → get_elem? ds j ≡ some d
    → has_queue (map (λ d. gone) ds) ≡ false
has_queue-ended [] j d at = cc
has_queue-ended (x ∷ ds) j d at = refl
