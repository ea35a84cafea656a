-- ===== src/Download/Laws.antt =====
-- Which files the download programs leave.
use intro_to_os.Base.{
  ℕ, ◌+◌, ◌%◌, ◌^◌, ◌≡◌, ◌<◌, ◌≤◌, refl, zero, suc, ◌∷◌, List, Option, none, some, length,
  get_elem?, get_elem?-lt, All-get_elem?, le→ltb, if◌then◌else◌, ap, ◌∙◌, sym, Bool, true, All,
  arith, not, ◌&&◌, Bool-cases, inl, inr,
}
use intro_to_os.Text.{Bytes}
use intro_to_os.Download.Workload.{workload_get_path_lem, path_room}
use intro_to_os.Download.Names.{
  Variant, HasRoom, IsSeparator, local_path, local_path_lem, numbered, numbered-injective,
}
use intro_to_os.Download.Files.{
  Disk, Access, open_file, unlink, write, IsNew, unlink-IsNew, unlink-write, write-IsNew,
}
use intro_to_os.Download.Program.{
  Performed, is_ok, clean_up, Downloaded, finished, ended, with_stream, with_name, request,
  request_loop,
}

-- The request has a result that is not below 0, and the status OK.
abbrev pub succeeds : Performed → Bool
succeeds p = not p.failed && is_ok p.status

-- What is left of one request.
abbrev pub keep : (name : Bytes) → Performed → Disk → Disk
keep name p disk = if succeeds p then (name, p.text) ∷ disk else disk

clean_up-keep :
    (name : Bytes) (p : Performed) (disk : Disk)
    → IsNew name disk
    → clean_up name p (write name p.text disk) ≡ keep name p disk
unfolding clean_up
clean_up-keep name p disk new = elim (Bool-cases p.failed) [
  | inl failed ↦ rw failed (elim (Bool-cases (is_ok p.status)) [
    | inl fine ↦ rw fine (unlink-write name p.text disk new)
    | inr bad ↦
        rw bad (ap (unlink name) (unlink-write name p.text disk new) ∙ unlink-IsNew name disk new)
  ])
  | inr done ↦ rw done (elim (Bool-cases (is_ok p.status)) [
    | inl fine ↦ rw fine (write-IsNew name p.text disk new)
    | inr bad ↦ rw bad (unlink-write name p.text disk new)
  ])
]

-- What is left of the request for the path at this counter.
abbrev pub keep_path :
    (separator : ℕ) → (perform : ℕ → Bytes → Performed) → (counter : ℕ) → Option Bytes → Disk → Disk
keep_path separator perform counter none disk = disk
keep_path separator perform counter (some path) disk =
    keep (numbered separator path counter) (perform counter path) disk

-- The files that `n` requests are meant to leave: that of each request that succeeds, with its text,
-- for the paths in turn.
unfoldable pub files_of :
    (separator : ℕ) → List Bytes → (perform : ℕ → Bytes → Performed) → (n counter : ℕ) → Disk → Disk
files_of separator paths perform zero counter disk = disk
files_of separator paths perform (suc n) counter disk =
    files_of separator paths perform n (counter + 1)
      (keep_path separator perform counter (get_elem? paths (counter % length paths)) disk)

-- No file has a name with a number that is still to come.
abbrev pub IsFresh : (separator counter : ℕ) → Disk → Type 0
IsFresh separator counter disk =
    (p : Bytes) (m : ℕ) → counter ≤ m → m < 2 ^ 31 → IsNew (numbered separator p m) disk

module _ (v : Variant) (not_digit : IsSeparator v.separator) where
  keep-IsFresh :
      (path : Bytes) (p : Performed) (counter : ℕ) (disk : Disk)
      → counter < 2 ^ 31
      → IsFresh v.separator counter disk
      → IsFresh v.separator (counter + 1) (keep (numbered v.separator path counter) p disk)
  keep-IsFresh path p counter disk small fresh q m later few = elim (Bool-cases (succeeds p)) [
    | inl kept ↦ rw kept (
      (λ same. absurd (
          omega (arith, numbered-injective v.separator path q counter m not_digit small few same))),
      fresh q m (omega arith) few,
    )
    | inr dropped ↦ rw dropped (fresh q m (omega arith) few)
  ]

  module _ (room : HasRoom v) (access : Access)
      (opens : (name : Bytes) → open_file access name ≡ true)
      (perform : ℕ → Bytes → Performed) where
    request_lem :
        (path : Bytes) (counter : ℕ) (disk : Disk) (next : Disk → Downloaded)
        → 0 < length path
        → length path ≤ v.longest
        → counter < 2 ^ 31
        → IsFresh v.separator counter disk
        → request v access (some path) counter perform disk next
          ≡ next (keep (numbered v.separator path counter) (perform counter path) disk)
    unfolding request
    request_lem path counter disk next filled short small fresh =
        let name = numbered v.separator path counter in
        let p = perform counter path in
        ap
          (λ b.
            if b then ended 1 disk else with_name access (local_path v path counter) p disk next)
          (le→ltb v.longest (length path) short)
        ∙ ap (λ o. with_name access o p disk next)
            (local_path_lem v path counter room filled short small)
        ∙ ap (λ b. with_stream b name p disk next) (opens name)
        ∙ ap next (clean_up-keep name p disk (fresh path counter (omega arith) small))

    module _ (paths : List Bytes) (filled : 0 < length paths) (few : length paths ≤ path_room)
        (usable : All (λ path. (0 < length path) × (length path ≤ v.longest)) paths) where
      loop-files_of :
          (n counter : ℕ) (disk : Disk)
          → counter + n ≤ 2 ^ 31
          → IsFresh v.separator counter disk
          → request_loop v access paths perform n counter disk
            ≡ finished (files_of v.separator paths perform n counter disk)
      unfolding request_loop files_of
      loop-files_of zero counter disk small fresh = refl
      loop-files_of (suc n) counter disk small fresh =
          let (path, got) = get_elem?-lt paths (counter % length paths) (omega arith) in
          let fits =
            All-get_elem? (λ p. (0 < length p) × (length p ≤ v.longest)) paths
              (counter % length paths) path usable got in
          let next = λ (d : Disk). request_loop v access paths perform n (counter + 1) d in
          let left = keep (numbered v.separator path counter) (perform counter path) disk in
          ap
            (λ (r : Option Bytes × ℕ).
              request v access r.0 counter perform disk (request_loop v access paths perform n r.1))
            (workload_get_path_lem paths filled few counter (omega arith))
          ∙ ap (λ o. request v access o counter perform disk next) got
          ∙ request_lem path counter disk next fits.0 fits.1 (omega arith) fresh
          ∙ loop-files_of n (counter + 1) left (omega arith)
              (keep-IsFresh path (perform counter path) counter disk (omega arith) fresh)
          ∙ ap
              (λ o. finished (
                files_of v.separator paths perform n (counter + 1)
                  (keep_path v.separator perform counter o disk)))
              (sym got)

      -- For a program whose separator is not a digit and whose name buffer has room for its
      -- longest path and a number: if there are from 1 to 100 paths, none of them empty or too
      -- long, every file opens, no file has a name of the program's kind before, and there are
      -- 2^31 requests at most, then the loop ends, and what it leaves is the files from before
      -- and, for each request with a result that is not below 0 and the status OK, a file of its
      -- own with the text of that request.
      pub request_loop-files_of :
          (n : ℕ) (disk : Disk)
          → n ≤ 2 ^ 31
          → IsFresh v.separator 0 disk
          → request_loop v access paths perform n 0 disk
            ≡ finished (files_of v.separator paths perform n 0 disk)
      request_loop-files_of n disk small fresh = loop-files_of n 0 disk (omega arith) fresh
