-- ===== src/Download/Files.antt =====
-- `openFile` of gflib/gfclient_download.c and mtgf/gfclient_download.c, and the files that the programs
-- write and remove.
use intro_to_os.Base.{
  ◌≡◌, ◌≢◌, refl, [], ◌∷◌, ◌++◌, List, if◌then◌else◌, ◌==◌, ap, ◌∙◌, Bool, true, false, All,
  Bool-cases, inl, inr,
}
use intro_to_os.Text.{Bytes}
use intro_to_os.Text.Compare.{bytes_eq, bytes_eq_refl, eq_of_bytes_eq}

-- The directories that are made: what stands in front of each slash but a first one.
unfoldable pub directories_behind : (before rest : Bytes) → List Bytes
directories_behind before [] = []
directories_behind before (c ∷ rest) =
    let more = directories_behind (before ++ c ∷ []) rest in
    if c == b'/' then before ∷ more else more

-- A path that is not empty: `strchr(prev + 1, '/')` begins behind its first character.
unfoldable pub directories : Bytes → List Bytes
unfolding directories_behind
directories [] = []
directories (c ∷ path) = directories_behind (c ∷ []) path

-- Files by name, the newest first.
abbrev pub Disk : Type 0
Disk = List (Bytes × Bytes)

-- `unlink`, which fails on a name that is not there and changes nothing then.
unfoldable pub unlink : Bytes → Disk → Disk
unlink name [] = []
unlink name ((n, text) ∷ disk) =
    let rest = unlink name disk in if bytes_eq n name then rest else (n, text) ∷ rest

-- `fopen(path, "w")` and what is written until `fclose`.
abbrev pub write : Bytes → Bytes → Disk → Disk
write name text disk = (name, text) ∷ unlink name disk

-- What `mkdir` and `fopen` find: a directory that is made or there already (`true`), or another error.
pub record Access : Type 0 where
  pub makes : Bytes → Bool
  pub opens : Bytes → Bool

unfoldable pub make_all : (makes : Bytes → Bool) → List Bytes → Bool
make_all makes [] = true
make_all makes (d ∷ ds) = let rest = make_all makes ds in if makes d then rest else false

-- `openFile`: whether there is a stream, or the program ends.
unfoldable pub open_file : Access → (path : Bytes) → Bool
unfolding make_all directories
open_file access path =
    if make_all access.makes (directories path) then access.opens path else false

-- A name that no file has.
abbrev pub IsNew : Bytes → Disk → Type 0
IsNew name disk = All (λ f. f.0 ≢ name) disk

different : (n name : Bytes) → n ≢ name → bytes_eq n name ≡ false
different n name h = elim (Bool-cases (bytes_eq n name)) [
  | inl same ↦ absurd (h (eq_of_bytes_eq n name same))
  | inr unlike ↦ unlike
]

pub unlink-IsNew : (name : Bytes) (disk : Disk) → IsNew name disk → unlink name disk ≡ disk
unfolding unlink
unlink-IsNew name [] new = refl
unlink-IsNew name ((n, text) ∷ disk) new =
    rw (different n name new.0, unlink-IsNew name disk new.1) refl

pub unlink-write :
    (name text : Bytes) (disk : Disk) → IsNew name disk → unlink name (write name text disk) ≡ disk
unfolding unlink
unlink-write name text disk new =
    rw (bytes_eq_refl name)
      (ap (unlink name) (unlink-IsNew name disk new) ∙ unlink-IsNew name disk new)

pub write-IsNew :
    (name text : Bytes) (disk : Disk) → IsNew name disk → write name text disk ≡ (name, text) ∷ disk
write-IsNew name text disk new = ap (λ d. (name, text) ∷ d) (unlink-IsNew name disk new)
