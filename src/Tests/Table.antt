-- ===== src/Tests/Table.antt =====
-- Runs of the theorems on gflib/content.c and cache/simplecache.c.
use intro_to_os.Base.{zero, suc, ◌+◌, List, [], ◌∷◌, ◌++◌, none, some, arith}
use intro_to_os.Text.{Bytes, codes, strcmp}
use intro_to_os.Content.{Entry, entry, probe, Open}
use intro_to_os.Content.Search.{Finds, IsSorted, probe-Finds}

abbrev two_entries : List Entry
two_entries = entry 5 (codes "/a") ∷ entry 4 (codes "/b") ∷ []

two_entries-IsSorted : IsSorted two_entries
unfolding strcmp
two_entries-IsSorted zero zero lt below e = omega arith
two_entries-IsSorted zero (suc zero) lt below e = cc
two_entries-IsSorted zero (suc (suc j)) lt below e = omega arith
two_entries-IsSorted (suc zero) zero lt below e = omega arith
two_entries-IsSorted (suc zero) (suc zero) lt below e = omega arith
two_entries-IsSorted (suc zero) (suc (suc j)) lt below e = omega arith
two_entries-IsSorted (suc (suc i)) j lt below e = omega arith

probe-Finds_example : Finds two_entries (codes "/b") 0 2 (probe two_entries (codes "/b"))
probe-Finds_example = probe-Finds two_entries (codes "/b") two_entries-IsSorted (omega arith)

abbrev numbered : Open
numbered n path = elim path [ none ↦ none | some name ↦ some (n + 3) ]

abbrev two_lines : Bytes
two_lines = codes "/b b.txt" ++ (10 ∷ codes "/a a.txt")
