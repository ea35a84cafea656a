-- ===== src/Tests/Service.antt =====
-- Runs of the theorems on rpc_mt/minifyjpeg_svc.c.
use intro_to_os.Base.{◌≡◌, [], ◌∷◌, of_list}
use intro_to_os.Text.{codes}
use intro_to_os.Rpc.Service.{ThreadData, Exits, ◌⟶*◌}
use intro_to_os.Rpc.Accounts.{held, fresh, new_workers, ⟶*-of_list}
use intro_to_os.Rpc.Race.{one_worker, stuck, exhausted, one_worker-races}

abbrev first : ThreadData
first = record { transp = 1; image = codes "jpeg" }

abbrev second : ThreadData
second = record { transp = 2; image = codes "jpeg" }

one_worker-races_example :
    (one_worker ⟶* stuck first second)
    × ((one_worker ⟶* exhausted first second) × Exits (exhausted first second))
one_worker-races_example = one_worker-races first second

fresh-stuck : fresh 1 ⟶* stuck first second
unfolding new_workers
fresh-stuck = (one_worker-races first second).0

⟶*-of_list_example : of_list (held (stuck first second)) ≡ of_list (second ∷ first ∷ [])
⟶*-of_list_example = ⟶*-of_list 1 (stuck first second) fresh-stuck
