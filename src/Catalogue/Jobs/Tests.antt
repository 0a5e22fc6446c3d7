-- ===== src/Catalogue/Jobs/Tests.antt =====
-- src/catalogue/Catalogue.cpp: the theorems on the dispatch at a concrete catalogue.
use scrub_tub.Base.{true, [], ◌∷◌, arith}
use scrub_tub.Catalogue.{State, Kind}
use scrub_tub.Catalogue.Fixtures.{counting, idle, waiting_job}
use scrub_tub.Catalogue.Jobs.{dispatch_jobs, dispatch_loop}
use scrub_tub.Catalogue.Jobs.Bounds.{IsWithin, dispatch_jobs-IsWithin}
use scrub_tub.Catalogue.Jobs.Progress.{IsResting, dispatch_loop-IsResting}

-- A poster and a preview wait.
abbrev busy : State
busy = record idle { jobs = waiting_job 1 1 Kind.storyboard ∷ waiting_job 2 2 Kind.poster ∷ [] }

busy-IsWithin : IsWithin busy
busy-IsWithin = record { workers = omega arith; previews = omega arith; budget = omega arith }

dispatch_jobs-IsWithin_example : IsWithin (dispatch_jobs counting true busy)
dispatch_jobs-IsWithin_example = dispatch_jobs-IsWithin counting true busy busy-IsWithin

dispatch_loop-IsResting_example : IsResting true (dispatch_loop counting true 3 busy)
dispatch_loop-IsResting_example = dispatch_loop-IsResting counting true 3 busy (omega arith)
