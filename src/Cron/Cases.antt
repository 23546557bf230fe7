-- ===== src/Cron/Cases.antt =====
-- The theorems about scheduled jobs at small inputs.
use cloudshift.Prelude.{ℕ, ◌≡◌, refl, ◌↔◌, true, Option, none, some, [], ◌∷◌, All, Dict}
use cloudshift.Cron.Jobs.{CronJob, Schedule, Date, should_run}
use cloudshift.Cron.Registry.{check_jobs, TransferSchedule, add, remove, tidy, step, steps}
use cloudshift.Cron.Laws.{IsDue, IsOther, should_run-IsDue, check_jobs-remove}

abbrev at_noon : Schedule
at_noon = record { minute = some 0; hour = some 12; dom = none; month = none; dow = none }

abbrev job : ℕ → Option ℕ → CronJob
job name expires = record { name = name; schedule = at_noon; enabled = true; expires = expires }

abbrev noon : Date
noon = record { minute = 0; hour = 12; dom = 3; month = 4; dow = 2 }

should_run-IsDue_example :
    (should_run (job 1 (some 90)) 80 noon ≡ true) ↔ IsDue (job 1 (some 90)) 80 noon
should_run-IsDue_example = should_run-IsDue (job 1 (some 90)) 80 noon

abbrev jobs : Dict CronJob
jobs = (1, job 1 (some 90)) ∷ (2, job 2 none) ∷ (3, job 3 (some 70)) ∷ []

abbrev transfer : ℕ → TransferSchedule
transfer id = record { id = id; schedule = at_noon; enabled = true; expiration_date = some 90 }

check_jobs-remove_example : All (IsOther 2) (
    check_jobs 80 noon (
      steps
        (add (transfer 3) 60 ∷ tidy 70 ∷ [])
        (step (remove 2) (steps (add (transfer 2) 10 ∷ []) []))))
check_jobs-remove_example =
    check_jobs-remove 2 (add (transfer 2) 10 ∷ []) (add (transfer 3) 60 ∷ tidy 70 ∷ []) 80 noon
      (refl, (tt, tt))
