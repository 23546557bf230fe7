-- ===== src/Cron/Registry.antt =====
-- coriolis/cron/cron.py, `Cron`, and the registration of schedules in
-- coriolis/transfer_cron/rpc/server.py: the jobs by their names. Each operation on the jobs runs
-- under the semaphore, or on a copy, and is one step.
use cloudshift.Prelude.{
  ℕ, Bool, false, not, Option, none, some, List, [], ◌∷◌, map, filter, Dict, insert, ◌==◌, leb,
  if◌then◌else◌,
}
use cloudshift.Cron.Jobs.{CronJob, Date, Schedule, should_run, is_expired}

-- `register`
unfoldable pub register : CronJob → Dict CronJob → Dict CronJob
unfolding insert
register job jobs = insert job.name job jobs

-- `unregister`; a name that is not there is left alone.
unfoldable pub unregister : (name : ℕ) → Dict CronJob → Dict CronJob
unregister name jobs = filter (λ entry. not (entry.0 == name)) jobs

-- `unregister_jobs_with_prefix`, for the names that `startswith` finds.
unfoldable pub unregister_jobs_with_prefix : (has_prefix : ℕ → Bool) → Dict CronJob → Dict CronJob
unregister_jobs_with_prefix has_prefix jobs = filter (λ entry. not (has_prefix entry.0)) jobs

-- One round of `_janitor`.
unfoldable pub clean : (now : ℕ) → Dict CronJob → Dict CronJob
clean now jobs = filter (λ entry. not (is_expired entry.1 now)) jobs

-- `_check_jobs`: the jobs that are started.
unfoldable pub check_jobs : (now : ℕ) (dt : Date) → Dict CronJob → List CronJob
unfolding should_run
check_jobs now dt jobs = map (λ entry. entry.1) (filter (λ entry. should_run entry.1 now dt) jobs)

-- A schedule of a transfer, with its expiration date.
pub record TransferSchedule : Type 0 where
  pub id : ℕ
  pub schedule : Schedule
  pub enabled : Bool
  pub expiration_date : Option ℕ

abbrev pub is_over : Option ℕ → (date : ℕ) → Bool
is_over none date = false
is_over (some expires) date = leb expires date

-- `_register_schedule`
unfoldable pub register_schedule : TransferSchedule → (date : ℕ) → Dict CronJob → Dict CronJob
unfolding register
register_schedule s date jobs =
    if is_over s.expiration_date date
    then jobs
    else register
        (record {
          name = s.id;
          schedule = s.schedule;
          enabled = s.enabled;
          expires = s.expiration_date;
        })
        jobs

-- What happens to the jobs: the requests of the service and the two loops.
pub data Event : Type 0 where
  add : TransferSchedule → (date : ℕ) → Event
  remove : (name : ℕ) → Event
  tidy : (now : ℕ) → Event

unfoldable pub step : Event → Dict CronJob → Dict CronJob
unfolding register_schedule unregister clean
step (add s date) jobs = register_schedule s date jobs
step (remove name) jobs = unregister name jobs
step (tidy now) jobs = clean now jobs

unfoldable pub steps : List Event → Dict CronJob → Dict CronJob
unfolding step
steps [] jobs = jobs
steps (e ∷ events) jobs = steps events (step e jobs)
