-- ===== src/Cron/Jobs.antt =====
-- coriolis/cron/cron.py, `CronJob`: when a job runs. A moment is a number, and names are numbers.
use cloudshift.Prelude.{
  ℕ, suc, Bool, true, false, not, Option, none, some, List, [], ◌∷◌, any, map, ◌==◌, leb,
  if◌then◌else◌,
}

-- The fields of a schedule; a field that is missing or null stands for any value.
pub record Schedule : Type 0 where
  pub minute : Option ℕ
  pub hour : Option ℕ
  pub dom : Option ℕ
  pub month : Option ℕ
  pub dow : Option ℕ

pub record CronJob : Type 0 where
  pub name : ℕ
  pub schedule : Schedule
  pub enabled : Bool
  pub expires : Option ℕ

-- The parts of a `datetime` that a schedule is compared with.
pub record Date : Type 0 where
  pub minute : ℕ
  pub hour : ℕ
  pub dom : ℕ
  pub month : ℕ
  pub dow : ℕ

abbrev pub matches : ℕ × Option ℕ → Bool
matches (value, none) = true
matches (value, some wanted) = value == wanted

-- `_compare`
abbrev pub compare_pairs : List (ℕ × Option ℕ) → List Bool
compare_pairs pairs = map matches pairs

abbrev pub passed_by : Option ℕ → (now : ℕ) → Bool
passed_by none now = false
passed_by (some expires) now = leb (suc expires) now

abbrev pub is_expired : CronJob → (now : ℕ) → Bool
is_expired job now = passed_by job.expires now

-- The pairs of the fields of the date and of the schedule.
abbrev pub schedule_pairs : Date → Schedule → List (ℕ × Option ℕ)
schedule_pairs dt s =
    (dt.minute, s.minute)
    ∷ (dt.hour, s.hour)
    ∷ (dt.dom, s.dom)
    ∷ (dt.month, s.month)
    ∷ (dt.dow, s.dow)
    ∷ []

-- `now` is the time that `is_expired` reads, and `dt` the date that is asked for.
unfoldable pub should_run : CronJob → (now : ℕ) → (dt : Date) → Bool
should_run job now dt =
    if is_expired job now
    then false
    else (if not job.enabled
        then false
        else not (any not (compare_pairs (schedule_pairs dt job.schedule))))
