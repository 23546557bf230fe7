-- ===== src/Cron/Laws.antt =====
-- When the jobs run.
use cloudshift.Prelude.{
  ℕ, ◌≤◌, ◌≡◌, refl, subst, ◌↔◌, Bool, true, false, not, ◌&&◌, Option, none, some, List, [], ◌∷◌,
  any, filter, All, Dict, insert, ◌==◌, if◌then◌else◌, arith, Bool-cases, inl, inr,
}
use cloudshift.Cron.Jobs.{CronJob, Schedule, Date, matches, passed_by, should_run}
use cloudshift.Cron.Registry.{
  register, unregister, clean, check_jobs, is_over, register_schedule, Event, add, remove, tidy,
  step, steps,
}

-- The field is a wildcard or has the value.
abbrev pub Fits : Option ℕ → ℕ → Type 0
Fits none value = Unit
Fits (some wanted) value = wanted ≡ value

abbrev pub IsOpen : Option ℕ → (now : ℕ) → Type 0
IsOpen none now = Unit
IsOpen (some expires) now = now ≤ expires

-- The job is enabled and not past its expiry, and each field of its schedule fits the date.
abbrev pub IsDue : CronJob → (now : ℕ) → Date → Type 0
IsDue job now dt =
    (job.enabled ≡ true)
    × IsOpen job.expires now
    × Fits job.schedule.minute dt.minute
    × Fits job.schedule.hour dt.hour
    × Fits job.schedule.dom dt.dom
    × Fits job.schedule.month dt.month
    × Fits job.schedule.dow dt.dow

matches-Fits : (field : Option ℕ) (value : ℕ) → (matches (value, field) ≡ true) ↔ Fits field value
matches-Fits none value = ((λ _. tt), (λ _. refl))
matches-Fits (some wanted) value = ground arith

expired-IsOpen :
    (expires : Option ℕ) (now : ℕ) → (not (passed_by expires now) ≡ true) ↔ IsOpen expires now
expired-IsOpen none now = ((λ _. tt), (λ _. refl))
expired-IsOpen (some expires) now = ground arith

should_run_true :
    (job : CronJob) (now : ℕ) (dt : Date)
    → should_run job now dt ≡ (
        job.enabled
        && (not (passed_by job.expires now)
            && (matches (dt.minute, job.schedule.minute)
                && (matches (dt.hour, job.schedule.hour)
                    && (matches (dt.dom, job.schedule.dom)
                        && (matches (dt.month, job.schedule.month)
                            && matches (dt.dow, job.schedule.dow)))))))
unfolding should_run
should_run_true job now dt =
    tests (passed_by job.expires now) job.enabled (matches (dt.minute, job.schedule.minute))
      (matches (dt.hour, job.schedule.hour)) (matches (dt.dom, job.schedule.dom))
      (matches (dt.month, job.schedule.month)) (matches (dt.dow, job.schedule.dow))
  where
    tests :
        (x e a b c d f : Bool)
        → (if x then false else (if not e then false else not (any not (a ∷ b ∷ c ∷ d ∷ f ∷ []))))
          ≡ (e && (not x && (a && (b && (c && (d && f))))))
    tests x e a b c d f = ground arith

and_true : (a b : Bool) → ((a && b) ≡ true) ↔ ((a ≡ true) × (b ≡ true))
and_true a b = ground arith

-- A job runs at a date exactly when it is enabled, is not past its expiry, and each field of its
-- schedule is a wildcard or has the date's value.
pub should_run-IsDue :
    (job : CronJob) (now : ℕ) (dt : Date) → (should_run job now dt ≡ true) ↔ IsDue job now dt
should_run-IsDue job now dt = (forth, back)
  where
    s : Schedule
    s = job.schedule

    forth : should_run job now dt ≡ true → IsDue job now dt
    forth h =
        let (enabled, h1) = (and_true _ _).0 (rw (should_run_true job now dt) at h) in
        let (is_open, h2) = (and_true _ _).0 h1 in
        let (minute, h3) = (and_true _ _).0 h2 in
        let (hour, h4) = (and_true _ _).0 h3 in
        let (dom, h5) = (and_true _ _).0 h4 in
        let (month, dow) = (and_true _ _).0 h5 in
        (
          enabled,
          (expired-IsOpen job.expires now).0 is_open,
          (matches-Fits s.minute dt.minute).0 minute,
          (matches-Fits s.hour dt.hour).0 hour,
          (matches-Fits s.dom dt.dom).0 dom,
          (matches-Fits s.month dt.month).0 month,
          (matches-Fits s.dow dt.dow).0 dow,
        )

    back : IsDue job now dt → should_run job now dt ≡ true
    back (enabled, is_open, minute, hour, dom, month, dow) =
        rw
          (
            should_run_true job now dt,
            enabled,
            (expired-IsOpen job.expires now).1 is_open,
            (matches-Fits s.minute dt.minute).1 minute,
            (matches-Fits s.hour dt.hour).1 hour,
            (matches-Fits s.dom dt.dom).1 dom,
            (matches-Fits s.month dt.month).1 month,
            (matches-Fits s.dow dt.dow).1 dow,
          )
          refl

expired_later :
    (expires : Option ℕ) (now later : ℕ)
    → now ≤ later
    → passed_by expires now ≡ true
    → passed_by expires later ≡ true
expired_later none now later le h = h
expired_later (some expires) now later le h = ground (arith, le, h)

not_run_expired :
    (job : CronJob) (now : ℕ) (dt : Date)
    → passed_by job.expires now ≡ true
    → should_run job now dt ≡ false
unfolding should_run
not_run_expired job now dt h = rw h refl

-- The janitor removes no job that would run: after it, the jobs started at any later time are the
-- same.
pub check_jobs-clean :
    (now later : ℕ) (dt : Date) (jobs : Dict CronJob)
    → now ≤ later
    → check_jobs later dt (clean now jobs) ≡ check_jobs later dt jobs
unfolding check_jobs clean
check_jobs-clean now later dt [] le = refl
check_jobs-clean now later dt (entry ∷ jobs) le =
    elim (Bool-cases (passed_by entry.1.expires now)) [
      | inl h ↦
          rw
            (
              h,
              not_run_expired entry.1 later dt (expired_later entry.1.expires now later le h),
              check_jobs-clean now later dt jobs le,
            )
            refl
      | inr h ↦ ground (arith, h, check_jobs-clean now later dt jobs le)
    ]

-- Each job is kept under its name.
abbrev IsNamed : ℕ × CronJob → Type 0
IsNamed entry = entry.0 ≡ entry.1.name

-- No job is kept under the name.
abbrev IsWithout : ℕ → ℕ × CronJob → Type 0
IsWithout name entry = (entry.0 == name) ≡ false

All-filter :
    (P : ℕ × CronJob → Type 0) (p : ℕ × CronJob → Bool) (jobs : Dict CronJob)
    → All P jobs
    → All P (filter p jobs)
All-filter P p [] a = tt
All-filter P p (entry ∷ jobs) (b, a) = elim (Bool-cases (p entry)) [
  | inl h ↦ rw h (b, All-filter P p jobs a)
  | inr h ↦ rw h (All-filter P p jobs a)
]

All-insert :
    (P : ℕ × CronJob → Type 0) (key : ℕ) (job : CronJob) (jobs : Dict CronJob)
    → P (key, job)
    → All P jobs
    → All P (insert key job jobs)
unfolding insert
All-insert P key job [] p a = (p, tt)
All-insert P key job (entry ∷ jobs) p (b, a) = elim (Bool-cases (entry.0 == key)) [
  | inl h ↦ rw h (p, a)
  | inr h ↦ rw h (b, All-insert P key job jobs p a)
]

-- The event registers no schedule of this name.
abbrev pub IsNotAdding : ℕ → Event → Type 0
IsNotAdding name (add s date) = (s.id == name) ≡ false
IsNotAdding name (remove other) = Unit
IsNotAdding name (tidy now) = Unit

-- What an event adds has the property.
abbrev Adds : (ℕ × CronJob → Type 0) → Event → Type 0
Adds P (add s date) = (job : CronJob) → s.id ≡ job.name → P (s.id, job)
Adds P (remove name) = Unit
Adds P (tidy now) = Unit

step-All :
    (P : ℕ × CronJob → Type 0) (e : Event) (jobs : Dict CronJob)
    → Adds P e
    → All P jobs
    → All P (step e jobs)
unfolding step register_schedule register unregister clean
step-All P (add s date) jobs p a = elim (Bool-cases (is_over s.expiration_date date)) [
  | inl h ↦ rw h a
  | inr h ↦ rw h (All-insert P s.id _ jobs (p _ refl) a)
]
step-All P (remove name) jobs p a = All-filter P _ jobs a
step-All P (tidy now) jobs p a = All-filter P _ jobs a

steps-All :
    (P : ℕ × CronJob → Type 0) (events : List Event) (jobs : Dict CronJob)
    → All (Adds P) events
    → All P jobs
    → All P (steps events jobs)
unfolding steps
steps-All P [] jobs p a = a
steps-All P (e ∷ events) jobs (p, ps) a =
    steps-All P events (step e jobs) ps (step-All P e jobs p a)

All-Adds-IsNamed : (events : List Event) → All (Adds IsNamed) events
All-Adds-IsNamed [] = tt
All-Adds-IsNamed (add s date ∷ events) = ((λ job e. e), All-Adds-IsNamed events)
All-Adds-IsNamed (remove name ∷ events) = (tt, All-Adds-IsNamed events)
All-Adds-IsNamed (tidy now ∷ events) = (tt, All-Adds-IsNamed events)

All-Adds-IsWithout :
    (name : ℕ) (events : List Event)
    → All (IsNotAdding name) events
    → All (Adds (IsWithout name)) events
All-Adds-IsWithout name [] a = tt
All-Adds-IsWithout name (add s date ∷ events) (h, a) =
    ((λ job e. h), All-Adds-IsWithout name events a)
All-Adds-IsWithout name (remove other ∷ events) (h, a) = (tt, All-Adds-IsWithout name events a)
All-Adds-IsWithout name (tidy now ∷ events) (h, a) = (tt, All-Adds-IsWithout name events a)

IsWithout-unregister :
    (name : ℕ) (jobs : Dict CronJob) → All (IsWithout name) (unregister name jobs)
unfolding unregister
IsWithout-unregister name [] = tt
IsWithout-unregister name (entry ∷ jobs) = elim (Bool-cases (entry.0 == name)) [
  | inl h ↦ rw h (IsWithout-unregister name jobs)
  | inr h ↦ rw h (h, IsWithout-unregister name jobs)
]

abbrev pub IsOther : ℕ → CronJob → Type 0
IsOther name job = (job.name == name) ≡ false

started_others :
    (name now : ℕ) (dt : Date) (jobs : Dict CronJob)
    → All IsNamed jobs
    → All (IsWithout name) jobs
    → All (IsOther name) (check_jobs now dt jobs)
unfolding check_jobs
started_others name now dt [] n w = tt
started_others name now dt (entry ∷ jobs) (n, ns) (w, ws) =
    elim (Bool-cases (should_run entry.1 now dt)) [
      | inl h ↦ rw h (subst (λ k. (k == name) ≡ false) n w, started_others name now dt jobs ns ws)
      | inr h ↦ rw h (started_others name now dt jobs ns ws)
    ]

-- Once the schedule of a name is removed, no job of the name is started, whatever other schedules
-- are registered or removed and whenever the janitor runs, until a schedule of the name is
-- registered again.
pub check_jobs-remove :
    (name : ℕ) (before after : List Event) (now : ℕ) (dt : Date)
    → All (IsNotAdding name) after
    → All (IsOther name) (check_jobs now dt (steps after (step (remove name) (steps before []))))
unfolding step
check_jobs-remove name before after now dt a =
    let jobs = steps before [] in
    started_others name now dt (steps after (unregister name jobs))
      (steps-All IsNamed after _ (All-Adds-IsNamed after) (
        step-All IsNamed (remove name) jobs tt
          (steps-All IsNamed before [] (All-Adds-IsNamed before) tt)))
      (steps-All (IsWithout name) after _ (All-Adds-IsWithout name after a)
        (IsWithout-unregister name jobs))
