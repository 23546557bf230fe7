-- ===== src/Scheduler/Cases.antt =====
-- The theorems about the choice of a worker at small inputs.
use cloudshift.Prelude.{
  ℕ, zero, suc, ◌≡◌, refl, Bool, true, false, Option, none, some, List, [], ◌∷◌, filter, lookup,
  if◌then◌else◌, ◌==◌,
}
use cloudshift.Scheduler.Filters.{Service, enabled_filter, regions_filter, provider_types_filter}
use cloudshift.Scheduler.Selection.{
  found, Region, Specs, get_workers_for_specs, get_all_worker_services, region_filters,
  get_weighted_filtered_services, score_services, score_service,
}
use cloudshift.Scheduler.Client.{provider_requirements}
use cloudshift.Scheduler.Ranking.{
  Descending, with_rank, scored, get_weighted_filtered_services-Descending,
}
use cloudshift.Scheduler.Ratings.{suits}
use cloudshift.Scheduler.Suitable.{get_workers_for_specs_lem}
use cloudshift.Scheduler.Retries.{or_else, lookup-provider_requirements}

abbrev worker : ℕ → Bool → List ℕ → Service
worker id enabled regions = record {
  id = id;
  topic = 0;
  enabled = enabled;
  mapped_regions = regions;
  providers = (1, 7 ∷ 8 ∷ []) ∷ [];
}

abbrev services : List Service
services = worker 1 true (5 ∷ []) ∷ worker 2 false (5 ∷ []) ∷ worker 3 true (6 ∷ 5 ∷ []) ∷ []

abbrev regions : List Region
regions = record { id = 5; enabled = true } ∷ record { id = 6; enabled = false } ∷ []

abbrev specs : Specs
specs = record {
  provider_requirements = (1, 8 ∷ []) ∷ [];
  region_sets = [] ∷ (5 ∷ 6 ∷ []) ∷ [];
  enabled = some true;
  filter_disabled_regions = true;
}

abbrev chosen : List Service
chosen = worker 1 true (5 ∷ []) ∷ worker 3 true (6 ∷ 5 ∷ []) ∷ []

request_answered : get_workers_for_specs services regions specs ≡ found chosen
unfolding get_workers_for_specs get_all_worker_services region_filters
    get_weighted_filtered_services score_services score_service provider_types_filter lookup
request_answered = refl

get_workers_for_specs_lem_example : chosen ≡ filter (suits specs) services
get_workers_for_specs_lem_example =
    get_workers_for_specs_lem services regions specs chosen request_answered

ranked_services :
    get_weighted_filtered_services services
      (enabled_filter true ∷ regions_filter (6 ∷ []) true ∷ [])
      0
    ≡ found (
        (worker 3 true (6 ∷ 5 ∷ []), 200)
        ∷ (worker 1 true (5 ∷ []), 100)
        ∷ (worker 2 false (5 ∷ []), 0)
        ∷ [])
unfolding get_weighted_filtered_services score_services score_service
ranked_services = refl

get_weighted_filtered_services-Descending_example :
    Descending (
      (worker 3 true (6 ∷ 5 ∷ []), 200)
      ∷ (worker 1 true (5 ∷ []), 100)
      ∷ (worker 2 false (5 ∷ []), 0)
      ∷ [])
    × ((n : ℕ)
        → with_rank n (
            (worker 3 true (6 ∷ 5 ∷ []), 200)
            ∷ (worker 1 true (5 ∷ []), 100)
            ∷ (worker 2 false (5 ∷ []), 0)
            ∷ [])
          ≡ with_rank n
              (scored 0 (enabled_filter true ∷ regions_filter (6 ∷ []) true ∷ []) services))
get_weighted_filtered_services-Descending_example =
    get_weighted_filtered_services-Descending 0
      (enabled_filter true ∷ regions_filter (6 ∷ []) true ∷ []) services _ refl ranked_services

lookup-provider_requirements_example :
    lookup 3 (provider_requirements (some (7 ∷ [])) (some (8 ∷ [])) 3 4) ≡ (
      if 4 == 3
      then or_else (some (8 ∷ [])) (if 3 == 3 then some (7 ∷ []) else none)
      else (if 3 == 3 then some (7 ∷ []) else none))
lookup-provider_requirements_example =
    lookup-provider_requirements (some (7 ∷ [])) (some (8 ∷ [])) 3 4 3

abbrev second_attempt : ℕ → Option ℕ
second_attempt zero = none
second_attempt (suc i) = some 9
