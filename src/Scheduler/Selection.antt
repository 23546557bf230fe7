-- ===== src/Scheduler/Selection.antt =====
-- coriolis/scheduler/rpc/server.py: the services that fit what a request asks for. The rows of
-- services and regions are arguments.
use cloudshift.Prelude.{
  ℕ, ◌+◌, Bool, true, not, ◌&&◌, Option, none, some, List, [], ◌∷◌, ◌++◌, map, any, filter,
  is_empty, contains, Dict, leb, if◌then◌else◌,
}
use cloudshift.Scheduler.Filters.{
  Service, Filter, filter_services, regions_filter, topic_filter, enabled_filter,
  provider_types_filter, same_bool,
}

-- NoWorkerServiceError, NoSuitableWorkerServiceError, RegionNotFound, NoSuitableRegionError
pub data SchedulerError : Type 0 where
  no_worker_service no_suitable_worker_service region_not_found no_suitable_region : SchedulerError

pub data Answer (A : Type 0) : Type 0 where
  found : A → Answer A
  refused : SchedulerError → Answer A

module _ {A B : Type 0} where
  infixl 5 ◌>>=◌
  abbrev pub ◌>>=◌ : Answer A → (A → Answer B) → Answer B
  found a >>= f = f a
  refused e >>= f = refused e

-- WORKER_MAIN_MESSAGING_TOPIC
abbrev pub worker_main_messaging_topic : ℕ
worker_main_messaging_topic = 0

-- `_get_all_worker_services`
unfoldable pub get_all_worker_services : List Service → Answer (List Service)
get_all_worker_services services =
    let workers = filter_services (topic_filter worker_main_messaging_topic) services in
    if is_empty workers then refused SchedulerError.no_worker_service else found workers

-- The score of a service, unless some filter rates it below the minimum.
unfoldable pub score_service : (minimum : ℕ) → (total_score : ℕ) → List Filter → Service → Option ℕ
score_service minimum total [] service = some total
score_service minimum total (rate ∷ filters) service =
    let rest = score_service minimum (total + rate service) filters service in
    if leb minimum (rate service) then rest else none

abbrev pub with_score : Service → Option ℕ → List (Service × ℕ) → List (Service × ℕ)
with_score service none scores = scores
with_score service (some score) scores = (service, score) ∷ scores

unfoldable pub score_services : (minimum : ℕ) → List Filter → List Service → List (Service × ℕ)
unfolding score_service
score_services minimum filters [] = []
score_services minimum filters (s ∷ services) =
    with_score s (score_service minimum 0 filters s) (score_services minimum filters services)

-- `sorted(scores, key=lambda s: s[1], reverse=True)`: services of the same score keep their order.
abbrev pub insert_score : Service × ℕ → List (Service × ℕ) → List (Service × ℕ)
insert_score x [] = x ∷ []
insert_score x (y ∷ ys) =
    let rest = insert_score x ys in if leb y.1 x.1 then x ∷ y ∷ ys else y ∷ rest

abbrev pub sort_scores : List (Service × ℕ) → List (Service × ℕ)
sort_scores [] = []
sort_scores (x ∷ xs) = insert_score x (sort_scores xs)

abbrev pub ranked : List (Service × ℕ) → Answer (List (Service × ℕ))
ranked scores =
    if is_empty scores
    then refused SchedulerError.no_suitable_worker_service
    else found (sort_scores scores)

-- `_get_weighted_filtered_services`
unfoldable pub get_weighted_filtered_services :
    List Service → List Filter → (minimum_per_filter_rating : ℕ) → Answer (List (Service × ℕ))
unfolding score_services
get_weighted_filtered_services services filters minimum =
    if is_empty filters
    then found (map (λ s. (s, 100)) services)
    else ranked (score_services minimum filters services)

pub record Region : Type 0 where
  pub id : ℕ
  pub enabled : Bool

-- `_filter_regions`, with `check_all_exist`
abbrev pub filter_regions :
    List Region → (region_ids : List ℕ) → (enabled : Bool) → Answer (List Region)
filter_regions regions region_ids enabled =
    let found_ids = map (λ r. r.id) (filter (λ r. contains r.id region_ids) regions) in
    if any (λ id. not (contains id found_ids)) region_ids
    then refused SchedulerError.region_not_found
    else found (filter (λ r. contains r.id region_ids && same_bool r.enabled enabled) regions)

-- The filter for one region set that is not empty: the regions that are enabled are only counted,
-- and the filter has the set as it was given.
abbrev pub region_set_filter :
    List Region → (filter_disabled_regions : Bool) → (region_set : List ℕ) → Answer Filter
region_set_filter regions filter_disabled region_set = do
  filtered ← filter_regions regions region_set filter_disabled
  if is_empty filtered
      then refused SchedulerError.no_suitable_region
      else found (regions_filter region_set true)

unfoldable pub region_filters :
    List Region
    → (filter_disabled_regions : Bool) → (region_sets : List (List ℕ)) → Answer (List Filter)
region_filters regions filter_disabled [] = found []
region_filters regions filter_disabled ([] ∷ sets) = region_filters regions filter_disabled sets
region_filters regions filter_disabled ((r ∷ rs) ∷ sets) = do
  first ← region_set_filter regions filter_disabled (r ∷ rs)
  rest ← region_filters regions filter_disabled sets
  found (first ∷ rest)

pub record Specs : Type 0 where
  pub provider_requirements : Dict (List ℕ)
  pub region_sets : List (List ℕ)
  pub enabled : Option Bool
  pub filter_disabled_regions : Bool

abbrev pub enabled_filters : Option Bool → List Filter
enabled_filters none = []
enabled_filters (some b) = enabled_filter b ∷ []

abbrev pub provider_filters : Dict (List ℕ) → List Filter
provider_filters [] = []
provider_filters (entry ∷ requirements) = provider_types_filter (entry ∷ requirements) ∷ []

unfoldable pub get_workers_for_specs : List Service → List Region → Specs → Answer (List Service)
unfolding get_all_worker_services region_filters get_weighted_filtered_services
    provider_types_filter
get_workers_for_specs services regions specs = do
  workers ← get_all_worker_services services
  by_region ← region_filters regions specs.filter_disabled_regions specs.region_sets
  scores ←
      get_weighted_filtered_services workers
        (enabled_filters specs.enabled
          ++ (by_region ++ provider_filters specs.provider_requirements))
        1
  found (map (λ s. s.0) scores)
