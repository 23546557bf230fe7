-- ===== src/Scheduler/Suitable.antt =====
-- The services that a request is answered with.
use cloudshift.Prelude.{
  ℕ, ◌≡◌, refl, sym, ap, subst, ◌∙◌, Bool, true, ◌&&◌, ◌||◌, List, [], ◌∷◌, ◌++◌, map, any, filter,
  is_empty, contains, All, ◌==◌, leb, if◌then◌else◌, arith,
}
use cloudshift.Scheduler.Filters.{
  Service, Filter, filter_services, regions_filter, topic_filter, is_service_acceptable,
}
use cloudshift.Scheduler.Selection.{
  SchedulerError, Answer, found, refused, ◌>>=◌, worker_main_messaging_topic,
  get_all_worker_services, ranked, get_weighted_filtered_services, Region, filter_regions,
  region_set_filter, region_filters, Specs, enabled_filters, provider_filters,
  get_workers_for_specs,
}
use cloudshift.Scheduler.Ranking.{accepted, score_services_lem}
use cloudshift.Scheduler.Ratings.{
  in_region_sets, has_providers, as_asked, suits, AllOrNothing, hundreds, scored_lem, sort-same,
  map-same, accepted-++, All-++, enabled_filters-AllOrNothing, enabled_filters_lem,
  provider_filters-AllOrNothing, provider_filters_lem, regions-AllOrNothing, regions_lem,
}

-- What holds of the value of an answer, if there is one.
abbrev Given : {A : Type 0} → (A → Type 0) → Answer A → Type 0
Given P (found a) = P a
Given P (refused e) = Unit

Given-bind :
    {A B : Type 0} (P : A → Type 0) (Q : B → Type 0) (m : Answer A) (f : A → Answer B)
    → Given P m
    → ((a : A) → P a → Given Q (f a))
    → Given Q (m >>= f)
Given-bind P Q (found a) f p h = h a p
Given-bind P Q (refused e) f p h = tt

Given-any : {A : Type 0} (m : Answer A) → Given (λ _. Unit) m
Given-any (found a) = tt
Given-any (refused e) = tt

abbrev IsFor : (List ℕ) → Filter → Type 0
IsFor set f =
    AllOrNothing f
    × ((s : Service) → leb 1 (f s) ≡ (is_empty set || any (λ r. contains r s.mapped_regions) set))

region_set-Given :
    (regions : List Region) (fd : Bool) (set : List ℕ)
    → Given (IsFor set) (region_set_filter regions fd set)
region_set-Given regions fd set =
    Given-bind (λ _. Unit) (IsFor set) (filter_regions regions set fd) _ (Given-any _)
      (λ filtered u. from filtered)
  where
    from :
        (filtered : List Region)
        → Given (IsFor set) (
            if is_empty filtered
            then refused SchedulerError.no_suitable_region
            else found (regions_filter set true))
    from [] = tt
    from (r ∷ rs) = (regions-AllOrNothing set, regions_lem set)

abbrev AreFor : List (List ℕ) → List Filter → Type 0
AreFor sets fs = All AllOrNothing fs × ((s : Service) → accepted 1 fs s ≡ in_region_sets sets s)

region_filters-Given :
    (regions : List Region) (fd : Bool) (sets : List (List ℕ))
    → Given (AreFor sets) (region_filters regions fd sets)
unfolding region_filters
region_filters-Given regions fd [] = (tt, λ s. refl)
region_filters-Given regions fd ([] ∷ sets) = region_filters-Given regions fd sets
region_filters-Given regions fd ((r ∷ rs) ∷ sets) =
    Given-bind (IsFor (r ∷ rs)) (AreFor ((r ∷ rs) ∷ sets)) (region_set_filter regions fd (r ∷ rs)) _
      (region_set-Given regions fd (r ∷ rs))
      (λ f is.
        Given-bind (AreFor sets) (AreFor ((r ∷ rs) ∷ sets)) (region_filters regions fd sets) _
          (region_filters-Given regions fd sets)
          (λ fs are. ((is.0, are.0), λ s. rw (is.1 s, are.1 s) refl)))

filter_cong :
    (p q : Service → Bool) (xs : List Service)
    → ((s : Service) → p s ≡ q s)
    → filter p xs ≡ filter q xs
filter_cong p q [] h = refl
filter_cong p q (x ∷ xs) h = ground (arith, h x, filter_cong p q xs h)

filter-filter :
    (p q : Service → Bool) (xs : List Service)
    → filter q (filter p xs) ≡ filter (λ s. p s && q s) xs
filter-filter p q [] = refl
filter-filter p q (x ∷ xs) = ground (arith, filter-filter p q xs)

filter_all : (xs : List Service) → filter (λ _. true) xs ≡ xs
filter_all [] = refl
filter_all (x ∷ xs) = ap (λ l. x ∷ l) (filter_all xs)

-- All that the filters accept, in the order of the rows.
weighted-Given :
    (filters : List Filter) (services : List Service)
    → All AllOrNothing filters
    → Given
        (λ scores. map (λ (x : Service × ℕ). x.0) scores ≡ filter (accepted 1 filters) services)
        (get_weighted_filtered_services services filters 1)
unfolding get_weighted_filtered_services
weighted-Given [] services a = map-same 100 services ∙ sym (filter_all services)
weighted-Given (f ∷ fs) services a =
    rw (score_services_lem 1 (f ∷ fs) services, scored_lem (f ∷ fs) services a)
      (from (filter (accepted 1 (f ∷ fs)) services))
  where
    from :
        (accepted_services : List Service)
        → Given
            (λ scores. map (λ (x : Service × ℕ). x.0) scores ≡ accepted_services)
            (ranked (map (λ s. (s, hundreds (f ∷ fs))) accepted_services))
    from [] = tt
    from (s ∷ ss) = ap (map (λ (x : Service × ℕ). x.0)) (sort-same _ (s ∷ ss)) ∙ map-same _ (s ∷ ss)

-- The filters of a request accept what suits it, among the workers.
abbrev filters_of : Specs → List Filter → List Filter
filters_of specs by_region =
    enabled_filters specs.enabled ++ (by_region ++ provider_filters specs.provider_requirements)

is_worker_lem :
    (s : Service)
    → is_service_acceptable (topic_filter worker_main_messaging_topic) s
      ≡ (s.topic == worker_main_messaging_topic)
is_worker_lem s = ground arith

workers-Given :
    (services : List Service)
    → Given
        (λ workers. workers ≡ filter (λ s. s.topic == worker_main_messaging_topic) services)
        (get_all_worker_services services)
unfolding get_all_worker_services
workers-Given services =
    from (filter_services (topic_filter worker_main_messaging_topic) services)
      (filter_cong _ _ services is_worker_lem)
  where
    from :
        (workers : List Service)
        → workers ≡ filter (λ s. s.topic == worker_main_messaging_topic) services
        → Given
            (λ found_workers.
              found_workers ≡ filter (λ s. s.topic == worker_main_messaging_topic) services)
            (if is_empty workers then refused SchedulerError.no_worker_service else found workers)
    from [] e = tt
    from (w ∷ ws) e = e

filters_of-AllOrNothing :
    (specs : Specs) (by_region : List Filter)
    → AreFor specs.region_sets by_region
    → All AllOrNothing (filters_of specs by_region)
filters_of-AllOrNothing specs by_region a =
    All-++ _ _ (enabled_filters-AllOrNothing specs.enabled)
      (All-++ by_region _ a.0 (provider_filters-AllOrNothing specs.provider_requirements))

filters_of_lem :
    (specs : Specs) (by_region : List Filter)
    → AreFor specs.region_sets by_region
    → (s : Service)
    → accepted 1 (filters_of specs by_region) s ≡ (
        as_asked specs.enabled s
        && (in_region_sets specs.region_sets s && has_providers specs.provider_requirements s))
filters_of_lem specs by_region a s =
    rw
      (
        accepted-++ (enabled_filters specs.enabled)
            (by_region ++ provider_filters specs.provider_requirements) s,
        accepted-++ by_region (provider_filters specs.provider_requirements) s,
        enabled_filters_lem specs.enabled s,
        a.1 s,
        provider_filters_lem specs.provider_requirements s,
      )
      refl

suits_lem :
    (services : List Service) (specs : Specs) (by_region : List Filter)
    → AreFor specs.region_sets by_region
    → filter
        (accepted 1 (filters_of specs by_region))
        (filter (λ s. s.topic == worker_main_messaging_topic) services)
      ≡ filter (suits specs) services
suits_lem services specs by_region a =
    filter-filter _ (accepted 1 (filters_of specs by_region)) services
    ∙ filter_cong _ (suits specs) services (λ s.
      ap (λ b. s.topic == worker_main_messaging_topic && b) (filters_of_lem specs by_region a s))

specs-Given :
    (services : List Service) (regions : List Region) (specs : Specs)
    → Given
        (λ workers. workers ≡ filter (suits specs) services)
        (get_workers_for_specs services regions specs)
unfolding get_workers_for_specs
specs-Given services regions specs =
    Given-bind _ (λ workers. workers ≡ filter (suits specs) services)
      (get_all_worker_services services) _ (workers-Given services)
      (λ workers w.
        Given-bind (AreFor specs.region_sets) (λ workers. workers ≡ filter (suits specs) services)
          (region_filters regions specs.filter_disabled_regions specs.region_sets) _
          (region_filters-Given regions specs.filter_disabled_regions specs.region_sets)
          (λ by_region a.
            Given-bind
              (λ scores.
                map (λ (x : Service × ℕ). x.0) scores
                ≡ filter (accepted 1 (filters_of specs by_region)) workers)
              (λ workers. workers ≡ filter (suits specs) services)
              (get_weighted_filtered_services workers (filters_of specs by_region) 1) _
              (weighted-Given (filters_of specs by_region) workers
                (filters_of-AllOrNothing specs by_region a))
              (λ scores e.
                e
                ∙ ap (filter (accepted 1 (filters_of specs by_region))) w
                ∙ suits_lem services specs by_region a)))

-- A request that is answered gets exactly the services that suit it, in the order of the rows:
-- workers that are enabled as asked, have a region in each region set that is not empty, and have
-- each kind of provider that is required on each platform.
pub get_workers_for_specs_lem :
    (services : List Service) (regions : List Region) (specs : Specs) (workers : List Service)
    → get_workers_for_specs services regions specs ≡ found workers
    → workers ≡ filter (suits specs) services
get_workers_for_specs_lem services regions specs workers h =
    subst (Given (λ workers. workers ≡ filter (suits specs) services)) h
      (specs-Given services regions specs)
