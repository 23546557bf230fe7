-- ===== src/Scheduler/Ratings.antt =====
-- The ratings of services by the filters of a request, and what they amount to.
use cloudshift.Prelude.{
  ℕ, ◌+◌, ◌≡◌, refl, ap, Bool, true, not, ◌&&◌, ◌||◌, Option, none, some, List, [], ◌∷◌, ◌++◌, map,
  any, all, filter, is_empty, contains, All, Dict, lookup, ◌==◌, leb, arith, Bool-cases, ◌⊎◌, inl,
  inr,
}
use cloudshift.Scheduler.Filters.{
  Service, Filter, regions_filter, provider_types_filter, same_bool, has_types,
}
use cloudshift.Scheduler.Selection.{
  worker_main_messaging_topic, sort_scores, insert_score, Specs, enabled_filters, provider_filters,
}
use cloudshift.Scheduler.Ranking.{accepted, total, scored}

-- What a request asks of a service, in plain words: the topic of the workers; enabled or not, as
-- asked; a region in each region set that is not empty; and each kind of provider that is required.
abbrev pub in_region_sets : List (List ℕ) → Service → Bool
in_region_sets sets s = all (λ set. is_empty set || any (λ r. contains r s.mapped_regions) set) sets

abbrev pub has_providers : Dict (List ℕ) → Service → Bool
has_providers requirements s =
    all (λ entry. has_types (lookup entry.0 s.providers) entry.1) requirements

abbrev pub as_asked : Option Bool → Service → Bool
as_asked none s = true
as_asked (some b) s = same_bool s.enabled b

abbrev pub suits : Specs → Service → Bool
suits specs s =
    s.topic == worker_main_messaging_topic
    && (as_asked specs.enabled s
        && (in_region_sets specs.region_sets s && has_providers specs.provider_requirements s))

-- A filter of this kind rates a service with 0 or with 100.
abbrev pub AllOrNothing : Filter → Type 0
AllOrNothing rate = (s : Service) → (rate s ≡ 0) ⊎ (rate s ≡ 100)

unfoldable pub hundreds : {A : Type 0} → List A → ℕ
hundreds [] = 0
hundreds (x ∷ xs) = 100 + hundreds xs

pub total_lem :
    (filters : List Filter) (s : Service)
    → All AllOrNothing filters
    → accepted 1 filters s ≡ true
    → total filters s ≡ hundreds filters
unfolding hundreds
total_lem [] s a h = refl
total_lem (rate ∷ filters) s (a, rest) h = elim (a s) [
  | inl e ↦ ground (arith, e, h)
  | inr e ↦ ground (arith, e, h, total_lem filters s rest)
]

pub scored_lem :
    (filters : List Filter) (services : List Service)
    → All AllOrNothing filters
    → scored 1 filters services
      ≡ map (λ s. (s, hundreds filters)) (filter (accepted 1 filters) services)
scored_lem filters [] a = refl
scored_lem filters (s ∷ services) a = elim (Bool-cases (accepted 1 filters s)) [
  | inl h ↦ rw (h, total_lem filters s a h, scored_lem filters services a) refl
  | inr h ↦ rw (h, scored_lem filters services a) refl
]

-- Services of one score keep their order.
pub sort-same :
    (n : ℕ) (services : List Service)
    → sort_scores (map (λ s. (s, n)) services) ≡ map (λ s. (s, n)) services
sort-same n [] = refl
sort-same n (s ∷ services) = rw (sort-same n services) (first services)
  where
    first :
        (rest : List Service)
        → insert_score (s, n) (map (λ s. (s, n)) rest) ≡ (s, n) ∷ map (λ s. (s, n)) rest
    first [] = refl
    first (t ∷ rest) = ground arith

pub map-same :
    (n : ℕ) (services : List Service)
    → map (λ (x : Service × ℕ). x.0) (map (λ s. (s, n)) services) ≡ services
map-same n [] = refl
map-same n (s ∷ services) = ap (λ l. s ∷ l) (map-same n services)

pub accepted-++ :
    (fs gs : List Filter) (s : Service)
    → accepted 1 (fs ++ gs) s ≡ (accepted 1 fs s && accepted 1 gs s)
accepted-++ [] gs s = refl
accepted-++ (f ∷ fs) gs s = ground (arith, accepted-++ fs gs s)

pub All-++ :
    (fs gs : List Filter) → All AllOrNothing fs → All AllOrNothing gs → All AllOrNothing (fs ++ gs)
All-++ [] gs a b = b
All-++ (f ∷ fs) gs (a, rest) b = (a, All-++ fs gs rest b)

pub enabled_filters-AllOrNothing : (e : Option Bool) → All AllOrNothing (enabled_filters e)
enabled_filters-AllOrNothing none = tt
enabled_filters-AllOrNothing (some b) = ((λ s. ground arith), tt)

pub enabled_filters_lem :
    (e : Option Bool) (s : Service) → accepted 1 (enabled_filters e) s ≡ as_asked e s
enabled_filters_lem none s = refl
enabled_filters_lem (some b) s = ground arith

pub provider_types-AllOrNothing : (reqs : Dict (List ℕ)) → AllOrNothing (provider_types_filter reqs)
unfolding provider_types_filter
provider_types-AllOrNothing [] s = inr refl
provider_types-AllOrNothing (entry ∷ reqs) s = ground (arith, provider_types-AllOrNothing reqs s)

pub provider_types_lem :
    (reqs : Dict (List ℕ)) (s : Service)
    → leb 1 (provider_types_filter reqs s) ≡ has_providers reqs s
unfolding provider_types_filter
provider_types_lem [] s = refl
provider_types_lem (entry ∷ reqs) s = ground (arith, provider_types_lem reqs s)

pub provider_filters-AllOrNothing :
    (reqs : Dict (List ℕ)) → All AllOrNothing (provider_filters reqs)
provider_filters-AllOrNothing [] = tt
provider_filters-AllOrNothing (entry ∷ reqs) = (provider_types-AllOrNothing (entry ∷ reqs), tt)

pub provider_filters_lem :
    (reqs : Dict (List ℕ)) (s : Service)
    → accepted 1 (provider_filters reqs) s ≡ has_providers reqs s
provider_filters_lem [] s = refl
provider_filters_lem (entry ∷ reqs) s = ground (arith, provider_types_lem (entry ∷ reqs) s)

pub found_regions : (p : ℕ → Bool) (rs : List ℕ) → is_empty (filter p rs) ≡ not (any p rs)
found_regions p [] = refl
found_regions p (r ∷ rs) = ground (arith, found_regions p rs)

pub regions-AllOrNothing : (rs : List ℕ) → AllOrNothing (regions_filter rs true)
regions-AllOrNothing [] s = inr refl
regions-AllOrNothing (r ∷ rs) s = ground arith

pub regions_lem :
    (rs : List ℕ) (s : Service)
    → leb 1 (regions_filter rs true s) ≡ (is_empty rs || any (λ r. contains r s.mapped_regions) rs)
regions_lem [] s = refl
regions_lem (r ∷ rs) s = ground (arith, found_regions (λ r. contains r s.mapped_regions) (r ∷ rs))
