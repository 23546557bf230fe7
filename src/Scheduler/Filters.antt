-- ===== src/Scheduler/Filters.antt =====
-- coriolis/scheduler/filters: the ratings of worker services. Identifiers, topics and kinds of
-- platforms and providers are numbers.
use cloudshift.Prelude.{
  ℕ, Bool, true, false, not, ◌&&◌, Option, none, some, List, [], ◌∷◌, filter, is_empty, contains,
  Dict, lookup, ◌==◌, leb, if◌then◌else◌,
}

-- A row of the services, with the identifiers of its regions, and the kinds of providers that it
-- has for each platform; a platform without `types` has none.
pub record Service : Type 0 where
  pub id : ℕ
  pub topic : ℕ
  pub enabled : Bool
  pub mapped_regions : List ℕ
  pub providers : Dict (List ℕ)

-- A filter is its `rate_service`.
abbrev pub Filter : Type 0
Filter = Service → ℕ

-- BaseServiceFilter
abbrev pub is_service_acceptable : Filter → Service → Bool
is_service_acceptable rate service = not (leb (rate service) 0)

abbrev pub filter_services : Filter → List Service → List Service
filter_services rate services = filter (is_service_acceptable rate) services

abbrev pub same_bool : Bool → Bool → Bool
same_bool true b = b
same_bool false b = not b

abbrev pub regions_filter : (regions : List ℕ) (any_region : Bool) → Filter
regions_filter regions any_region service =
    let found = filter (λ r. contains r service.mapped_regions) regions in
    let missing = filter (λ r. not (contains r service.mapped_regions)) regions in
    if is_empty regions
    then 100
    else (if is_empty found
        then 0
        else (if not any_region && not (is_empty missing) then 0 else 100))

abbrev pub topic_filter : (topic : ℕ) → Filter
topic_filter topic service = if service.topic == topic then 100 else 0

abbrev pub enabled_filter : (enabled : Bool) → Filter
enabled_filter enabled service = if same_bool service.enabled enabled then 100 else 0

abbrev pub missing_types : (required : List ℕ) (available : List ℕ) → List ℕ
missing_types required available = filter (λ type. not (contains type available)) required

-- Whether the service has the platform, with every kind of provider that is required there.
abbrev pub has_types : Option (List ℕ) → (required : List ℕ) → Bool
has_types none required = false
has_types (some available) required = is_empty (missing_types required available)

unfoldable pub provider_types_filter : (provider_requirements : Dict (List ℕ)) → Filter
unfolding lookup
provider_types_filter [] service = 100
provider_types_filter (entry ∷ requirements) service =
    let rest = provider_types_filter requirements service in
    if has_types (lookup entry.0 service.providers) entry.1 then rest else 0
