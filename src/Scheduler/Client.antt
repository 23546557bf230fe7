-- ===== src/Scheduler/Client.antt =====
-- coriolis/scheduler/rpc/client.py, `get_worker_service_for_task`: what a task requires of a
-- worker, and the attempts to get one.
use cloudshift.Prelude.{ℕ, zero, suc, Option, none, some, List, [], ◌∷◌, Dict, insert}

-- TASK_PLATFORM_*
pub data TaskPlatform : Type 0 where
  source_platform destination_platform bilateral_platform : TaskPlatform

pub record Endpoint : Type 0 where
  pub type : ℕ
  pub mapped_regions : List ℕ

abbrev pub required_region_sets : TaskPlatform → (origin destination : Endpoint) → List (List ℕ)
required_region_sets TaskPlatform.source_platform origin destination = origin.mapped_regions ∷ []
required_region_sets TaskPlatform.destination_platform origin destination =
    destination.mapped_regions ∷ []
required_region_sets TaskPlatform.bilateral_platform origin destination =
    origin.mapped_regions ∷ destination.mapped_regions ∷ []

abbrev pub require : Option (List ℕ) → (platform : ℕ) → Dict (List ℕ) → Dict (List ℕ)
require none platform requirements = requirements
require (some types) platform requirements = insert platform types requirements

-- The kinds of providers that the task's class requires of the source and of the destination.
unfoldable pub provider_requirements :
    (source destination : Option (List ℕ)) → (origin_type destination_type : ℕ) → Dict (List ℕ)
unfolding insert
provider_requirements source destination origin_type destination_type =
    require destination destination_type (require source origin_type [])

-- The loop of attempts: `answer i` is what the scheduler gives in attempt i, or null when the call
-- raises. The attempts that fail are followed by a pause.
abbrev pub attempt : {A : Type 0} → Option A → Option A → Option A
attempt none rest = rest
attempt (some service) rest = some service

unfoldable pub get_worker_service :
    {A : Type 0} → (answer : ℕ → Option A) → (i retries_left : ℕ) → Option A
get_worker_service answer i zero = none
get_worker_service answer i (suc left) = attempt (answer i) (get_worker_service answer (suc i) left)
