-- ===== src/Scheduler/Retries.antt =====
-- What a task requires of its worker, and the attempts to get one.
use cloudshift.Prelude.{
  ℕ, zero, suc, ◌+◌, ◌<◌, ◌≡◌, refl, subst, ◌∙◌, Bool, Option, none, some, List, [], Dict, lookup,
  lookup-insert, ◌==◌, if◌then◌else◌, arith, Option-cases, ◌⊎◌, inl, inr,
}
use cloudshift.Scheduler.Client.{provider_requirements, require, get_worker_service}

abbrev pub or_else : Option (List ℕ) → Option (List ℕ) → Option (List ℕ)
or_else none other = other
or_else (some types) other = some types

lookup-require :
    (types : Option (List ℕ)) (platform : ℕ) (requirements : Dict (List ℕ)) (p : ℕ)
    → lookup p (require types platform requirements)
      ≡ (if platform == p then or_else types (lookup p requirements) else lookup p requirements)
lookup-require none platform requirements p = ground arith
lookup-require (some types) platform requirements p =
    lookup-insert requirements platform types p ∙ ground arith

-- What is required of a platform is what the task requires of the destination, if it requires
-- anything and the destination is of this type; else what it requires of the source, if the origin
-- is of this type. For endpoints of one type the requirements of the source are lost.
pub lookup-provider_requirements :
    (source destination : Option (List ℕ)) (origin_type destination_type p : ℕ)
    → lookup p (provider_requirements source destination origin_type destination_type) ≡ (
        if destination_type == p
        then or_else destination (if origin_type == p then source else none)
        else (if origin_type == p then source else none))
unfolding provider_requirements lookup
lookup-provider_requirements source destination origin_type destination_type p =
    let of_source = require source origin_type [] in
    let from_source : lookup p of_source ≡ (if origin_type == p then source else none) =
      lookup-require source origin_type [] p ∙ on_empty source (origin_type == p) p in
    lookup-require destination destination_type of_source p ∙ rw from_source refl
  where
    on_empty :
        (types : Option (List ℕ)) (b : Bool) (p : ℕ)
        → (if b then or_else types none else none) ≡ (if b then types else none)
    on_empty none b p = ground arith
    on_empty (some t) b p = refl

-- No attempt from the first to before the given one succeeds.
abbrev pub AllFail : {A : Type 0} → (ℕ → Option A) → (i count : ℕ) → Type 0
AllFail answer i count = (k : ℕ) → k < count → answer (i + k) ≡ none

AllFail-suc :
    {A : Type 0} (answer : ℕ → Option A) (i count : ℕ)
    → answer i ≡ none
    → AllFail answer (suc i) count
    → AllFail answer i (suc count)
AllFail-suc answer i count h a zero lt = subst (λ n. answer n ≡ none) (omega arith) h
AllFail-suc answer i count h a (suc k) lt =
    subst (λ n. answer n ≡ none) (omega arith) (a k (omega (arith, lt)))

-- The result is the answer of the first attempt that succeeds, and none where all fail.
abbrev pub FirstOf : {A : Type 0} → (ℕ → Option A) → (i count : ℕ) → Option A → Type 0
FirstOf {A} answer i count result =
    (AllFail answer i count × (result ≡ none))
    ⊎ ((k : ℕ) × (a : A) × (k < count)
        × AllFail answer i k
        × (answer (i + k) ≡ some a)
        × (result ≡ some a))

-- Either all attempts fail, and then no service is returned; or one of them is the first to
-- succeed, and then its answer is returned.
pub get_worker_service_lem :
    {A : Type 0} (answer : ℕ → Option A) (i count : ℕ)
    → FirstOf answer i count (get_worker_service answer i count)
unfolding get_worker_service
get_worker_service_lem {A} answer i zero = inl ((λ k lt. ground (arith, lt)), refl)
get_worker_service_lem {A} answer i (suc count) =
    from (Option-cases (answer i)) (get_worker_service_lem answer (suc i) count)
  where
    from :
        (answer i ≡ none) ⊎ ((a : A) × (answer i ≡ some a))
        → FirstOf answer (suc i) count (get_worker_service answer (suc i) count)
        → FirstOf answer i (suc count) (get_worker_service answer i (suc count))
    from (inl h) (inl (all_fail, e)) = inl (AllFail-suc answer i count h all_fail, rw h e)
    from (inl h) (inr (k, a, lt, fails, first, e)) = inr (
      suc k,
      a,
      omega (arith, lt),
      AllFail-suc answer i k h fails,
      subst (λ n. answer n ≡ some a) (omega arith) first,
      rw h e,
    )
    from (inr (a, h)) rest = inr (
      0,
      a,
      omega arith,
      (λ k lt. ground (arith, lt)),
      subst (λ n. answer n ≡ some a) (omega arith) h,
      rw h refl,
    )
