-- ===== src/Construction/TransferPasses.antt =====
-- The execution of a transfer passes its check, whatever its options are.
use cloudshift.Prelude.{
  ℕ, ◌≡◌, refl, ◌∙◌, Bool, true, false, ◌||◌, Option, none, some, List, [], ◌∷◌, ◌++◌, length,
  contains, Dict, lookup, insert, ◌==◌, ==_iff, ==_refl, lookup-insert, ◌⊎◌, inl, inr, Option-cases,
  arith,
}
use cloudshift.Conductor.Store.{Task}
use cloudshift.Conductor.Results.{volumes_info}
use cloudshift.Construction.Fields.{source_environment, target_environment}
use cloudshift.Construction.Build.{Build, done, create, run, run_all}
use cloudshift.Construction.Sanity.{
  passed, gather, collect_fields, check_round, check_rounds, check_instance, check_instances,
  tasks_for, dict_keys,
}
use cloudshift.Construction.Transfer.{
  TransferOptions, new_transfer_execution, transfer_infos, transfer_tasks, transfer_info, set_all,
  default_volumes, origin_pool_fields, destination_pool_fields,
}
use cloudshift.Construction.Outcomes.{Sub, contains-++}
use cloudshift.Construction.OrderedLaws.{tasks_for-snoc}
use cloudshift.Construction.Keys.{check_instance-Sub}

abbrev pub transfer_options : (o p s : Bool) → TransferOptions
transfer_options o p s = record {
  origin_minion_pool = o;
  destination_minion_pool = p;
  shutdown_instances = s;
}

-- What the code adds to the task info.
abbrev base_fields : (o p : Bool) → List ℕ
base_fields o p =
    volumes_info ∷ source_environment ∷ target_environment ∷ origin_pool_fields o
    ++ destination_pool_fields p

base_passes :
    (i : ℕ) (o p s : Bool)
    → check_instance
        (base_fields o p)
        (run (λ n. n) i (transfer_tasks (transfer_options o p s)) []).1
      ≡ passed tt
unfolding check_instance check_rounds check_round gather collect_fields run transfer_tasks
base_passes i true true true = refl
base_passes i true true false = refl
base_passes i true false true = refl
base_passes i true false false = refl
base_passes i false true true = refl
base_passes i false true false = refl
base_passes i false false true = refl
base_passes i false false false = refl

pub contains-insert :
    (d key value : ℕ) (values : Dict ℕ)
    → contains d (dict_keys (insert key value values)) ≡ (d == key || contains d (dict_keys values))
unfolding insert
contains-insert d key value [] = refl
contains-insert d key value (entry ∷ values) =
    ground (arith, contains-insert d key value values, ==_iff entry.0 key)

pub contains-set_all :
    (d : ℕ) (fields : List ℕ) (values : Dict ℕ)
    → contains d (dict_keys (set_all fields values))
      ≡ (contains d fields || contains d (dict_keys values))
contains-set_all d [] values = refl
contains-set_all d (field ∷ fields) values =
    ground
      (arith, contains-set_all d fields (insert field 0 values), contains-insert d field 0 values)

contains-lookup :
    (d v : ℕ) (values : Dict ℕ) → lookup d values ≡ some v → contains d (dict_keys values) ≡ true
unfolding lookup
contains-lookup d v [] h = ground arith
contains-lookup d v (entry ∷ values) h = ground (arith, contains-lookup d v values)

contains-default_volumes :
    (old : Option (Dict ℕ)) → contains volumes_info (dict_keys (default_volumes old)) ≡ true
contains-default_volumes none = refl
contains-default_volumes (some values) = from (Option-cases (lookup volumes_info values))
  where
    from :
        (lookup volumes_info values ≡ none) ⊎ ((v : ℕ) × (lookup volumes_info values ≡ some v))
        → contains volumes_info (dict_keys (default_volumes (some values))) ≡ true
    from (inl h) = rw h (contains-insert volumes_info volumes_info 0 values)
    from (inr (v, h)) = rw h (
        ground (
          arith,
          contains-insert volumes_info volumes_info 0 values,
          contains-lookup volumes_info v values h,
        ))

default_has :
    (old : Option (Dict ℕ)) (d : ℕ)
    → (d == volumes_info) ≡ true
    → contains d (dict_keys (default_volumes old)) ≡ true
default_has old d h = rw ((==_iff d volumes_info).0 h) (contains-default_volumes old)

base-transfer_info :
    (o p s : Bool) (source target : ℕ) (old : Option (Dict ℕ))
    → Sub (base_fields o p) (dict_keys (transfer_info (transfer_options o p s) source target old))
unfolding transfer_info
base-transfer_info o p s source target old d =
    let v = default_volumes old in
    let w = insert source_environment source v in
    let x = insert target_environment target w in
    ground (
      arith,
      contains-set_all d (destination_pool_fields p) (set_all (origin_pool_fields o) x),
      contains-set_all d (origin_pool_fields o) x,
      contains-insert d target_environment target w,
      contains-insert d source_environment source v,
      default_has old d,
      contains-++ d (origin_pool_fields o) (destination_pool_fields p),
    )

pub tasks_for-run :
    (uuid : ℕ → ℕ) (i : ℕ) (m : Build Unit) (ts : List Task)
    → tasks_for i ts ≡ ts
    → tasks_for i (run uuid i m ts).1 ≡ (run uuid i m ts).1
unfolding run
tasks_for-run uuid i (done a) ts h = h
tasks_for-run uuid i (create type deps e eo k) ts h =
    tasks_for-run uuid i (k (uuid (length ts))) _ (tasks_for-snoc i ts _ ∙ rw (==_refl i, h) refl)

-- The execution of a transfer of one instance passes its check, whichever minion pools the
-- transfer uses, whether instances are shut down and whatever the task info holds before: the
-- tasks and the new task info are returned. The identifiers are those of a counter.
pub new_transfer_execution-passes :
    (o p s : Bool) (source target i : ℕ) (info : Dict (Dict ℕ))
    → new_transfer_execution (λ n. n) (transfer_options o p s) source target (i ∷ []) info
      ≡ passed (
        (run (λ n. n) i (transfer_tasks (transfer_options o p s)) []).1,
        insert i (transfer_info (transfer_options o p s) source target (lookup i info)) info,
      )
unfolding new_transfer_execution run_all transfer_infos check_instances
new_transfer_execution-passes o p s source target i info =
    rw
      (
        lookup-insert info i (transfer_info (transfer_options o p s) source target (lookup i info))
            i,
        ==_refl i,
        tasks_for-run (λ n. n) i (transfer_tasks (transfer_options o p s)) [] refl,
        check_instance-Sub _ _ _ (base-transfer_info o p s source target (lookup i info))
            (base_passes i o p s),
      )
      refl
