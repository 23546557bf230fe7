-- ===== src/Construction/DeploymentPasses.antt =====
-- The execution of a deployment passes its check, whatever its options are.
use cloudshift.Prelude.{
  ℕ, ◌≡◌, refl, ap, Bool, true, false, not, ◌&&◌, some, List, [], ◌∷◌, contains, Dict, lookup,
  insert, ◌==◌, ==_iff, ==_refl, lookup-insert, if◌then◌else◌, arith,
}
use cloudshift.Conductor.Results.{volumes_info, clone_disks}
use cloudshift.Construction.Fields.{
  source_environment, target_environment, export_info, user_scripts,
}
use cloudshift.Construction.Build.{run, run_all}
use cloudshift.Construction.Sanity.{
  passed, gather, collect_fields, check_round, check_rounds, check_instance, check_instances,
  dict_keys,
}
use cloudshift.Construction.Transfer.{set_all}
use cloudshift.Construction.Deployment.{
  DeploymentOptions, new_deployment_execution, deployment_infos, deployment_tasks, deployment_info,
  osmorphing_pool_fields, with_values,
}
use cloudshift.Construction.Outcomes.{Sub}
use cloudshift.Construction.Keys.{check_instance-Sub}
use cloudshift.Construction.TransferPasses.{contains-insert, contains-set_all, tasks_for-run}

abbrev pub deployment_options : (s p f c : Bool) → DeploymentOptions
deployment_options s p f c = record {
  skip_os_morphing = s;
  osmorphing_minion_pool = p;
  instance_flavor = f;
  clones_disks = c;
}

-- What the code adds to the task info, and what it needs of the transfer's.
abbrev base_fields : (s p : Bool) → List ℕ
base_fields s p =
    volumes_info
    ∷ export_info
    ∷ clone_disks
    ∷ user_scripts
    ∷ source_environment
    ∷ target_environment
    ∷ osmorphing_pool_fields (not s && p)

base_passes :
    (i : ℕ) (s p f c : Bool)
    → check_instance
        (base_fields s p)
        (run (λ n. n) i (deployment_tasks (deployment_options s p f c)) []).1
      ≡ passed tt
unfolding check_instance check_rounds check_round gather collect_fields run deployment_tasks
base_passes i true true true true = refl
base_passes i true true true false = refl
base_passes i true true false true = refl
base_passes i true true false false = refl
base_passes i true false true true = refl
base_passes i true false true false = refl
base_passes i true false false true = refl
base_passes i true false false false = refl
base_passes i false true true true = refl
base_passes i false true true false = refl
base_passes i false true false true = refl
base_passes i false true false false = refl
base_passes i false false true true = refl
base_passes i false false true false = refl
base_passes i false false false true = refl
base_passes i false false false false = refl

-- The task info of an instance of a deployment, where the transfer has one.
abbrev pub new_values : (o : DeploymentOptions) → (scripts source target : ℕ) → Dict ℕ → Dict ℕ
new_values o scripts source target values =
    set_all (osmorphing_pool_fields (not o.skip_os_morphing && o.osmorphing_minion_pool)) (
      insert target_environment target (
        insert source_environment source (
          insert user_scripts scripts
            (insert clone_disks (if o.clones_disks then 1 else 0) values))))

has_key :
    (key d : ℕ) (values : Dict ℕ)
    → contains key (dict_keys values) ≡ true
    → (d == key) ≡ true
    → contains d (dict_keys values) ≡ true
has_key key d values h e = rw ((==_iff d key).0 e) h

base-new_values :
    (s p f c : Bool) (scripts source target : ℕ) (values : Dict ℕ)
    → contains volumes_info (dict_keys values) ≡ true
    → contains export_info (dict_keys values) ≡ true
    → Sub
        (base_fields s p)
        (dict_keys (new_values (deployment_options s p f c) scripts source target values))
base-new_values s p f c scripts source target values h1 h2 d =
    let v = insert clone_disks (if c then 1 else 0) values in
    let w = insert user_scripts scripts v in
    let x = insert source_environment source w in
    let y = insert target_environment target x in
    ground (
      arith,
      contains-set_all d (osmorphing_pool_fields (not s && p)) y,
      contains-insert d target_environment target x,
      contains-insert d source_environment source w,
      contains-insert d user_scripts scripts v,
      contains-insert d clone_disks (if c then 1 else 0) values,
      has_key volumes_info d values h1,
      has_key export_info d values h2,
    )

infos-one :
    (o : DeploymentOptions) (scripts : ℕ → ℕ) (source target i : ℕ) (info : Dict (Dict ℕ))
    (values : Dict ℕ)
    → lookup i info ≡ some values
    → deployment_infos (λ _. o) scripts source target (i ∷ []) info
      ≡ some (insert i (new_values o (scripts i) source target values) info)
unfolding deployment_infos deployment_info
infos-one o scripts source target i info values h =
    ap
      (λ found.
        with_values (deployment_info o (scripts i) source target found)
          (λ new. some (insert i new info)))
      h

-- The execution of a deployment of one instance passes its check, whether OS morphing is skipped
-- or runs on a minion of a pool, whether a flavor is chosen and whether the disks are cloned, when
-- the task info of the transfer has the instance, with the names of its volumes and of the
-- exported instance: the tasks and the new task info are returned. The identifiers are those of a
-- counter.
pub new_deployment_execution-passes :
    (s p f c : Bool) (scripts : ℕ → ℕ) (source target i : ℕ) (info : Dict (Dict ℕ))
    (values : Dict ℕ)
    → lookup i info ≡ some values
    → contains volumes_info (dict_keys values) ≡ true
    → contains export_info (dict_keys values) ≡ true
    → new_deployment_execution
        (λ n. n)
        (λ _. deployment_options s p f c)
        scripts
        source
        target
        (i ∷ [])
        info
      ≡ some (
          passed (
            (run (λ n. n) i (deployment_tasks (deployment_options s p f c)) []).1,
            insert i
                (new_values (deployment_options s p f c) (scripts i) source target values)
                info,
          ))
unfolding new_deployment_execution run_all check_instances
new_deployment_execution-passes s p f c scripts source target i info values h h1 h2 =
    rw
      (
        infos-one (deployment_options s p f c) scripts source target i info values h,
        lookup-insert info i
            (new_values (deployment_options s p f c) (scripts i) source target values) i,
        ==_refl i,
        tasks_for-run (λ n. n) i (deployment_tasks (deployment_options s p f c)) [] refl,
        check_instance-Sub _ _ _ (base-new_values s p f c (scripts i) source target values h1 h2)
            (base_passes i s p f c),
      )
      refl
