-- ===== src/Construction/Graphs.antt =====
-- The code that makes the tasks of the executions is closed.
use cloudshift.Prelude.{Bool, true, false, []}
use cloudshift.Construction.Ordered.{Closed}
use cloudshift.Construction.Transfer.{transfer_tasks}
use cloudshift.Construction.Deployment.{deployment_tasks}
use cloudshift.Construction.Updates.{delete_disks_tasks, update_tasks}
use mathlib.Core.List.Memᴰ

pub transfer_tasks-Closed :
    (o p s : Bool)
    → Closed [] (
        transfer_tasks
          (record { origin_minion_pool = o; destination_minion_pool = p; shutdown_instances = s }))
unfolding transfer_tasks Closed
transfer_tasks-Closed true true true = search (Memᴰ.head, Memᴰ.tail) depth 40 fits 4000
transfer_tasks-Closed true true false = search (Memᴰ.head, Memᴰ.tail) depth 40 fits 4000
transfer_tasks-Closed true false true = search (Memᴰ.head, Memᴰ.tail) depth 40 fits 4000
transfer_tasks-Closed true false false = search (Memᴰ.head, Memᴰ.tail) depth 40 fits 4000
transfer_tasks-Closed false true true = search (Memᴰ.head, Memᴰ.tail) depth 40 fits 4000
transfer_tasks-Closed false true false = search (Memᴰ.head, Memᴰ.tail) depth 40 fits 4000
transfer_tasks-Closed false false true = search (Memᴰ.head, Memᴰ.tail) depth 40 fits 4000
transfer_tasks-Closed false false false = search (Memᴰ.head, Memᴰ.tail) depth 40 fits 4000

pub deployment_tasks-Closed :
    (s p f c : Bool)
    → Closed [] (
        deployment_tasks (record {
          skip_os_morphing = s;
          osmorphing_minion_pool = p;
          instance_flavor = f;
          clones_disks = c;
        }))
unfolding deployment_tasks Closed
deployment_tasks-Closed true true true true = search (Memᴰ.head, Memᴰ.tail) depth 40 fits 4000
deployment_tasks-Closed true true true false = search (Memᴰ.head, Memᴰ.tail) depth 40 fits 4000
deployment_tasks-Closed true true false true = search (Memᴰ.head, Memᴰ.tail) depth 40 fits 4000
deployment_tasks-Closed true true false false = search (Memᴰ.head, Memᴰ.tail) depth 40 fits 4000
deployment_tasks-Closed true false true true = search (Memᴰ.head, Memᴰ.tail) depth 40 fits 4000
deployment_tasks-Closed true false true false = search (Memᴰ.head, Memᴰ.tail) depth 40 fits 4000
deployment_tasks-Closed true false false true = search (Memᴰ.head, Memᴰ.tail) depth 40 fits 4000
deployment_tasks-Closed true false false false = search (Memᴰ.head, Memᴰ.tail) depth 40 fits 4000
deployment_tasks-Closed false true true true = search (Memᴰ.head, Memᴰ.tail) depth 40 fits 4000
deployment_tasks-Closed false true true false = search (Memᴰ.head, Memᴰ.tail) depth 40 fits 4000
deployment_tasks-Closed false true false true = search (Memᴰ.head, Memᴰ.tail) depth 40 fits 4000
deployment_tasks-Closed false true false false = search (Memᴰ.head, Memᴰ.tail) depth 40 fits 4000
deployment_tasks-Closed false false true true = search (Memᴰ.head, Memᴰ.tail) depth 40 fits 4000
deployment_tasks-Closed false false true false = search (Memᴰ.head, Memᴰ.tail) depth 40 fits 4000
deployment_tasks-Closed false false false true = search (Memᴰ.head, Memᴰ.tail) depth 40 fits 4000
deployment_tasks-Closed false false false false = search (Memᴰ.head, Memᴰ.tail) depth 40 fits 4000

pub delete_disks_tasks-Closed : (b : Bool) → Closed [] (delete_disks_tasks b)
unfolding delete_disks_tasks Closed
delete_disks_tasks-Closed true = search (Memᴰ.head, Memᴰ.tail) depth 40 fits 4000
delete_disks_tasks-Closed false = tt

pub update_tasks-Closed : Closed [] update_tasks
unfolding update_tasks Closed
update_tasks-Closed = search (Memᴰ.head, Memᴰ.tail) depth 40 fits 4000
