-- ===== src/Examples/Ids.antt =====
-- A short run in which an OSD id arrives.
use ceph_mesos.Prelude.{List, [], pos, refl, text_eq, ◌+◌, ◌∷◌, ◌≡◌}
use ceph_mesos.Examples.Site.{site, site-IsLexical, site_config}
use ceph_mesos.Scheduler.Agent.{new_agent}
use ceph_mesos.Scheduler.Agent.Ids.{given_ids, id_count}
use ceph_mesos.Scheduler.Agent.Ids.Always.{received_ids, run_ids, run_ids-given}
use ceph_mesos.Scheduler.Agent.Offers.{resource_offers}
use ceph_mesos.Scheduler.Agent.Runs.{Callback, Leaves, handle, on_message, on_offers, run}
use ceph_mesos.Scheduler.Agent.Updates.{framework_message}
use ceph_mesos.State.StateMachine.{get_initial_mon, init}

abbrev short_run : List Callback
short_run = on_message [] (site.print_int (pos 7)) ∷ on_offers [] ∷ []

run_ids-given_example :
    Leaves
      (λ b.
        id_count (pos 7) (given_ids site b.calls) + id_count (pos 7) b.machine.pending_osdid
        ≡ id_count (pos 7) (run_ids site short_run (new_agent site site_config)))
      (run site short_run (new_agent site site_config))
run_ids-given_example = run_ids-given site site-IsLexical site_config short_run (pos 7)

-- The id is among those of the run.
one_id_arrives : id_count (pos 7) (run_ids site short_run (new_agent site site_config)) ≡ 1
unfolding text_eq run_ids received_ids get_initial_mon new_agent init handle framework_message
    resource_offers
one_id_arrives = refl
