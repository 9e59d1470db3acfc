-- ===== src/Examples/Offers.antt =====
-- Offers and requests in the site of the examples.
use mathlib.Core.List.{zip, reverse}
use ceph_mesos.Prelude.{
  All, Bool, Text, [], codes, false, find, insert, map, none, pos, refl, some, text_eq, true, ℕ,
  ◌++◌, ◌∷◌, ◌≡◌,
}
use ceph_mesos.Common.Config.{
  Config, config_of_document, contains_text, directory, get_config_by_hostname,
  get_config_path_by_hostname, get_file_contents, is_host_config, load_config, merge_config,
  override_by_flags, parse_config_string,
}
use ceph_mesos.Common.TaskType.{osd}
use ceph_mesos.Examples.Site.{empty_document, site, site_config, site_document}
use ceph_mesos.Scheduler.Agent.{
  Agent, handle_waiting_osd_tasks, has_role, new_agent, offer_not_enough_resources, with_machine,
}
use ceph_mesos.Scheduler.Agent.Answers.{
  Answers, built_disk_task, disk_offer_declined, handle_offer-Answers,
}
use ceph_mesos.Scheduler.Agent.Assign.{
  assigned_call, handle_waiting_osd_tasks_lem, leftover, start_all,
}
use ceph_mesos.Scheduler.Agent.Bounds.{IsBounded}
use ceph_mesos.Scheduler.Agent.Bounds.Always.{run-IsBounded}
use ceph_mesos.Scheduler.Agent.InitialMon.{NotInitial}
use ceph_mesos.Scheduler.Agent.InitialMon.Lost.{ScarceOffer, initial_mon_lost}
use ceph_mesos.Scheduler.Agent.Launch.{wants_disk_task}
use ceph_mesos.Scheduler.Agent.Offers.{handle_offer, handle_offer_uses, use_offer}
use ceph_mesos.Scheduler.Agent.Runs.{Leaves, on_offers, on_request, run}
use ceph_mesos.Scheduler.Driver.{Offer, decline_offer, launch_tasks}
use ceph_mesos.State.HostConfig.{
  have_pending_jnl_devs, have_pending_osd_devs, host_config_of, new_host_config,
}
use ceph_mesos.State.StateMachine.{StateMachine, add_config, get_config, get_waiting_osd_task, init}
use ceph_mesos.State.TaskState.{bootstrap_mon, waiting_osdid}

abbrev offer_of : Text → ℕ → Offer
offer_of host mem = record {
  id = codes "offer";
  hostname = host;
  slave_id = codes "s1";
  resources =
      record { name = codes "cpus"; role = codes "storage"; amount = 4000 }
      ∷ record { name = codes "mem"; role = codes "storage"; amount = mem }
      ∷ [];
}

-- Half of the memory that a task needs, and four times as much.
abbrev small_offer : Offer
small_offer = offer_of (codes "node1") 512000

abbrev large_offer : Offer
large_offer = offer_of (codes "node1") 4096000

abbrev fresh_agent : Agent
fresh_agent = new_agent site site_config

-- The machine after `addConfig` has read the configuration of the host.
abbrev known_machine : StateMachine
known_machine = record (init site site_config) {
  host_config_map = (codes "node1", host_config_of (codes "node1") known_config) ∷ [];
}
  where
    known_config : Config
    known_config =
        merge_config site (config_of_document site site_document)
          (config_of_document site empty_document)

known_machine-added : add_config site (codes "node1") fresh_agent.machine ≡ some known_machine
unfolding new_agent add_config new_host_config get_config_by_hostname load_config get_file_contents
    parse_config_string is_host_config contains_text get_config_path_by_hostname directory find
    insert text_eq init
known_machine-added = refl

run-IsBounded_example :
    Leaves
      (λ a. IsBounded a.machine)
      (run site
        (on_offers (large_offer ∷ small_offer ∷ []) ∷ on_request none ∷ [])
        (new_agent site site_config))
run-IsBounded_example =
    run-IsBounded site site_config
      (on_offers (large_offer ∷ small_offer ∷ []) ∷ on_request none ∷ [])

ours : has_role large_offer.resources fresh_agent.config.role ≡ true
unfolding has_role new_agent text_eq override_by_flags
ours = refl

wants :
    wants_disk_task site
      (with_machine known_machine fresh_agent)
      large_offer
      (get_config (codes "node1") known_machine)
    ≡ true
unfolding wants_disk_task offer_not_enough_resources get_config find text_eq have_pending_osd_devs
    have_pending_jnl_devs new_agent host_config_of merge_config config_of_document override_by_flags
wants = refl

disk_offer_declined_example :
    (r : Agent × Bool) × (handle_offer site bootstrap_mon large_offer false fresh_agent ≡ some r)
    × (r.0.calls
        ≡ fresh_agent.calls
          ++ launch_tasks
              (codes "offer")
              (built_disk_task site large_offer (with_machine known_machine fresh_agent) ∷ [])
            ∷ decline_offer (codes "offer") none
            ∷ [])
disk_offer_declined_example =
    disk_offer_declined site bootstrap_mon large_offer false fresh_agent known_machine ours
      known_machine-added wants

abbrev used : Agent × Bool
used = use_offer site bootstrap_mon large_offer false (with_machine known_machine fresh_agent)

handle_offer-Answers_example : Answers large_offer fresh_agent used.0
handle_offer-Answers_example =
    handle_offer-Answers site bootstrap_mon large_offer false fresh_agent used (
      handle_offer_uses site bootstrap_mon large_offer false fresh_agent known_machine ours
        known_machine-added)

small_offer-ScarceOffer : ScarceOffer site small_offer fresh_agent known_machine
unfolding has_role new_agent text_eq get_config find offer_not_enough_resources host_config_of
    override_by_flags
small_offer-ScarceOffer = record {
  ours = refl;
  added = known_machine-added;
  idle = refl;
  scarce = refl;
}

initial_mon_lost_example :
    Leaves
      (λ a. All (NotInitial site) a.calls)
      (run site
        (on_offers (small_offer ∷ []) ∷ on_offers (large_offer ∷ []) ∷ [])
        (new_agent site site_config))
initial_mon_lost_example =
    initial_mon_lost site site_config small_offer known_machine (on_offers (large_offer ∷ []) ∷ [])
      small_offer-ScarceOffer

-- One OSD waits, and two ids are known.
abbrev waiting_agent : Agent
waiting_agent = record fresh_agent {
  machine = record (init site site_config) {
    task_map =
        (
          codes "osd.0",
          record {
            task_id = codes "osd.0";
            executor_id = codes "e1";
            task_type = osd;
            host_name = codes "node1";
            slave_id = codes "s1";
            current_status = waiting_osdid;
          },
        )
        ∷ [];
    pending_osdid = pos 0 ∷ pos 1 ∷ [];
  };
}

handle_waiting_osd_tasks_lem_example :
    let ts = get_waiting_osd_task waiting_agent.machine in
    let ids = reverse waiting_agent.machine.pending_osdid in
    let b = handle_waiting_osd_tasks site waiting_agent in
    (b.calls ≡ waiting_agent.calls ++ map (assigned_call site) (zip ts ids))
    × (b.machine.pending_osdid ≡ reverse (leftover ts ids))
    × (b.machine.task_map ≡ start_all (zip ts ids) waiting_agent.machine.task_map)
handle_waiting_osd_tasks_lem_example = handle_waiting_osd_tasks_lem site waiting_agent
