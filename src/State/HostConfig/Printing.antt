-- ===== src/State/HostConfig/Printing.antt =====
-- `toString` of src/state/HostConfig.hpp, which src/state/StateMachine.cpp logs for a host it adds.
use ceph_mesos.Prelude.{List, Text, [], codes, refl, ◌++◌, ◌∷◌, ◌≡◌}
use ceph_mesos.State.HostConfig.{HostConfig}

unfoldable pub mgmt_dev : HostConfig → Text
mgmt_dev hc = hc.original_config.mgmtdev

unfoldable pub data_dev : HostConfig → Text
data_dev hc = hc.original_config.datadev

-- One of the loops: the text so far, and the names still to be written behind it.
unfoldable pub write_devs : Text → List Text → Text
write_devs written [] = written
write_devs written (dev ∷ devs) = write_devs (written ++ dev ++ codes ",") devs

-- The journal loops write to the OSD text as well, and the text of the journals stays empty.
unfoldable pub to_string : HostConfig → Text
unfolding write_devs mgmt_dev data_dev
to_string hc =
    let osds = write_devs [] hc.pending_osd_devs in
    let osds_and_jnls = write_devs osds hc.pending_jnl_devs in
    let osd_parts = write_devs [] hc.osd_partitions in
    let all_parts = write_devs osd_parts hc.jnl_partitions in
    codes "hostname:"
    ++ hc.hostname
    ++ codes "; mgmtdev: "
    ++ mgmt_dev hc
    ++ codes "; datadev: "
    ++ data_dev hc
    ++ codes "; pendingosdsdev: "
    ++ osds_and_jnls
    ++ codes " pendingjnldev: "
    ++ codes "; osdPartitions: "
    ++ all_parts
    ++ codes " jnlPartitions: "

write_devs-append :
    (written : Text) (devs more : List Text)
    → write_devs (write_devs written devs) more ≡ write_devs written (devs ++ more)
unfolding write_devs
write_devs-append written [] more = refl
write_devs-append written (dev ∷ devs) more =
    write_devs-append (written ++ dev ++ codes ",") devs more

-- A host is printed like the host that has its journal devices and journal partitions among its OSD ones:
-- the line does not tell them apart, and names none as a journal's.
pub to_string-merged :
    (hc : HostConfig)
    → to_string hc
      ≡ to_string (record hc {
        pending_osd_devs = hc.pending_osd_devs ++ hc.pending_jnl_devs;
        pending_jnl_devs = [];
        osd_partitions = hc.osd_partitions ++ hc.jnl_partitions;
        jnl_partitions = [];
      })
unfolding to_string write_devs mgmt_dev data_dev
to_string-merged hc = rw (write_devs-append, write_devs-append) refl
