-- ===== src/Executor/Ceph/Commands.antt =====
-- The shell and docker commands of src/executor/CephExecutor.cpp: the shared configuration directory,
-- and how a container is started.
use ceph_mesos.Prelude.{
  Bool, List, Option, Text, [], codes, if◌then◌else◌, none, some, text_eq, true, ◌++◌, ◌∷◌,
}
use ceph_mesos.Common.StringUtil.{explode}
use ceph_mesos.Common.StringUtil.Cidr.{cast_error, differs, match_ip_to_cidr, matches, out_of_range}
use ceph_mesos.Common.World.{World}
use ceph_mesos.Executor.Ceph.{
  CephExecutor, Handled, ask_shell, config_dir, config_dir_name, finished_with, out_of_vector,
  run_command, uncaught, unfinished, wild_write, ◌>>=◌,
}

unfoldable pub delete_config_dir : CephExecutor → CephExecutor
delete_config_dir e = run_command (codes "rm -rf " ++ config_dir e) e

-- `[ -f file ] && …`
abbrev test_files : List Text → Text
test_files [] = []
test_files (f ∷ []) = codes "[ -f " ++ (f ++ codes " ]")
test_files (f ∷ g ∷ fs) = codes "[ -f " ++ (f ++ (codes " ] && " ++ test_files (g ∷ fs)))

-- The files that every node shares.
abbrev shared_config_files : CephExecutor → List Text
shared_config_files e =
    let pre = config_dir e ++ codes "/etc/ceph/" in
    let pre1 = config_dir e ++ codes "/var/lib/ceph/" in
    (pre ++ codes "ceph.client.admin.keyring")
    ∷ (pre ++ codes "ceph.conf")
    ∷ (pre ++ codes "ceph.mon.keyring")
    ∷ (pre ++ codes "monmap")
    ∷ (pre1 ++ codes "bootstrap-osd/ceph.keyring")
    ∷ (pre1 ++ codes "bootstrap-rgw/ceph.keyring")
    ∷ (pre1 ++ codes "bootstrap-mds/ceph.keyring")
    ∷ []

abbrev pub zero_answer : Text → Bool
zero_answer r = text_eq (codes "0") r

-- `mkdir -p ./… && …` for each directory of the tree.
abbrev make_dirs : List Text → Text → Text
make_dirs [] rest = rest
make_dirs (d ∷ ds) rest = codes "mkdir -p ./" ++ (d ++ (codes " && " ++ make_dirs ds rest))

abbrev config_tree : List Text
config_tree =
    codes "etc/ceph"
    ∷ codes "var/lib/ceph/bootstrap-mds"
    ∷ codes "var/lib/ceph/bootstrap-rgw"
    ∷ codes "var/lib/ceph/bootstrap-osd"
    ∷ codes "var/lib/ceph/mds"
    ∷ codes "var/lib/ceph/osd"
    ∷ codes "var/lib/ceph/mon"
    ∷ codes "var/lib/ceph/radosgw"
    ∷ codes "var/lib/ceph/tmp"
    ∷ []

unfoldable pub make_tree_command : CephExecutor → Text
make_tree_command e =
    codes "cd "
    ++ (e.config_dir_root
        ++ (codes " && mkdir "
            ++ (config_dir_name
                ++ (codes " && cd "
                    ++ (config_dir_name
                        ++ (codes " && "
                            ++ make_dirs config_tree (
                                codes "cd .. && chmod 777 -R "
                                ++ (config_dir_name ++ codes " && echo $?"))))))))

unfoldable pub copy_command : CephExecutor → Text
copy_command e =
    let etc = config_dir e ++ codes "/etc/ceph/" in
    let lib = config_dir e ++ codes "/var/lib/ceph/" in
    codes "cd "
    ++ (e.sandbox
        ++ (codes " && cp ./ceph.client.admin.keyring ./ceph.conf ./ceph.mon.keyring ./monmap "
            ++ (etc
                ++ (codes " && cp ./ceph.keyring.osd "
                    ++ (lib
                        ++ (codes "bootstrap-osd/ceph.keyring && cp ./ceph.keyring.mds "
                            ++ (lib
                                ++ (codes "bootstrap-mds/ceph.keyring && cp ./ceph.keyring.rgw "
                                    ++ (lib ++ codes "bootstrap-rgw/ceph.keyring;echo $?")))))))))

-- The image is the last of a docker command's words.
unfoldable pub construct_osd_command : Text → Text → Text → Text
construct_osd_command dir osd_id container =
    codes "docker run --rm --pid=host --net=host --privileged --name "
    ++ (container
        ++ (codes " -e JOURNAL_DIR=/var/lib/ceph/osd/journal -e OSD_TYPE=directory -v "
            ++ (dir
                ++ (codes "/etc/ceph:/etc/ceph:rw -v "
                    ++ (dir
                        ++ (codes "/var/lib/ceph/bootstrap-osd:/var/lib/ceph/bootstrap-osd:rw -v "
                            ++ (dir
                                ++ (codes "/var/lib/ceph/osd/ceph-"
                                    ++ (osd_id
                                        ++ (codes ":/var/lib/ceph/osd/ceph-"
                                            ++ (osd_id
                                                ++ (codes ":rw -v "
                                                    ++ (dir
                                                        ++ (codes "/var/lib/ceph/osd/jnl-"
                                                            ++ (osd_id
                                                            ++ codes
                                                            ":/var/lib/ceph/osd/journal:rw ceph/daemon osd")))))))))))))))

unfoldable pub construct_radosgw_command : Text → Text → Text
construct_radosgw_command dir container =
    codes "docker run --rm --net=host --privileged --name "
    ++ (container
        ++ (codes " -e RGW_NAME="
            ++ (container
                ++ (codes " -v "
                    ++ (dir
                        ++ (codes "/etc/ceph:/etc/ceph:rw -v "
                            ++ (dir
                                ++ codes
                                    "/var/lib/ceph/bootstrap-rgw:/var/lib/ceph/bootstrap-rgw:rw ceph/daemon rgw")))))))

unfoldable pub mon_command : Text → Text → Text → Text → Text → Text
mon_command dir container ip mgmt_nic data_nic =
    codes "docker run --rm --net=host --privileged --name "
    ++ (container
        ++ (codes " -e MON_IP="
            ++ (ip
                ++ (codes " -e OSD_JOURNAL_SIZE=0 -e CEPH_PUBLIC_NETWORK="
                    ++ (mgmt_nic
                        ++ (codes " -e CEPH_CLUSTER_NETWORK="
                            ++ (data_nic
                                ++ (codes " -v "
                                    ++ (dir
                                        ++ (codes "/etc/ceph:/etc/ceph:rw -v "
                                            ++ (dir
                                                ++ codes
                                                    "/var/lib/ceph:/var/lib/ceph:rw ceph/daemon mon")))))))))))

module _ (w : World) where
  unfoldable pub exists_config_files : CephExecutor → Bool × CephExecutor
  exists_config_files e =
      let (r, e1) = ask_shell w (test_files (shared_config_files e) ++ codes ";echo $?") e in
      (zero_answer r, e1)

  unfoldable pub create_local_shared_config_dir : CephExecutor → Bool × CephExecutor
  unfolding exists_config_files make_tree_command
  create_local_shared_config_dir e =
      let (there, e1) = exists_config_files e in
      let (r, e2) = ask_shell w (make_tree_command e1) e1 in
      if there then (true, e1) else (zero_answer r, e2)

  unfoldable pub copy_shared_config_files : CephExecutor → Bool × CephExecutor
  unfolding copy_command
  copy_shared_config_files e = let (r, e1) = ask_shell w (copy_command e) e in (zero_answer r, e1)

  -- The first of the addresses that matches the block, if one does.
  unfoldable pub find_public : Text → List Text → Handled (Option Text)
  find_public cidr [] = finished_with none
  find_public cidr (ip ∷ ips) = elim (match_ip_to_cidr w ip cidr) [
    | matches ↦ finished_with (some ip)
    | differs ↦ find_public cidr ips
    | cast_error ↦ uncaught
    | out_of_range ↦ out_of_vector
  ]

  unfoldable pub get_public_network_ip : Text → Text → CephExecutor → Handled (Text × CephExecutor)
  unfolding find_public
  get_public_network_ip ips cidr e = elim (find_public cidr (explode ips b' ')) [
    | finished_with (some ip) ↦ finished_with (ip, e)
    | finished_with none ↦ finished_with (ask_shell w (codes "hostname -i") e)
    | uncaught ↦ uncaught
    | out_of_vector ↦ out_of_vector
    | unfinished ↦ unfinished
    | wild_write ↦ wild_write
  ]

  unfoldable pub construct_mon_command : Text → Text → CephExecutor → Handled (Text × CephExecutor)
  unfolding get_public_network_ip mon_command
  construct_mon_command dir container e0 = do
    let (ips, e1) = ask_shell w (codes "hostname -I") e0
    (ip, e2) ← get_public_network_ip ips e1.mgmt_nic e1
    finished_with (mon_command dir container ip e2.mgmt_nic e2.data_nic, e2)
