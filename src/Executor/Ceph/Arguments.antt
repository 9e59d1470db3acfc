-- ===== src/Executor/Ceph/Arguments.antt =====
-- The arguments that docker is started with.
use ceph_mesos.Prelude.{
  All, List, Text, [], ap, append_assoc, arith, codes, refl, ℕ, ◌++◌, ◌∙◌, ◌∷◌, ◌≡◌, ◌≢◌,
}
use ceph_mesos.Common.StringUtil.{explode_args}
use ceph_mesos.Common.StringUtil.Explode.{join}
use ceph_mesos.Common.StringUtil.Words.{
  All-of_Words, IsWord, IsWord-append, Words, explode_args-join, literals, no_words, one_more,
  value, word,
}
use ceph_mesos.Executor.Ceph.Commands.{
  construct_osd_command, construct_radosgw_command, mon_command,
}

abbrev pub osd_arguments : Text → Text → Text → List Text
osd_arguments dir osd_id container =
    codes "docker"
    ∷ codes "run"
    ∷ codes "--rm"
    ∷ codes "--pid=host"
    ∷ codes "--net=host"
    ∷ codes "--privileged"
    ∷ codes "--name"
    ∷ container
    ∷ codes "-e"
    ∷ codes "JOURNAL_DIR=/var/lib/ceph/osd/journal"
    ∷ codes "-e"
    ∷ codes "OSD_TYPE=directory"
    ∷ codes "-v"
    ∷ (dir ++ codes "/etc/ceph:/etc/ceph:rw")
    ∷ codes "-v"
    ∷ (dir ++ codes "/var/lib/ceph/bootstrap-osd:/var/lib/ceph/bootstrap-osd:rw")
    ∷ codes "-v"
    ∷ (dir
        ++ (codes "/var/lib/ceph/osd/ceph-"
            ++ (osd_id ++ (codes ":/var/lib/ceph/osd/ceph-" ++ (osd_id ++ codes ":rw")))))
    ∷ codes "-v"
    ∷ (dir ++ (codes "/var/lib/ceph/osd/jnl-" ++ (osd_id ++ codes ":/var/lib/ceph/osd/journal:rw")))
    ∷ codes "ceph/daemon"
    ∷ codes "osd"
    ∷ []

osd_command-join :
    (dir osd_id container : Text)
    → construct_osd_command dir osd_id container ≡ join b' ' (osd_arguments dir osd_id container)
unfolding construct_osd_command join
osd_command-join dir osd_id container = simp append_assoc refl

abbrev pub radosgw_arguments : Text → Text → List Text
radosgw_arguments dir container =
    codes "docker"
    ∷ codes "run"
    ∷ codes "--rm"
    ∷ codes "--net=host"
    ∷ codes "--privileged"
    ∷ codes "--name"
    ∷ container
    ∷ codes "-e"
    ∷ (codes "RGW_NAME=" ++ container)
    ∷ codes "-v"
    ∷ (dir ++ codes "/etc/ceph:/etc/ceph:rw")
    ∷ codes "-v"
    ∷ (dir ++ codes "/var/lib/ceph/bootstrap-rgw:/var/lib/ceph/bootstrap-rgw:rw")
    ∷ codes "ceph/daemon"
    ∷ codes "rgw"
    ∷ []

radosgw_command-join :
    (dir container : Text)
    → construct_radosgw_command dir container ≡ join b' ' (radosgw_arguments dir container)
unfolding construct_radosgw_command join
radosgw_command-join dir container = simp append_assoc refl

abbrev pub mon_arguments : Text → Text → Text → Text → Text → List Text
mon_arguments dir container ip mgmt_nic data_nic =
    codes "docker"
    ∷ codes "run"
    ∷ codes "--rm"
    ∷ codes "--net=host"
    ∷ codes "--privileged"
    ∷ codes "--name"
    ∷ container
    ∷ codes "-e"
    ∷ (codes "MON_IP=" ++ ip)
    ∷ codes "-e"
    ∷ codes "OSD_JOURNAL_SIZE=0"
    ∷ codes "-e"
    ∷ (codes "CEPH_PUBLIC_NETWORK=" ++ mgmt_nic)
    ∷ codes "-e"
    ∷ (codes "CEPH_CLUSTER_NETWORK=" ++ data_nic)
    ∷ codes "-v"
    ∷ (dir ++ codes "/etc/ceph:/etc/ceph:rw")
    ∷ codes "-v"
    ∷ (dir ++ codes "/var/lib/ceph:/var/lib/ceph:rw")
    ∷ codes "ceph/daemon"
    ∷ codes "mon"
    ∷ []

mon_command-join :
    (dir container ip mgmt_nic data_nic : Text)
    → mon_command dir container ip mgmt_nic data_nic
      ≡ join b' ' (mon_arguments dir container ip mgmt_nic data_nic)
unfolding mon_command join
mon_command-join dir container ip mgmt_nic data_nic = simp append_assoc refl

literal-ne-nil : (c : ℕ) (s : Text) → c ∷ s ≢ []
literal-ne-nil c s h = ground arith

ceph_volume :
    (osd_id : Text)
    → IsWord osd_id
    → IsWord (
        codes "/var/lib/ceph/osd/ceph-"
        ++ (osd_id ++ (codes ":/var/lib/ceph/osd/ceph-" ++ (osd_id ++ codes ":rw"))))
ceph_volume osd_id i = value (codes "/var/lib/ceph/osd/ceph-") _ refl refl (
    IsWord-append osd_id _ i (
      value (codes ":/var/lib/ceph/osd/ceph-") _ refl refl
        (IsWord-append osd_id _ i (word (codes ":rw") refl refl))))

jnl_volume :
    (osd_id : Text)
    → IsWord osd_id
    → IsWord (codes "/var/lib/ceph/osd/jnl-" ++ (osd_id ++ codes ":/var/lib/ceph/osd/journal:rw"))
jnl_volume osd_id i =
    value (codes "/var/lib/ceph/osd/jnl-") _ refl refl
      (IsWord-append osd_id _ i (word (codes ":/var/lib/ceph/osd/journal:rw") refl refl))

module _ (dir container : Text) (d : IsWord dir) (c : IsWord container) where
  -- A directory of the host's, made to be one of the container's.
  volume : (s : Text) → IsWord s → IsWord (dir ++ s)
  volume s h = IsWord-append dir s d h

  osd_arguments-Words : (osd_id : Text) → IsWord osd_id → Words (osd_arguments dir osd_id container)
  osd_arguments-Words osd_id i = literals 7 refl (
      one_more c (
        literals 5 refl (
          one_more (volume _ (word _ refl refl)) (
            literals 1 refl (
              one_more (volume _ (word _ refl refl)) (
                literals 1 refl (
                  one_more (volume _ (ceph_volume osd_id i)) (
                    literals 1 refl
                      (one_more (volume _ (jnl_volume osd_id i)) (literals 2 refl no_words))))))))))

  radosgw_arguments-Words : Words (radosgw_arguments dir container)
  radosgw_arguments-Words = literals 6 refl (
      one_more c (
        literals 1 refl (
          one_more (value (codes "RGW_NAME=") container refl refl c) (
            literals 1 refl (
              one_more (volume _ (word _ refl refl)) (
                literals 1 refl
                  (one_more (volume _ (word _ refl refl)) (literals 2 refl no_words))))))))

  mon_arguments-Words :
      (ip mgmt_nic data_nic : Text)
      → IsWord ip
      → IsWord mgmt_nic
      → IsWord data_nic
      → Words (mon_arguments dir container ip mgmt_nic data_nic)
  mon_arguments-Words ip mgmt_nic data_nic i m n = literals 6 refl (
      one_more c (
        literals 1 refl (
          one_more (value (codes "MON_IP=") ip refl refl i) (
            literals 3 refl (
              one_more (value (codes "CEPH_PUBLIC_NETWORK=") mgmt_nic refl refl m) (
                literals 1 refl (
                  one_more (value (codes "CEPH_CLUSTER_NETWORK=") data_nic refl refl n) (
                    literals 1 refl (
                      one_more (volume _ (word _ refl refl)) (
                        literals 1 refl (
                          one_more (volume _ (word _ refl refl))
                            (literals 2 refl no_words))))))))))))

-- Where the directory, the names, the OSD id and the addresses hold neither blanks nor zero bytes,
-- splitting each docker command at its blanks gives docker exactly the intended arguments: those of an
-- OSD, of a RADOSGW and of a MON, with every value an argument, or part of one, of its own.
pub docker_arguments :
    (dir container osd_id ip mgmt_nic data_nic : Text)
    → All IsWord (dir ∷ container ∷ osd_id ∷ ip ∷ mgmt_nic ∷ data_nic ∷ [])
    → (explode_args (construct_osd_command dir osd_id container) b' '
        ≡ osd_arguments dir osd_id container)
      × (explode_args (construct_radosgw_command dir container) b' '
          ≡ radosgw_arguments dir container)
      × (explode_args (mon_command dir container ip mgmt_nic data_nic) b' '
          ≡ mon_arguments dir container ip mgmt_nic data_nic)
docker_arguments dir container osd_id ip mgmt_nic data_nic (d, (c, (o, (i, (m, (n, end)))))) = (
  ap (λ cmd. explode_args cmd b' ') (osd_command-join dir osd_id container)
      ∙ explode_args-join _ (All-of_Words (osd_arguments-Words dir container d c osd_id o))
          (literal-ne-nil _ _),
  ap (λ cmd. explode_args cmd b' ') (radosgw_command-join dir container)
      ∙ explode_args-join _ (All-of_Words (radosgw_arguments-Words dir container d c))
          (literal-ne-nil _ _),
  ap (λ cmd. explode_args cmd b' ') (mon_command-join dir container ip mgmt_nic data_nic)
      ∙ explode_args-join _
          (All-of_Words (mon_arguments-Words dir container d c ip mgmt_nic data_nic i m n))
          (literal-ne-nil _ _),
)
