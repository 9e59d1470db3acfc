-- ===== src/Common/Config/Laws.antt =====
-- What `ConfigFactory` of src/common/Config.cpp promises: a complete configuration in which the
-- flags come first, and for a host without a file of its own the default devices.
use ceph_mesos.Prelude.{
  Bool-cases, Option-cases, Text, [], ap, append_assoc, arith, codes, eqb_ℤ, false, if◌then◌else◌,
  inl, inr, length, none, pos, refl, some, subst, take, text_eq_refl, true, ◌++◌, ◌∷◌, ◌≡◌, ◌≢◌,
}
use ceph_mesos.Common.Config.{
  Config, config_of_document, contains_text, directory, get_config, get_config_by_hostname,
  get_config_path_by_hostname, get_file_contents, host_config_folder, is_host_config, is_incomplete,
  load_config, merge_config, override_by_flags, parse_config_string, starts_with,
}
use ceph_mesos.Common.World.{Document, World}

take-append : (p y : Text) → take (length p) (p ++ y) ≡ p
take-append [] y = refl
take-append (c ∷ p) y = ap (◌∷◌ c) (take-append p y)

contains_text-start : (s p : Text) → starts_with s p ≡ true → contains_text s p ≡ true
unfolding contains_text
contains_text-start [] p h = h
contains_text-start (c ∷ s) p h = ground arith

starts_with-append : (p y : Text) → starts_with (p ++ y) p ≡ true
starts_with-append p y = rw (take-append p y) (text_eq_refl p)

-- A text holds what stands in it.
contains_text-middle : (x p y : Text) → contains_text (x ++ (p ++ y)) p ≡ true
unfolding contains_text
contains_text-middle [] p y = contains_text-start (p ++ y) p (starts_with-append p y)
contains_text-middle (c ∷ x) p y = ground (arith, contains_text-middle x p y)

-- What an empty document says of the devices.
pub record HasNoDevices (d : Document) : Type 0 where
  pub mgmtdev : d.mgmtdev ≡ none
  pub datadev : d.datadev ≡ none
  pub osddevs : d.osddevs ≡ none
  pub jnldevs : d.jnldevs ≡ none
  pub jnlparts : d.jnlparts ≡ none

-- A configuration with its devices kept, and the flags for all else.
abbrev pub with_flags : World → Config → Config
with_flags w c = record {
  id = w.flags.id;
  role = w.flags.role;
  master = w.flags.master;
  zookeeper = w.flags.zookeeper;
  restport = w.flags.restport;
  fileport = w.flags.fileport;
  fileroot = w.flags.fileroot;
  mgmtdev = c.mgmtdev;
  datadev = c.datadev;
  osddevs = c.osddevs;
  jnldevs = c.jnldevs;
  jnlparts = if eqb_ℤ w.flags.jnlparts (pos 4) then c.jnlparts else w.flags.jnlparts;
}

module _ (w : World) where
  -- The path of a host's file is one of those whose absence is no error.
  host_path-is_host_config :
      (host : Text) → is_host_config (get_config_path_by_hostname w host) ≡ true
  unfolding is_host_config get_config_path_by_hostname
  host_path-is_host_config host =
      subst (λ t. contains_text t host_config_folder ≡ true) (simp append_assoc)
        (contains_text-middle (directory w.flags.config) host_config_folder
          (codes "/" ++ host ++ codes ".yml"))

  -- The file of a host that has none.
  no_host_file :
      (host : Text)
      → w.read_file (get_config_path_by_hostname w host) ≡ none
      → get_file_contents w (get_config_path_by_hostname w host) ≡ some []
  unfolding get_file_contents
  no_host_file host h = rw (h, get_file_contents) (rw (host_path-is_host_config host) refl)

  load_no_host_file :
      (host : Text) (d : Document)
      → w.read_file (get_config_path_by_hostname w host) ≡ none
      → w.yaml_load [] ≡ some d
      → load_config w (get_config_path_by_hostname w host) ≡ some (config_of_document w d)
  unfolding load_config parse_config_string
  load_no_host_file host d h e =
      rw (no_host_file host h, load_config) (rw (e, parse_config_string) refl)

  merge-empty :
      (default : Config) (d : Document)
      → HasNoDevices d
      → merge_config w default (config_of_document w d) ≡ with_flags w default
  unfolding merge_config config_of_document
  merge-empty default d n = rw (n.mgmtdev, n.datadev, n.osddevs, n.jnldevs, n.jnlparts) refl

-- A host without a file of its own gets the devices of the default configuration, and the flags for
-- all else; its number of journal partitions is the flag's, or the default configuration's where the
-- flag is 4.
pub host_without_file :
    (w : World) (host : Text) (default : Config) (d : Document)
    → load_config w w.flags.config ≡ some default
    → w.read_file (get_config_path_by_hostname w host) ≡ none
    → w.yaml_load [] ≡ some d
    → HasNoDevices d
    → get_config_by_hostname w host ≡ some (with_flags w default)
unfolding get_config_by_hostname
host_without_file w host default d h absent empty n =
    rw (h, load_no_host_file w host d absent empty, get_config_by_hostname)
      (ap some (merge-empty w default d n))

-- No setting that the scheduler needs is missing.
pub record IsComplete (c : Config) : Type 0 where
  pub id : c.id ≢ []
  pub role : c.role ≢ []
  pub master : c.master ≢ []
  pub zookeeper : c.zookeeper ≢ []
  pub restport : c.restport ≢ pos 0
  pub fileport : c.fileport ≢ pos 0
  pub fileroot : c.fileroot ≢ []

is_incomplete-IsComplete : (w : World) (c : Config) → is_incomplete w c ≡ false → IsComplete c
unfolding is_incomplete
is_incomplete-IsComplete w c h = record {
  id = λ e. ground arith;
  role = λ e. ground arith;
  master = λ e. ground arith;
  zookeeper = λ e. ground arith;
  restport = λ e. ground arith;
  fileport = λ e. ground arith;
  fileroot = λ e. ground arith;
}

-- A configuration that the scheduler gets is the file's, overridden by the flags, and nothing that it
-- needs is missing in it.
pub get_config-IsComplete :
    (w : World) (c : Config)
    → get_config w ≡ some c
    → (f : Config) × (load_config w w.flags.config ≡ some f)
      × (c ≡ override_by_flags w f)
      × IsComplete c
unfolding get_config
get_config-IsComplete w c h = elim (Option-cases (load_config w w.flags.config)) [
  | inl e ↦ absurd (ground arith)
  | inr (f, e) ↦ elim (Bool-cases (is_incomplete w (override_by_flags w f))) [
    | inl bad ↦ absurd (ground arith)
    | inr good ↦
        (f, e, ground arith, subst IsComplete (ground arith) (is_incomplete-IsComplete w _ good))
  ]
]
