-- ===== src/Examples/Site.antt =====
-- The world of the examples.
use ceph_mesos.Prelude.{
  List, Option, Text, [], codes, if◌then◌else◌, leb, none, pos, some, text_eq, ℕ, ◌&&◌, ◌+◌, ◌∷◌,
}
use ceph_mesos.Common.Config.{Config, config_of_document, override_by_flags}
use ceph_mesos.Common.World.{Document, Flags, IsLexical, Resource, World}
use ceph_mesos.Examples.Tally.{
  parse-print_tally, parse_tally, print_tally, print_tally-Lacks, print_tally-ne-nil,
}

abbrev site_flags : Flags
site_flags = record {
  config = codes "/etc/cephmesos.yml";
  id = codes "ceph";
  role = codes "storage";
  master = codes "master:5050";
  zookeeper = codes "zk://master:2181/mesos";
  restport = pos 8889;
  fileport = pos 8888;
  jnlparts = pos 4;
  fileroot = codes "./";
}

abbrev pub empty_document : Document
empty_document = record {
  id = none;
  role = none;
  master = none;
  zookeeper = none;
  restport = none;
  fileport = none;
  fileroot = none;
  mgmtdev = none;
  datadev = none;
  osddevs = none;
  jnldevs = none;
  jnlparts = none;
}

-- The document of the default configuration.
abbrev pub site_document : Document
site_document = record empty_document {
  mgmtdev = some (codes "10.0.0.0/8");
  datadev = some (codes "10.0.0.0/8");
  osddevs = some (codes "sdb" ∷ []);
  jnldevs = some (codes "sdc" ∷ []);
  jnlparts = some (pos 2);
}

abbrev read_site_file : Text → Option Text
read_site_file name = if text_eq name site_flags.config then some (codes "osddevs: [sdb]") else none

abbrev load_site_document : Text → Option Document
load_site_document [] = some empty_document
load_site_document (c ∷ s) = some site_document

-- The amount of a resource with the role and the name.
abbrev amount_of : Text → Text → List Resource → ℕ
amount_of role name [] = 0
amount_of role name (r ∷ rs) =
    (if text_eq r.role role && text_eq r.name name then r.amount else 0) + amount_of role name rs

abbrev pub site : World
site = record {
  print_int = print_tally;
  parse_int = parse_tally;
  flags = site_flags;
  read_file = read_site_file;
  yaml_load = load_site_document;
  has_resources = λ rs role cpus mem.
      leb cpus (amount_of role (codes "cpus") rs) && leb mem (amount_of role (codes "mem") rs);
  time = λ n. pos n;
  local_ip = codes "10.0.0.1";
  popen = λ before cmd. some (codes "+1");
  indeterminate = pos 0;
}

pub site-IsLexical : IsLexical site
site-IsLexical = record {
  parse-print = parse-print_tally;
  print-ne-nil = print_tally-ne-nil;
  print-Lacks = print_tally-Lacks;
}

abbrev pub site_config : Config
site_config = override_by_flags site (config_of_document site site_document)
