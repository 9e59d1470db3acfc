-- ===== src/Common/Config.antt =====
-- src/common/Config.cpp and Config.hpp: the default configuration, a host's own configuration, and
-- their merge. `none` is a thrown exception.
pub mod Laws
use ceph_mesos.Prelude.{
  Bool, List, Option, Text, [], codes, eqb_ℤ, if◌then◌else◌, is_empty, length, none, pos, some,
  take, text_eq, ℤ, ◌++◌, ◌==◌, ◌||◌, ◌∷◌,
}
use ceph_mesos.Common.World.{Document, World}

pub record Config : Type 0 where
  pub id : Text
  pub role : Text
  pub master : Text
  pub zookeeper : Text
  pub restport : ℤ
  pub fileport : ℤ
  pub fileroot : Text
  pub mgmtdev : Text
  pub datadev : Text
  pub osddevs : List Text
  pub jnldevs : List Text
  pub jnlparts : ℤ

abbrev pub host_config_folder : Text
host_config_folder = codes "cephmesos.d"

-- `s` begins with `p`
abbrev pub starts_with : Text → Text → Bool
starts_with s p = text_eq (take (length p) s) p

-- `s.find(p) != npos`
unfoldable pub contains_text : Text → Text → Bool
contains_text [] p = starts_with [] p
contains_text (c ∷ s) p = starts_with (c ∷ s) p || contains_text s p

unfoldable pub is_host_config : Text → Bool
is_host_config filename = contains_text filename host_config_folder

-- `s.substr(0, s.find_last_of('/')) + "/"`, or nothing where `s` has no slash
unfoldable pub directory : Text → Text
directory [] = []
directory (c ∷ s) = elim (directory s) [
  | [] ↦ if c == b'/' then b'/' ∷ [] else []
  | d ∷ ds ↦ c ∷ d ∷ ds
]

abbrev pub or_else {ℓ} : {A : Type ℓ} → Option A → A → A
or_else none a = a
or_else (some b) a = b

abbrev first_nonempty {ℓ} : {A : Type ℓ} → List A → List A → List A
first_nonempty [] ys = ys
first_nonempty (x ∷ xs) ys = x ∷ xs

module _ (w : World) where
  open w use {flags}

  unfoldable pub get_file_contents : Text → Option Text
  get_file_contents filename = elim (w.read_file filename) [
    | some contents ↦ some contents
    | none ↦ if is_host_config filename then some [] else none
  ]

  unfoldable pub get_config_path_by_hostname : Text → Text
  get_config_path_by_hostname hostname =
      directory flags.config ++ host_config_folder ++ codes "/" ++ hostname ++ codes ".yml"

  unfoldable pub config_of_document : Document → Config
  config_of_document d = record {
    id = or_else d.id flags.id;
    role = or_else d.role flags.role;
    master = or_else d.master flags.master;
    zookeeper = or_else d.zookeeper flags.zookeeper;
    restport = or_else d.restport flags.restport;
    fileport = or_else d.fileport flags.fileport;
    fileroot = or_else d.fileroot flags.fileroot;
    mgmtdev = or_else d.mgmtdev [];
    datadev = or_else d.datadev [];
    osddevs = or_else d.osddevs [];
    jnldevs = or_else d.jnldevs [];
    jnlparts = or_else d.jnlparts flags.jnlparts;
  }

  unfoldable pub parse_config_string : Text → Option Config
  parse_config_string input = elim (w.yaml_load input) [
    | none ↦ none
    | some d ↦ some (config_of_document d)
  ]

  unfoldable pub merge_config : Config → Config → Config
  merge_config default host = record {
    id = flags.id;
    role = flags.role;
    master = flags.master;
    zookeeper = flags.zookeeper;
    restport = flags.restport;
    fileport = flags.fileport;
    fileroot = flags.fileroot;
    mgmtdev = first_nonempty host.mgmtdev default.mgmtdev;
    datadev = first_nonempty host.datadev default.datadev;
    osddevs = first_nonempty host.osddevs default.osddevs;
    jnldevs = first_nonempty host.jnldevs default.jnldevs;
    jnlparts = if eqb_ℤ host.jnlparts (pos 4) then default.jnlparts else host.jnlparts;
  }

  -- the file is read, and then parsed
  unfoldable pub load_config : Text → Option Config
  load_config filename = elim (get_file_contents filename) [
    | none ↦ none
    | some contents ↦ parse_config_string contents
  ]

  unfoldable pub get_config_by_hostname : Text → Option Config
  get_config_by_hostname hostname = elim (load_config flags.config) [
    | none ↦ none
    | some default ↦ elim (load_config (get_config_path_by_hostname hostname)) [
      | none ↦ none
      | some host ↦ some (merge_config default host)
    ]
  ]

  unfoldable pub override_by_flags : Config → Config
  override_by_flags c = record {
    id = first_nonempty flags.id c.id;
    role = first_nonempty flags.role c.role;
    master = first_nonempty flags.master c.master;
    zookeeper = first_nonempty flags.zookeeper c.zookeeper;
    restport = if eqb_ℤ flags.restport (pos 0) then c.restport else flags.restport;
    fileport = if eqb_ℤ flags.fileport (pos 0) then c.fileport else flags.fileport;
    fileroot = first_nonempty flags.fileroot c.fileroot;
    mgmtdev = c.mgmtdev;
    datadev = c.datadev;
    osddevs = c.osddevs;
    jnldevs = c.jnldevs;
    jnlparts = if eqb_ℤ flags.jnlparts (pos 4) then c.jnlparts else flags.jnlparts;
  }

  unfoldable pub is_incomplete : Config → Bool
  is_incomplete c =
      is_empty c.id
      || is_empty c.role
      || is_empty c.master
      || is_empty c.zookeeper
      || eqb_ℤ c.restport (pos 0)
      || eqb_ℤ c.fileport (pos 0)
      || is_empty c.fileroot

  -- The flags have been parsed. `none` is the exception for an incomplete configuration, or one
  -- from reading the file.
  unfoldable pub get_config : Option Config
  get_config = elim (load_config flags.config) [
    | none ↦ none
    | some c ↦ if is_incomplete (override_by_flags c) then none else some (override_by_flags c)
  ]
