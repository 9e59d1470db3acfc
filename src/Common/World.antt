-- ===== src/Common/World.antt =====
-- What the scheduler calls and this repository does not implement: boost::lexical_cast, the
-- command-line flags (gflags), yaml-cpp, the file system, Mesos' resource arithmetic, the clock and
-- the host's address. `none` stands for a thrown exception, or for a file that cannot be opened.
use ceph_mesos.Prelude.{Bool, Lacks, List, Option, Text, [], some, ℕ, ℤ, ◌≡◌, ◌≢◌}

-- The values of the flags that src/common/Config.cpp defines.
pub record Flags : Type 0 where
  pub config : Text
  pub id : Text
  pub role : Text
  pub master : Text
  pub zookeeper : Text
  pub restport : ℤ
  pub fileport : ℤ
  pub jnlparts : ℤ
  pub fileroot : Text

-- What `YAML::Load` and the conversions `as<…>` give for the keys that the program asks for;
-- `none` is a key that the document lacks.
pub record Document : Type 0 where
  pub id : Option Text
  pub role : Option Text
  pub master : Option Text
  pub zookeeper : Option Text
  pub restport : Option ℤ
  pub fileport : Option ℤ
  pub fileroot : Option Text
  pub mgmtdev : Option Text
  pub datadev : Option Text
  pub osddevs : Option (List Text)
  pub jnldevs : Option (List Text)
  pub jnlparts : Option ℤ

-- A Mesos scalar resource: its name, its role and its amount.
pub record Resource : Type 0 where
  pub name : Text
  pub role : Text
  pub amount : ℕ

pub record World : Type 0 where
  -- boost::lexical_cast<string>(int) and boost::lexical_cast<int>(string)
  pub print_int : ℤ → Text
  pub parse_int : Text → Option ℤ
  pub flags : Flags
  pub read_file : Text → Option Text
  pub yaml_load : Text → Option Document
  -- `resources.flatten(role).get().contains(needed)`, with the needed cpus and memory
  pub has_resources : List Resource → Text → ℕ → ℕ → Bool
  -- the n-th reading of `time()`
  pub time : ℕ → ℤ
  pub local_ip : Text
  -- what `popen` lets one read from a shell command, given the commands that ran before it; `none`
  -- where `popen` fails
  pub popen : List Text → Text → Option Text
  -- what an `int` that no constructor sets holds
  pub indeterminate : ℤ

-- Documented behaviour of boost::lexical_cast: a printed `int` is read back, and is made of a sign
-- and digits.
pub record IsLexical (w : World) : Type 0 where
  pub parse-print : (n : ℤ) → w.parse_int (w.print_int n) ≡ some n
  pub print-ne-nil : (n : ℤ) → w.print_int n ≢ []
  pub print-Lacks : (n : ℤ) → Lacks b'.' (w.print_int n)
