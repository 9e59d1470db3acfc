-- ===== src/Common/NetUtil.antt =====
-- src/common/NetUtil.hpp. The resolver of the C library is a parameter.
use ceph_mesos.Prelude.{Bool, Option, Text, eqb_ℤ, none, not, pos, refl, some, ℤ, ◌≡◌}
use ceph_mesos.Common.StringUtil.{c_str}

-- `gethostname`, `gethostbyname` and `inet_ntoa`: `none` is a null pointer. The name is what the buffer
-- holds after the call, up to its first zero byte, whatever the call returns.
pub record Resolver (Address : Type 0) : Type 0 where
  pub gethostname : ℤ × Text
  pub gethostbyname : Text → Option Address
  pub inet_ntoa : Address → Text

-- A call that reads through a null pointer, or goes on with a handle that has been freed, is undefined.
pub data CallResult (A : Type 0) : Type 0 where
  returns : A → CallResult A
  undefined_call : CallResult A

module _ {Address : Type 0} (net : Resolver Address) where
  unfoldable pub get_ip_by_hostname : Text → CallResult Text
  get_ip_by_hostname hostname = elim (net.gethostbyname (c_str hostname)) [
    | none ↦ undefined_call
    | some address ↦ returns (net.inet_ntoa address)
  ]

  -- Whether an error is logged, which changes nothing else, and the address.
  unfoldable pub get_local_ip : Bool × CallResult Text
  get_local_ip =
      let (code, hostname) = net.gethostname in
      (
        not (eqb_ℤ (pos 0) code),
        elim (net.gethostbyname hostname) [
          | none ↦ undefined_call
          | some address ↦ returns (net.inet_ntoa address)
        ],
      )

  -- The address of this host is that of its name, whether or not the name could be told.
  pub get_local_ip-get_ip_by_hostname :
      c_str net.gethostname.1 ≡ net.gethostname.1
      → get_local_ip.1 ≡ get_ip_by_hostname net.gethostname.1
  unfolding get_local_ip get_ip_by_hostname
  get_local_ip-get_ip_by_hostname ended = rw (ended, get_ip_by_hostname) refl
