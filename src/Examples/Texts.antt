-- ===== src/Examples/Texts.antt =====
-- Messages cut at their delimiters, and requests for OSDs.
use ceph_mesos.Prelude.{List, Text, [], arith, codes, none, pos, refl, some, ◌++◌, ◌+◌, ◌∷◌, ◌≡◌}
use ceph_mesos.Common.StringUtil.{explode}
use ceph_mesos.Common.StringUtil.Cidr.{Compared, IsCidr, match_ip_to_cidr, match_ip_to_cidr_lem}
use ceph_mesos.Common.StringUtil.Explode.{explode-eq-fields, fields, join}
use ceph_mesos.Examples.Site.{site}
use ceph_mesos.Scheduler.EventLoop.{Request}
use ceph_mesos.Scheduler.EventLoop.Requests.{
  Event, fetch, granted, owed, pending_after, request, requested, requests_balance,
}

explode-eq-fields_example :
    explode (codes "2..node1:sdb,") b'.' ≡ fields b'.' (codes "2..node1:sdb,")
explode-eq-fields_example = explode-eq-fields (codes "2..node1:sdb,") b'.'

abbrev two_osds : Request
two_osds = record { instances = pos 2; profile = codes "osd" }

abbrev one_mon : Request
one_mon = record { instances = pos 1; profile = codes "mon" }

abbrev events : List Event
events =
    request (some two_osds) ∷ fetch ∷ request (some one_mon) ∷ fetch ∷ fetch ∷ request none ∷ []

requests_balance_example : requested events ≡ granted events [] + owed (pending_after events [])
requests_balance_example = requests_balance events

abbrev subnet_octets : List Text
subnet_octets = codes "10" ∷ codes "0" ∷ []

abbrev address_octets : List Text
address_octets = codes "10" ∷ codes "7" ∷ []

-- Nine strokes: one whole octet, and one bit.
abbrev nine_bits : Text
nine_bits = codes "+111111111"

nine_bits-IsCidr : IsCidr site address_octets subnet_octets nine_bits (pos 9) 1
unfolding join
nine_bits-IsCidr = record {
  ip_octets = ((omega arith, (omega arith, tt)), ((omega arith, tt), tt));
  ip_end = λ e. ground arith;
  ip_long = omega arith;
  subnet_octets = ((omega arith, (omega arith, tt)), ((omega arith, tt), tt));
  subnet_end = λ e. ground arith;
  subnet_long = omega arith;
  subnet_plain = ground arith;
  bits_plain = ground arith;
  bits_nonempty = λ e. ground arith;
  bits_read = refl;
  filled = (omega arith, omega arith);
}

match_ip_to_cidr_lem_example :
    Compared 1 address_octets subnet_octets (
      match_ip_to_cidr site
        (join b'.' address_octets)
        (join b'.' subnet_octets ++ b'/' ∷ nine_bits))
match_ip_to_cidr_lem_example =
    match_ip_to_cidr_lem site address_octets subnet_octets nine_bits (pos 9) 1 nine_bits-IsCidr
