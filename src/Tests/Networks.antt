-- ===== src/Tests/Networks.antt =====
-- The networks of the default configuration, and slots in them.
use novita_box.Common.{◌≡◌, ◌≢◌, refl, String, ok, err, arith}
use novita_box.Network.Net.{
  VethAddrs, max_slots, indexed_ip, veth_addrs_for_slot, network_slot_from_host_access_ip,
  index_outside, network_slots_for_cidr,
}
use novita_box.Network.Slots.{slot-indexed_ip, slots-apart}
use novita_box.Tests.Net.{binary_net, binary_net-NetLaws}

abbrev pub host_cidr : String
host_cidr = "10.11.0.0/16"

abbrev pub veth_cidr : String
veth_cidr = "10.12.0.0/16"

pub default_slots : max_slots binary_net host_cidr veth_cidr ≡ ok 32767
unfolding max_slots network_slots_for_cidr
default_slots = refl

small_network : network_slots_for_cidr binary_net "10.13.0.0/29" 1 ≡ ok 7
unfolding network_slots_for_cidr
small_network = refl

no_base_address : indexed_ip binary_net "10.13.0.0/29" 0 ≡ err index_outside
unfolding indexed_ip
no_base_address = refl

past_the_end : indexed_ip binary_net "10.13.0.0/29" 8 ≡ err index_outside
unfolding indexed_ip
past_the_end = refl

slot-indexed_ip_example :
    (ip : String) × (indexed_ip binary_net host_cidr 7 ≡ ok ip)
    × (network_slot_from_host_access_ip binary_net host_cidr ip ≡ ok 7)
slot-indexed_ip_example =
    slot-indexed_ip binary_net binary_net-NetLaws host_cidr veth_cidr 32767 7 default_slots
      (omega arith) (omega arith)

slots-apart_example :
    (indexed_ip binary_net host_cidr 7 ≢ indexed_ip binary_net host_cidr 8)
    × ((vs vt : VethAddrs) × (veth_addrs_for_slot binary_net veth_cidr 7 ≡ ok vs)
        × (veth_addrs_for_slot binary_net veth_cidr 8 ≡ ok vt)
        × (vs.host_ip ≢ vs.peer_ip)
        × (vs.host_ip ≢ vt.host_ip)
        × (vs.host_ip ≢ vt.peer_ip)
        × (vs.peer_ip ≢ vt.host_ip)
        × (vs.peer_ip ≢ vt.peer_ip))
slots-apart_example =
    slots-apart binary_net binary_net-NetLaws host_cidr veth_cidr 32767 7 8 default_slots
      (omega arith) (omega arith) (omega arith) (omega arith) (omega arith)
