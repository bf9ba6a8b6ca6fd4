-- ===== src/Device/Neighbors.antt =====
-- `applyLLDP` of internal/device/device.go and the neighbors of its table.
use wirepup.Base.{ℕ, Bool, none, some, List, [], ◌∷◌, ◌++◌, if◌then◌else◌, length, ltb, Bytes}
use wirepup.Net.{Addr, bytes_eq}
use wirepup.Device.Types.{Via, Change, Method, Protocol, Ref, Neighbor, Event}
use wirepup.Device.Record.{add_protocol, add_name}
use wirepup.Device.Table.{Table, touch}
use wirepup.Device.Steps.{valid_key, ◌then_do◌, change}

-- What `applyLLDP` reads of an observation, in its printed form.
pub record Advertisement : Type 0 where
  pub source_mac : Bytes
  pub chassis_id : Bytes
  pub port_id : Bytes
  pub ttl : ℕ
  pub system_name : Bytes
  pub system_description : Bytes
  pub port_description : Bytes
  pub capabilities : List Bytes
  pub enabled_caps : List Bytes
  pub management_addrs : List Bytes
  pub port_vlan_id : ℕ
  pub vlan_summary : List Bytes
  pub max_frame_size : ℕ

-- `v.ChassisID + "|" + v.PortID`
unfoldable pub neighbor_key : Advertisement → Bytes
neighbor_key v = v.chassis_id ++ (124 ∷ v.port_id)

unfoldable pub new_neighbor_of : Advertisement → ℕ → Ref → Neighbor
new_neighbor_of v now ref = record {
  id = neighbor_key v;
  chassis_id = v.chassis_id;
  port_id = v.port_id;
  source_mac = v.source_mac;
  system_name = v.system_name;
  system_desc = v.system_description;
  port_desc = v.port_description;
  caps = v.capabilities;
  enabled_caps = v.enabled_caps;
  mgmt_addrs = v.management_addrs;
  port_vlan_id = v.port_vlan_id;
  vlan_names = v.vlan_summary;
  max_frame = v.max_frame_size;
  ttl = v.ttl;
  first_seen = now;
  last_seen = now;
  ref = ref;
}

unfoldable pub knows : Bytes → List Neighbor → Bool
knows key [] = Bool.false
knows key (n ∷ ns) = if bytes_eq n.id key then Bool.true else knows key ns

-- The write to the neighbor that the table has.
unfoldable pub renew : Bytes → ℕ → ℕ → List Neighbor → List Neighbor
renew key now ttl [] = []
renew key now ttl (n ∷ ns) =
    if bytes_eq n.id key
    then record n { last_seen = now; ttl = ttl } ∷ ns
    else n ∷ renew key now ttl ns

-- The part of `applyLLDP` on the neighbors.
unfoldable pub note_neighbor : Advertisement → ℕ → Ref → Table → Table × List Event
note_neighbor v now ref t =
    if knows (neighbor_key v) t.neighbors
    then (record t { neighbors = renew (neighbor_key v) now v.ttl t.neighbors }, [])
    else let n = new_neighbor_of v now ref in
      (
        record t { neighbors = t.neighbors ++ (n ∷ []) },
        record {
          time = now;
          change = Change.new_neighbor;
          device = none;
          neighbor = some n;
          conflict = none;
          via = Via.lldp_unit;
          method = Method.no_method;
          address = Addr.invalid;
          vlan = 0;
          ref = ref;
        }
            ∷ [],
      )

-- The part of `applyLLDP` on the device.
unfoldable pub note_advertiser : Advertisement → ℕ → Ref → Table → Table × List Event
note_advertiser v now ref t =
    if valid_key v.source_mac
    then (touch v.source_mac now Via.lldp_unit ref t
        then_do change v.source_mac (add_protocol Protocol.lldp)
        then_do change v.source_mac (
            if ltb 0 (length v.system_name)
            then add_name v.system_name Via.lldp_unit ref now
            else λ d. d))
    else (t, [])

unfoldable pub apply_lldp : Advertisement → ℕ → Ref → Table → Table × List Event
apply_lldp v now ref t = note_advertiser v now ref t then_do note_neighbor v now ref
