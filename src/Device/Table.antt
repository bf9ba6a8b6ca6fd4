-- ===== src/Device/Table.antt =====
-- The table of internal/device/device.go. Go keeps each record behind one pointer, which the map by
-- key and the list in order of first sighting share; here the list holds the records, and a lookup
-- by key finds the one that the map points at.
use wirepup.Base.{
  ℕ, Bool, true, false, not, ◌&&◌, ◌||◌, Option, none, some, List, [], ◌∷◌, ◌++◌, ltb,
  if◌then◌else◌, has_bit, length, Bytes, byte,
}
use wirepup.Net.{Addr, addr_eq, is_valid, is_unspecified, is6, is_link_local_unicast, bytes_eq}
use wirepup.Protocol.Arp.{is_link_local}
use wirepup.Device.Types.{
  State, is_strong, Via, Change, Method, no_method, auto_ip, v6_link_local, Confidence, Ref,
  mac_observed, also_claimed, Device, Conflict, Neighbor, Transaction, Event,
}
use wirepup.Device.EpicsState.{EpicsState, no_epics}
use wirepup.Device.Record.{claim_address, add_timeline, add_vlan_record}

-- `Options`: the host's own MAC addresses, and the vendor hint.
pub record Options : Type 0 where
  pub local_macs : List Bytes
  pub vendor : Bytes → Bytes

pub record Table : Type 0 where
  pub options : Options
  pub devices : List Device
  pub neighbors : List Neighbor
  pub dhcp : List Transaction
  pub claims : List Conflict
  pub epics : EpicsState

unfoldable pub new : Options → Table
new options = record {
  options = options;
  devices = [];
  neighbors = [];
  dhcp = [];
  claims = [];
  epics = no_epics;
}

unfoldable pub find_device : Bytes → List Device → Option Device
find_device mac [] = none
find_device mac (d ∷ ds) = if bytes_eq d.id mac then some d else find_device mac ds

-- A write through the pointer of the device with the key.
unfoldable pub modify : Bytes → (Device → Device) → List Device → List Device
modify mac f [] = []
modify mac f (d ∷ ds) = if bytes_eq d.id mac then f d ∷ ds else d ∷ modify mac f ds

unfoldable pub contains : Bytes → List Bytes → Bool
contains mac [] = false
contains mac (m ∷ ms) = bytes_eq m mac || contains mac ms

locally_administered : Bytes → Bool
locally_administered mac = ltb 0 (length mac) && has_bit (byte mac 0) 1

abbrev event : ℕ → Change → Device → Via → Ref → Event
event now change d via ref = record {
  time = now;
  change = change;
  device = some d;
  neighbor = none;
  conflict = none;
  via = via;
  method = no_method;
  address = Addr.invalid;
  vlan = 0;
  ref = ref;
}

unfoldable pub new_record : Options → Bytes → ℕ → Ref → Device
unfolding contains locally_administered
new_record options mac now ref = record {
  id = mac;
  macs = mac ∷ [];
  ipv4 = [];
  ipv6 = [];
  names = [];
  vendor = options.vendor mac;
  protocols = [];
  first_seen = now;
  last_seen = now;
  is_local = contains mac options.local_macs;
  router = false;
  vlans = [];
  locally_administered = locally_administered mac;
  confidence = Confidence.weak_hint;
  timeline = record { time = now; line = mac_observed; ref = ref } ∷ [];
  weak_overflow = 0;
}

abbrev pub saw : ℕ → Device → Device
saw now d = record d { last_seen = if ltb d.last_seen now then now else d.last_seen }

-- `touch` on the device that the table has for the key, or on none.
unfoldable pub touch_found : Bytes → ℕ → Via → Ref → Table → Option Device → Table × List Event
touch_found mac now via ref t (some d) = (record t { devices = modify mac (saw now) t.devices }, [])
touch_found mac now via ref t none =
    let d = new_record t.options mac now ref in
    (record t { devices = t.devices ++ (d ∷ []) }, event now Change.new_device d via ref ∷ [])

unfoldable pub touch : Bytes → ℕ → Via → Ref → Table → Table × List Event
touch mac now via ref t = touch_found mac now via ref t (find_device mac t.devices)

unfoldable pub find_claim : Addr → List Conflict → Option Conflict
find_claim x [] = none
find_claim x (c ∷ cs) = if addr_eq c.addr x then some c else find_claim x cs

unfoldable pub put_claim : Conflict → List Conflict → List Conflict
put_claim c [] = c ∷ []
put_claim c (b ∷ bs) = if addr_eq b.addr c.addr then c ∷ bs else b ∷ put_claim c bs

-- The record of the claims on an address, a new one where there is none.
unfoldable pub claim_from : Addr → ℕ → Option Conflict → Conflict
claim_from x now (some c) = c
claim_from x now none = record { addr = x; macs = []; first_seen = now; last_seen = now; refs = [] }

unfoldable pub claim_of : Addr → ℕ → List Conflict → Conflict
claim_of x now cs = claim_from x now (find_claim x cs)

-- The part of `noteClaim` behind the loop over the MAC addresses.
unfoldable pub join_claim : Bytes → ℕ → Ref → Conflict → Table → Table × List Event
join_claim mac now ref c t =
    let c' = record c {
      last_seen = now;
      macs = c.macs ++ (mac ∷ []);
      refs = c.refs ++ (ref ∷ []);
    } in
    let t' = record t { claims = put_claim c' t.claims } in
    if ltb (length c'.macs) 2
    then (t', [])
    else let devices' = modify mac (add_timeline now (also_claimed c.addr c.macs) ref) t.devices in
      (
        record t' { devices = devices' },
        record {
          time = now;
          change = Change.address_conflict;
          device = find_device mac devices';
          neighbor = none;
          conflict = some c';
          via = Via.conflict_claim;
          method = no_method;
          address = c.addr;
          vlan = 0;
          ref = ref;
        }
            ∷ [],
      )

unfoldable pub note_claim : Bytes → Addr → State → ℕ → Ref → Table → Table × List Event
unfolding contains
note_claim mac x s now ref t =
    if not (is_strong s)
    then (t, [])
    else let c = claim_of x now t.claims in
      if contains mac c.macs
      then (record t { claims = put_claim (record c { last_seen = now }) t.claims }, [])
      else join_claim mac now ref c t

-- The default of the method by the address.
unfoldable pub method_of : Method → Addr → Method
method_of no_method x =
    if is_link_local x
    then auto_ip
    else if is6 x && is_link_local_unicast x
    then v6_link_local
    else no_method
method_of m x = m

-- The events and claims of `addAddress` after the device record has changed, or not.
unfoldable pub report_address :
    Bytes → Addr → State → Via → Method → ℕ → Ref → Table → Device × Bool → Table × List Event
report_address mac x s via how now ref t (d, false) =
    (record t { devices = modify mac (λ _. d) t.devices }, [])
report_address mac x s via how now ref t (d, true) =
    let t' = record t { devices = modify mac (λ _. d) t.devices } in
    let (t'', more) = note_claim mac x s now ref t' in
    (
      t'',
      record (event now Change.update d via ref) { method = method_of how x; address = x } ∷ more,
    )

-- `addAddress` on the device with the key.
unfoldable pub add_found :
    Bytes → Addr → State → Via → Method → ℕ → Ref → Table → Option Device → Table × List Event
add_found mac x s via how now ref t none = (t, [])
add_found mac x s via how now ref t (some d) =
    report_address mac x s via how now ref t (claim_address x s via now ref d)

unfoldable pub add_address :
    Bytes → Addr → State → Via → Method → ℕ → Ref → Table → Table × List Event
add_address mac x s via how now ref t =
    if not (is_valid x) || is_unspecified x
    then (t, [])
    else add_found mac x s via how now ref t (find_device mac t.devices)

unfoldable pub report_vlan : Bytes → ℕ → ℕ → Ref → Table → Device × Bool → Table × List Event
report_vlan mac id now ref t (d, false) = (t, [])
report_vlan mac id now ref t (d, true) = (
  record t { devices = modify mac (λ _. d) t.devices },
  record (event now Change.update d Via.vlan_tag ref) { vlan = id } ∷ [],
)

unfoldable pub vlan_found : Bytes → ℕ → ℕ → Ref → Table → Option Device → Table × List Event
vlan_found mac id now ref t none = (t, [])
vlan_found mac id now ref t (some d) = report_vlan mac id now ref t (add_vlan_record id now ref d)

unfoldable pub add_vlan : Bytes → ℕ → ℕ → Ref → Table → Table × List Event
add_vlan mac id now ref t = vlan_found mac id now ref t (find_device mac t.devices)
