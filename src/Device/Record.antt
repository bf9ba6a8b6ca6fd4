-- ===== src/Device/Record.antt =====
-- The operations of internal/device/device.go on one device record.
use wirepup.Base.{
  ℕ, ◌+◌, Bool, true, false, ◌&&◌, ◌||◌, Option, none, some, List, [], ◌∷◌, ◌++◌, ltb, leb, ◌==◌,
  if◌then◌else◌, Bytes,
}
use wirepup.Net.{Addr, addr_eq, is6}
use wirepup.Net.{bytes_eq}
use wirepup.Device.Types.{
  State, rank, is_strong, is_seen, Via, Protocol, arp, ca_client, ca_server, pva_client, pva_server,
  dhcp, dhcp_server_role, ipv6_router, lldp, ndp, Confidence, weak_hint, strong_hint, confirmed,
  Ref, Address, Name, Line, address_line, name_line, router_line, vlan_observed, Device,
}

abbrev pub max_weak_addresses : ℕ
max_weak_addresses = 16

unfoldable pub add_timeline : ℕ → Line → Ref → Device → Device
add_timeline now line ref d = record d {
  timeline = d.timeline ++ (record { time = now; line = line; ref = ref } ∷ []);
}

unfoldable pub via_code : Via → ℕ
via_code Via.ethernet = 0
via_code Via.arp_probe = 1
via_code Via.arp_announcement = 2
via_code Via.arp_request = 3
via_code Via.arp_reply = 4
via_code Via.ipv4_packet = 5
via_code Via.ipv6_packet = 6
via_code Via.vlan_tag = 7
via_code Via.ndp_dad = 8
via_code Via.ndp_solicit = 9
via_code Via.ndp_advert = 10
via_code Via.router_advert = 11
via_code Via.dhcp_client = 12
via_code Via.dhcp_ack = 13
via_code Via.dhcp_server = 14
via_code Via.lldp_unit = 15
via_code Via.conflict_claim = 16
via_code Via.ca_search_response = 17
via_code Via.ca_not_found = 18
via_code Via.ca_beacon = 19
via_code Via.pva_search_response = 20
via_code Via.pva_beacon = 21

unfoldable pub has_name : Bytes → Via → List Name → Bool
has_name value via [] = false
has_name value via (n ∷ ns) =
    (bytes_eq n.value value && via_code n.via == via_code via) || has_name value via ns

unfoldable pub add_name : Bytes → Via → Ref → ℕ → Device → Device
unfolding has_name via_code add_timeline
add_name value via ref now d =
    if has_name value via d.names
    then d
    else add_timeline now (name_line via value) ref
        (record d { names = d.names ++ (record { value = value; via = via; ref = ref } ∷ []) })

-- The place of a protocol's name among the names.
unfoldable pub order_of : Protocol → ℕ
order_of arp = 0
order_of ca_client = 1
order_of ca_server = 2
order_of dhcp = 3
order_of dhcp_server_role = 4
order_of ipv6_router = 5
order_of lldp = 6
order_of ndp = 7
order_of pva_client = 8
order_of pva_server = 9

unfoldable pub has_protocol : Protocol → List Protocol → Bool
has_protocol p [] = false
has_protocol p (q ∷ qs) = order_of q == order_of p || has_protocol p qs

unfoldable pub insert_protocol : Protocol → List Protocol → List Protocol
insert_protocol p [] = p ∷ []
insert_protocol p (q ∷ qs) =
    if leb (order_of p) (order_of q) then p ∷ q ∷ qs else q ∷ insert_protocol p qs

-- `sort.Strings`
unfoldable pub sort_protocols : List Protocol → List Protocol
sort_protocols [] = []
sort_protocols (p ∷ ps) = insert_protocol p (sort_protocols ps)

unfoldable pub add_protocol : Protocol → Device → Device
unfolding has_protocol order_of sort_protocols insert_protocol
add_protocol p d =
    if has_protocol p d.protocols
    then d
    else record d { protocols = sort_protocols (d.protocols ++ (p ∷ [])) }

unfoldable pub mark_router : ℕ → Ref → Device → Device
unfolding add_protocol add_timeline
mark_router now ref d =
    if d.router
    then d
    else add_timeline now router_line ref (add_protocol ipv6_router (record d { router = true }))

unfoldable pub has_vlan : ℕ → List ℕ → Bool
has_vlan id [] = false
has_vlan id (v ∷ vs) = v == id || has_vlan id vs

-- The state part of `addVLAN`, and whether it changed the device.
unfoldable pub add_vlan_record : ℕ → ℕ → Ref → Device → Device × Bool
unfolding has_vlan add_timeline
add_vlan_record id now ref d =
    if has_vlan id d.vlans
    then (d, false)
    else (add_timeline now (vlan_observed id) ref (record d { vlans = d.vlans ++ (id ∷ []) }), true)

unfoldable pub raised : Confidence → Confidence
raised weak_hint = strong_hint
raised strong_hint = strong_hint
raised confirmed = confirmed

-- `raiseConfidence`
unfoldable pub raise_confidence : State → Device → Device
unfolding raised
raise_confidence s d = record d {
  confidence = if is_strong s then confirmed else raised d.confidence;
}

unfoldable pub weak_count : List Address → ℕ
weak_count [] = 0
weak_count (a ∷ rest) = (if is_seen a.state then 1 else 0) + weak_count rest

-- The entry of an address, and the list with that entry changed: the first match of the loop.
unfoldable pub find_address : Addr → List Address → Option Address
find_address x [] = none
find_address x (a ∷ rest) = if addr_eq a.addr x then some a else find_address x rest

unfoldable pub put_address : Address → List Address → List Address
put_address a [] = []
put_address a (b ∷ bs) = if addr_eq b.addr a.addr then a ∷ bs else b ∷ put_address a bs

-- `list := &d.IPv4`, or `&d.IPv6`
unfoldable pub family : Addr → Device → List Address
family x d = if is6 x then d.ipv6 else d.ipv4

unfoldable pub with_family : Addr → List Address → Device → Device
with_family x l d = if is6 x then record d { ipv6 = l } else record d { ipv4 = l }

abbrev pub later : ℕ → ℕ → ℕ
later now seen = if ltb seen now then now else seen

unfoldable pub claim_line : Via → Addr → ℕ → Ref → State → Device → Device
claim_line via x now ref s d = add_timeline now (address_line via x) ref (raise_confidence s d)

-- The state part of `addAddress` on the entry that the loop finds, and whether it raises an event.
unfoldable pub renew_address : Addr → State → Via → ℕ → Ref → Device → Address → Device × Bool
unfolding claim_line
renew_address x s via now ref d a =
    let a' = record a { last_seen = later now a.last_seen } in
    if leb (rank s) (rank a.state)
    then (with_family x (put_address a' (family x d)) d, false)
    else (
      claim_line via x now ref s (
          with_family x (put_address (record a' { state = s; via = via; ref = ref }) (family x d))
            d),
      true,
    )

-- The same where the loop finds no entry.
unfoldable pub new_address : Addr → State → Via → ℕ → Ref → Device → Device × Bool
unfolding claim_line
new_address x s via now ref d =
    if is_seen s && leb max_weak_addresses (weak_count (family x d))
    then (record d { weak_overflow = d.weak_overflow + 1 }, false)
    else (
      claim_line via x now ref s (
          with_family x
            (family x d
              ++ (record {
                addr = x;
                state = s;
                via = via;
                first_seen = now;
                last_seen = now;
                ref = ref;
              }
                  ∷ []))
            d),
      true,
    )

-- `addAddress` on the entry that the loop over the family finds, or on none.
unfoldable pub claim_found : Addr → State → Via → ℕ → Ref → Device → Option Address → Device × Bool
claim_found x s via now ref d none = new_address x s via now ref d
claim_found x s via now ref d (some a) = renew_address x s via now ref d a

unfoldable pub claim_address : Addr → State → Via → ℕ → Ref → Device → Device × Bool
claim_address x s via now ref d = claim_found x s via now ref d (find_address x (family x d))
