-- ===== src/Device/Apply.antt =====
-- `Apply` of internal/device/device.go and its handlers for frames, ARP, IPv4, IPv6 and ICMPv6.
use wirepup.Protocol.Dhcpv4.{Message as DhcpMessage}
use wirepup.Base.{ℕ, Bool, not, ◌||◌, Option, none, some, List, [], ◌∷◌, ◌==◌, if◌then◌else◌, Bytes}
use wirepup.Net.{Addr}
use wirepup.Protocol.Arp.{Role}
use wirepup.Protocol.Ethernet.{VlanTag}
use wirepup.Protocol.Icmpv6.{Prefix, Message, is_ndp}
use wirepup.Device.Steps.{valid_key, usable_ipv4, usable_ipv6, ◌then_do◌, change}
use wirepup.Device.Leases.{apply_dhcp}
use wirepup.Epics.Ca
use wirepup.Epics.Pva.Observations
use wirepup.Epics.Pva
use wirepup.Device.Channels.{apply_ca}
use wirepup.Device.PvaChannels.{apply_pva}
use wirepup.Device.Neighbors.{Advertisement, apply_lldp}
use wirepup.Device.Types.{State, Via, Method, Protocol, Ref, prefix_line, Device, Event}
use wirepup.Device.Record.{add_timeline, add_protocol, mark_router}
use wirepup.Device.Table.{Table, touch, add_address, add_vlan}

-- One observation: its time, its reference and what was observed.
pub data Fact : Type 0 where
  frame : (source : Bytes) → (vlan : Option VlanTag) → Fact
  arp : (role : Role) → (sender_mac : Bytes) → (sender_ip target_ip : Addr) → Fact
  ipv4 : (src : Addr) → Fact
  ipv6 : (src : Addr) → Fact
  lldp : (unit : Advertisement) → Fact
  dhcp : (message : DhcpMessage) (src : Addr) → Fact
  icmpv6 : (message : Message) → (src : Addr) → (dad : Bool) → Fact
  ca : (message : Ca.Observation) → Fact
  pva : (message : Pva.Observations.Observation) → Fact

pub record Observation : Type 0 where
  pub time : ℕ
  pub ref : Ref
  pub fact : Fact

unfoldable pub apply_frame : Bytes → Option VlanTag → ℕ → Ref → Table → Table × List Event
apply_frame source none now ref t =
    if not (valid_key source) then (t, []) else touch source now Via.ethernet ref t
apply_frame source (some tag) now ref t =
    if not (valid_key source)
    then (t, [])
    else touch source now Via.ethernet ref t then_do add_vlan source tag.id now ref

-- The switch of `applyARP` on the role.
unfoldable pub arp_role : Role → Bytes → Addr → Addr → ℕ → Ref → Table → Table × List Event
arp_role Role.probe mac sender target now ref =
    add_address mac target State.probing Via.arp_probe Method.no_method now ref
arp_role Role.announcement mac sender target now ref =
    add_address mac sender State.claimed Via.arp_announcement Method.no_method now ref
arp_role Role.request mac sender target now ref =
    add_address mac sender State.observed Via.arp_request Method.no_method now ref
arp_role Role.reply mac sender target now ref =
    add_address mac sender State.observed Via.arp_reply Method.no_method now ref

unfoldable pub apply_arp : Role → Bytes → Addr → Addr → ℕ → Ref → Table → Table × List Event
apply_arp role mac sender target now ref t =
    if not (valid_key mac)
    then (t, [])
    else touch mac now Via.ethernet ref t
      then_do change mac (add_protocol Protocol.arp)
      then_do arp_role role mac sender target now ref

unfoldable pub apply_ipv4 : Option Bytes → Addr → ℕ → Ref → Table → Table × List Event
apply_ipv4 none src now ref t = (t, [])
apply_ipv4 (some mac) src now ref t =
    if not (valid_key mac) || not (usable_ipv4 src)
    then (t, [])
    else touch mac now Via.ethernet ref t
      then_do add_address mac src State.seen Via.ipv4_packet Method.no_method now ref

unfoldable pub apply_ipv6 : Option Bytes → Addr → ℕ → Ref → Table → Table × List Event
apply_ipv6 none src now ref t = (t, [])
apply_ipv6 (some mac) src now ref t =
    if not (valid_key mac) || not (usable_ipv6 src)
    then (t, [])
    else touch mac now Via.ethernet ref t
      then_do add_address mac src State.seen Via.ipv6_packet Method.no_method now ref

-- The loop over the prefixes of a router advertisement.
unfoldable pub add_prefixes : ℕ → Ref → List Prefix → Device → Device
add_prefixes now ref [] d = d
add_prefixes now ref (p ∷ ps) d =
    add_prefixes now ref ps (add_timeline now (prefix_line p.addr p.bits) ref d)

-- `addAddress` of a source address in state "observed", where it is usable.
unfoldable pub observe_source : Bytes → Addr → Via → ℕ → Ref → Table → Table × List Event
observe_source mac src via now ref t =
    if usable_ipv6 src
    then add_address mac src State.observed via Method.no_method now ref t
    else (t, [])

-- The switch of `applyICMPv6` on the type of the message.
unfoldable pub apply_ndp : Bytes → Message → Addr → Bool → ℕ → Ref → Table → Table × List Event
apply_ndp mac m src dad now ref t =
    if m.kind == 135
    then (if dad
        then add_address mac m.target State.probing Via.ndp_dad Method.no_method now ref t
        else observe_source mac src Via.ndp_solicit now ref t)
    else if m.kind == 136
    then (add_address mac m.target (if m.solicited then State.observed else State.claimed)
          Via.ndp_advert Method.no_method now ref t
        then_do change mac (if m.router then mark_router now ref else λ d. d))
    else if m.kind == 134
    then (change mac (mark_router now ref) t
        then_do observe_source mac src Via.router_advert now ref
        then_do change mac (add_prefixes now ref m.prefixes))
    else if m.kind == 133
    then observe_source mac src Via.ndp_solicit now ref t
    else (t, [])

unfoldable pub apply_icmpv6 :
    Option Bytes → Message → Addr → Bool → ℕ → Ref → Table → Table × List Event
apply_icmpv6 none m src dad now ref t = (t, [])
apply_icmpv6 (some mac) m src dad now ref t =
    if not (valid_key mac) || not (is_ndp m)
    then (t, [])
    else touch mac now Via.ethernet ref t
      then_do change mac (add_protocol Protocol.ndp)
      then_do apply_ndp mac m src dad now ref

-- The switch of `Apply` on one observation, with the source address of the frame before it.
unfoldable pub apply_fact : Option Bytes → Fact → ℕ → Ref → Table → Table × List Event
apply_fact last (Fact.frame source vlan) now ref = apply_frame source vlan now ref
apply_fact last (Fact.arp role mac sender target) now ref = apply_arp role mac sender target now ref
apply_fact last (Fact.ipv4 src) now ref = apply_ipv4 last src now ref
apply_fact last (Fact.ipv6 src) now ref = apply_ipv6 last src now ref
apply_fact last (Fact.lldp v) now ref = apply_lldp v now ref
apply_fact last (Fact.dhcp m src) now ref = apply_dhcp last m src now ref
apply_fact last (Fact.icmpv6 m src dad) now ref = apply_icmpv6 last m src dad now ref
apply_fact last (Fact.ca v) now ref = apply_ca last v now ref
apply_fact last (Fact.pva v) now ref = apply_pva last v now ref

-- `frame = &v`
unfoldable pub next_frame : Option Bytes → Fact → Option Bytes
next_frame last (Fact.frame source vlan) = some source
next_frame last (Fact.arp _ _ _ _) = last
next_frame last (Fact.ipv4 _) = last
next_frame last (Fact.ipv6 _) = last
next_frame last (Fact.lldp _) = last
next_frame last (Fact.dhcp _ _) = last
next_frame last (Fact.icmpv6 _ _ _) = last
next_frame last (Fact.ca _) = last
next_frame last (Fact.pva _) = last

unfoldable pub apply_from : Option Bytes → List Observation → Table → Table × List Event
apply_from last [] t = (t, [])
apply_from last (o ∷ os) t =
    apply_fact last o.fact o.time o.ref t then_do apply_from (next_frame last o.fact) os

unfoldable pub apply : List Observation → Table → Table × List Event
apply = apply_from none
