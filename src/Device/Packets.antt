-- ===== src/Device/Packets.antt =====
-- `Apply` of internal/device/device.go keeps the table valid, whatever packets arrive.
use wirepup.Protocol.Dhcpv4.{Message as DhcpMessage}
use wirepup.Base.{
  ℕ, Bool, true, false, not, ◌||◌, Option, none, some, List, [], ◌∷◌, ◌==◌, if◌then◌else◌, Bytes,
  ltb, length,
}
use wirepup.Net.{Addr}
use wirepup.Protocol.Ethernet.{VlanTag}
use wirepup.Protocol.Icmpv6.{Message, is_ndp}
use wirepup.Protocol.Arp.{Role}
use wirepup.Device.Types.{Via, Protocol, Ref, Line, Transaction}
use wirepup.Device.Record.{mark_router, add_timeline, add_name}
use wirepup.Device.Table.{Table}
use wirepup.Device.Steps.{valid_key, usable_ipv4, usable_ipv6, ◌then_do◌, change}
use wirepup.Device.Valid.{
  Valid, Keeps, branch, timeline-Keeps, protocol-Keeps, router-Keeps, prefixes-Keeps, name-Keeps,
}
use wirepup.Device.Moves.{
  Leaves, Step, then_do-Leaves, change-Step, touch-Step, add_address-Step, add_vlan-Step,
}
use wirepup.Device.Leases.{
  transact, server_addr, note_server, apply_dhcp_server, apply_dhcp_type, apply_dhcp,
}
use wirepup.Device.Neighbors.{
  Advertisement, neighbor_key, knows, note_neighbor, note_advertiser, apply_lldp,
}
use wirepup.Device.ChannelSteps.{apply_ca-Step, apply_pva-Step}
use wirepup.Device.Apply.{
  Observation, Fact, apply_frame, apply_arp, apply_ipv4, apply_ipv6, observe_source, apply_ndp,
  apply_icmpv6, arp_role, apply_fact, next_frame, apply_from, apply,
}

observe_source-Step :
    (mac : Bytes) (src : Addr) (via : Via) (now : ℕ) (ref : Ref)
    → Step (observe_source mac src via now ref)
unfolding observe_source
observe_source-Step mac src via now ref t h =
    branch Leaves (usable_ipv6 src) (add_address-Step mac src _ via _ now ref t h) h

mark-Keeps :
    (mac : Bytes) (b : Bool) (now : ℕ) (ref : Ref)
    → Keeps mac (if b then mark_router now ref else λ d. d)
mark-Keeps mac true now ref = router-Keeps mac now ref
mark-Keeps mac false now ref = λ d e h. (e, h)

apply_ndp-Step :
    (mac : Bytes) (m : Message) (src : Addr) (dad : Bool) (now : ℕ) (ref : Ref)
    → Step (apply_ndp mac m src dad now ref)
unfolding apply_ndp
apply_ndp-Step mac m src dad now ref t h =
    branch Leaves (m.kind == 135)
      (branch Leaves dad (add_address-Step mac m.target _ _ _ now ref t h)
        (observe_source-Step mac src _ now ref t h))
      (branch Leaves (m.kind == 136)
        (then_do-Leaves _ _ (add_address-Step mac m.target _ _ _ now ref t h)
          (change-Step mac _ (mark-Keeps mac m.router now ref)))
        (branch Leaves (m.kind == 134)
          (then_do-Leaves _ _
            (then_do-Leaves _ _ (change-Step mac _ (router-Keeps mac now ref) t h)
              (observe_source-Step mac src _ now ref))
            (change-Step mac _ (prefixes-Keeps mac now ref m.prefixes)))
          (branch Leaves (m.kind == 133) (observe_source-Step mac src _ now ref t h) h)))

apply_frame-Step :
    (mac : Bytes) (tag : Option VlanTag) (now : ℕ) (ref : Ref) → Step (apply_frame mac tag now ref)
unfolding apply_frame
apply_frame-Step mac none now ref t h =
    branch Leaves (not (valid_key mac)) h (touch-Step mac now _ ref t h)
apply_frame-Step mac (some tag) now ref t h =
    branch Leaves (not (valid_key mac)) h
      (then_do-Leaves _ _ (touch-Step mac now _ ref t h) (add_vlan-Step mac tag.id now ref))

arp_role-Step :
    (role : Role) (mac : Bytes) (sender target : Addr) (now : ℕ) (ref : Ref)
    → Step (arp_role role mac sender target now ref)
unfolding arp_role
arp_role-Step Role.probe mac sender target now ref = add_address-Step mac target _ _ _ now ref
arp_role-Step Role.announcement mac sender target now ref =
    add_address-Step mac sender _ _ _ now ref
arp_role-Step Role.request mac sender target now ref = add_address-Step mac sender _ _ _ now ref
arp_role-Step Role.reply mac sender target now ref = add_address-Step mac sender _ _ _ now ref

apply_arp-Step :
    (role : Role) (mac : Bytes) (sender target : Addr) (now : ℕ) (ref : Ref)
    → Step (apply_arp role mac sender target now ref)
unfolding apply_arp
apply_arp-Step role mac sender target now ref t h = branch Leaves (not (valid_key mac)) h (
    then_do-Leaves _ _
      (then_do-Leaves _ _ (touch-Step mac now _ ref t h)
        (change-Step mac _ (protocol-Keeps mac Protocol.arp)))
      (arp_role-Step role mac sender target now ref))

apply_ipv4-Step :
    (last : Option Bytes) (src : Addr) (now : ℕ) (ref : Ref) → Step (apply_ipv4 last src now ref)
unfolding apply_ipv4
apply_ipv4-Step none src now ref t h = h
apply_ipv4-Step (some mac) src now ref t h =
    branch Leaves (not (valid_key mac) || not (usable_ipv4 src)) h
      (then_do-Leaves _ _ (touch-Step mac now _ ref t h) (add_address-Step mac src _ _ _ now ref))

apply_ipv6-Step :
    (last : Option Bytes) (src : Addr) (now : ℕ) (ref : Ref) → Step (apply_ipv6 last src now ref)
unfolding apply_ipv6
apply_ipv6-Step none src now ref t h = h
apply_ipv6-Step (some mac) src now ref t h =
    branch Leaves (not (valid_key mac) || not (usable_ipv6 src)) h
      (then_do-Leaves _ _ (touch-Step mac now _ ref t h) (add_address-Step mac src _ _ _ now ref))

apply_icmpv6-Step :
    (last : Option Bytes) (m : Message) (src : Addr) (dad : Bool) (now : ℕ) (ref : Ref)
    → Step (apply_icmpv6 last m src dad now ref)
unfolding apply_icmpv6
apply_icmpv6-Step none m src dad now ref t h = h
apply_icmpv6-Step (some mac) m src dad now ref t h =
    branch Leaves (not (valid_key mac) || not (is_ndp m)) h (
      then_do-Leaves _ _
        (then_do-Leaves _ _ (touch-Step mac now _ ref t h)
          (change-Step mac _ (protocol-Keeps mac Protocol.ndp)))
        (apply_ndp-Step mac m src dad now ref))

hostname-Keeps :
    (mac : Bytes) (b : Bool) (value : Bytes) (via : Via) (ref : Ref) (now : ℕ)
    → Keeps mac (if b then add_name value via ref now else λ d. d)
hostname-Keeps mac true value via ref now = name-Keeps mac value via ref now
hostname-Keeps mac false value via ref now = λ d e h. (e, h)

note_neighbor-Step : (v : Advertisement) (now : ℕ) (ref : Ref) → Step (note_neighbor v now ref)
unfolding note_neighbor Valid
note_neighbor-Step v now ref t h = branch Leaves (knows (neighbor_key v) t.neighbors) h h

apply_lldp-Step : (v : Advertisement) (now : ℕ) (ref : Ref) → Step (apply_lldp v now ref)
unfolding apply_lldp note_advertiser
apply_lldp-Step v now ref t h =
    then_do-Leaves _ _
      (branch Leaves (valid_key v.source_mac)
        (then_do-Leaves _ _
          (then_do-Leaves _ _ (touch-Step v.source_mac now _ ref t h)
            (change-Step v.source_mac _ (protocol-Keeps v.source_mac Protocol.lldp)))
          (change-Step v.source_mac _
            (hostname-Keeps v.source_mac (ltb 0 (length v.system_name)) v.system_name _ ref now)))
        h)
      (note_neighbor-Step v now ref)

transact-Step :
    (xid : ℕ) (mac : Bytes) (ref : Ref) (f : Transaction → Transaction)
    → Step (transact xid mac ref f)
unfolding transact Valid
transact-Step xid mac ref f t h = h

note_server-Step : (mac : Bytes) (a : Addr) (now : ℕ) (ref : Ref) → Step (note_server mac a now ref)
unfolding note_server
note_server-Step mac a now ref t h =
    branch Leaves (usable_ipv4 a) (add_address-Step mac a _ _ _ now ref t h) h

apply_dhcp_server-Step :
    (last : Option Bytes) (m : DhcpMessage) (src : Addr) (now : ℕ) (ref : Ref)
    → Step (apply_dhcp_server last m src now ref)
unfolding apply_dhcp_server
apply_dhcp_server-Step none m src now ref t h = h
apply_dhcp_server-Step (some mac) m src now ref t h = branch Leaves (not (valid_key mac)) h (
    then_do-Leaves _ _
      (then_do-Leaves _ _ (touch-Step mac now _ ref t h)
        (change-Step mac _ (protocol-Keeps mac Protocol.dhcp_server_role)))
      (note_server-Step mac (server_addr m src) now ref))

module _ (last : Option Bytes) (m : DhcpMessage) (src : Addr) (now : ℕ) (ref : Ref) where
  -- A change of the transaction, then a line on the client's timeline.
  logged-Leaves :
      (f : Transaction → Transaction) (line : Line) (t : Table)
      → Valid t
      → Leaves (
          transact m.xid m.client_mac ref f t
          then_do change m.client_mac (add_timeline now line ref))
  logged-Leaves f line t h =
      then_do-Leaves _ _ (transact-Step m.xid m.client_mac ref f t h)
        (change-Step m.client_mac _ (timeline-Keeps m.client_mac now line ref))

  apply_dhcp_type-Step : Step (apply_dhcp_type last m src now ref)
  unfolding apply_dhcp_type
  apply_dhcp_type-Step t h = branch Leaves (m.message_type == 1) (logged-Leaves _ _ t h) (
      branch Leaves (m.message_type == 3) (logged-Leaves _ _ t h) (
        branch Leaves (m.message_type == 2)
          (then_do-Leaves _ _ (logged-Leaves _ _ t h) (apply_dhcp_server-Step last m src now ref))
          (branch Leaves (m.message_type == 5)
            (then_do-Leaves _ _
              (then_do-Leaves _ _ (transact-Step m.xid m.client_mac ref _ t h)
                (add_address-Step m.client_mac _ _ _ _ now ref))
              (apply_dhcp_server-Step last m src now ref))
            (branch Leaves (m.message_type == 6)
              (then_do-Leaves _ _ (logged-Leaves _ _ t h)
                (apply_dhcp_server-Step last m src now ref))
              h))))

  apply_dhcp-Step : Step (apply_dhcp last m src now ref)
  unfolding apply_dhcp
  apply_dhcp-Step t h = branch Leaves (not (valid_key m.client_mac)) h (
      then_do-Leaves _ _
        (then_do-Leaves _ _
          (then_do-Leaves _ _
            (then_do-Leaves _ _ (touch-Step m.client_mac now _ ref t h)
              (change-Step m.client_mac _ (protocol-Keeps m.client_mac Protocol.dhcp)))
            (change-Step m.client_mac _
              (hostname-Keeps m.client_mac (ltb 0 (length m.hostname)) m.hostname _ ref now)))
          (transact-Step m.xid m.client_mac ref _))
        apply_dhcp_type-Step)

apply_fact-Step :
    (last : Option Bytes) (f : Fact) (now : ℕ) (ref : Ref) → Step (apply_fact last f now ref)
unfolding apply_fact
apply_fact-Step last (Fact.frame source vlan) now ref = apply_frame-Step source vlan now ref
apply_fact-Step last (Fact.arp role mac sender target) now ref =
    apply_arp-Step role mac sender target now ref
apply_fact-Step last (Fact.ipv4 src) now ref = apply_ipv4-Step last src now ref
apply_fact-Step last (Fact.ipv6 src) now ref = apply_ipv6-Step last src now ref
apply_fact-Step last (Fact.lldp v) now ref = apply_lldp-Step v now ref
apply_fact-Step last (Fact.dhcp m src) now ref = apply_dhcp-Step last m src now ref
apply_fact-Step last (Fact.icmpv6 m src dad) now ref = apply_icmpv6-Step last m src dad now ref
apply_fact-Step last (Fact.ca v) now ref = apply_ca-Step last v now ref
apply_fact-Step last (Fact.pva v) now ref = apply_pva-Step last v now ref

apply_from-Step : (last : Option Bytes) (os : List Observation) → Step (apply_from last os)
unfolding apply_from
apply_from-Step last [] t h = h
apply_from-Step last (o ∷ os) t h =
    then_do-Leaves _ _ (apply_fact-Step last o.fact o.time o.ref t h)
      (apply_from-Step (next_frame last o.fact) os)

-- After observations of every kind that `Apply` takes, whatever they say and in whatever order, a valid
-- table is valid: it has one record for a MAC address,
-- and in every record each family has no address twice, no more than 16 addresses that are only
-- "seen", and strong evidence only where the device is confirmed.
pub apply-Valid : (os : List Observation) (t : Table) → Valid t → Valid (apply os t).0
unfolding apply
apply-Valid os t h = apply_from-Step none os t h
