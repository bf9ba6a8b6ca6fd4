-- ===== src/Device/Types.antt =====
-- The data of internal/device/device.go. A MAC address stands for the string that prints it, which
-- is the key of the table; times are numbers; the texts of the timeline keep what they print.
use wirepup.Base.{ℕ, Bool, true, false, Option, List, leb, Bytes}
use wirepup.Net.{Addr}

-- Address states, and the strength of each.
pub data State : Type 0 where
  seen probing observed claimed leased : State

unfoldable pub rank : State → ℕ
rank seen = 1
rank probing = 1
rank observed = 2
rank claimed = 3
rank leased = 3

unfoldable pub is_strong : State → Bool
is_strong s = leb (rank observed) (rank s)

unfoldable pub is_seen : State → Bool
is_seen seen = true
is_seen probing = false
is_seen observed = false
is_seen claimed = false
is_seen leased = false

pub data Via : Type 0 where
  ethernet arp_probe arp_announcement arp_request arp_reply : Via
  ipv4_packet ipv6_packet vlan_tag ndp_dad ndp_solicit ndp_advert router_advert : Via
  dhcp_client dhcp_ack dhcp_server lldp_unit conflict_claim : Via
  ca_search_response ca_not_found ca_beacon pva_search_response pva_beacon : Via

pub data Change : Type 0 where
  new_device update new_neighbor address_conflict : Change

pub data Method : Type 0 where
  no_method auto_ip dhcp_lease v6_link_local : Method

-- In the order of their names, by which the list of a device is sorted.
pub data Protocol : Type 0 where
  arp ca_client ca_server dhcp dhcp_server_role ipv6_router lldp ndp pva_client pva_server :
      Protocol

pub data Confidence : Type 0 where
  weak_hint strong_hint confirmed : Confidence

pub record Ref : Type 0 where
  pub source : Bytes
  pub packet_id : ℕ

pub record Address : Type 0 where
  pub addr : Addr
  pub state : State
  pub via : Via
  pub first_seen : ℕ
  pub last_seen : ℕ
  pub ref : Ref

pub record Name : Type 0 where
  pub value : Bytes
  pub via : Via
  pub ref : Ref

pub data Line : Type 0 where
  mac_observed : Line
  vlan_observed : ℕ → Line
  address_line : Via → Addr → Line
  also_claimed : Addr → List Bytes → Line
  name_line : Via → Bytes → Line
  router_line : Line
  prefix_line : Addr → ℕ → Line
  dhcp_discover : Line
  dhcp_request : Addr → Line
  dhcp_offer : Addr → Addr → Line
  dhcp_nak : Addr → Line

pub record TimelineEntry : Type 0 where
  pub time : ℕ
  pub line : Line
  pub ref : Ref

pub record Device : Type 0 where
  pub id : Bytes
  pub macs : List Bytes
  pub ipv4 : List Address
  pub ipv6 : List Address
  pub names : List Name
  pub vendor : Bytes
  pub protocols : List Protocol
  pub first_seen : ℕ
  pub last_seen : ℕ
  pub is_local : Bool
  pub router : Bool
  pub vlans : List ℕ
  pub locally_administered : Bool
  pub confidence : Confidence
  pub timeline : List TimelineEntry
  pub weak_overflow : ℕ

pub record Conflict : Type 0 where
  pub addr : Addr
  pub macs : List Bytes
  pub first_seen : ℕ
  pub last_seen : ℕ
  pub refs : List Ref

-- A neighbor that advertises itself by LLDP.
pub record Neighbor : Type 0 where
  pub id : Bytes
  pub chassis_id : Bytes
  pub port_id : Bytes
  pub source_mac : Bytes
  pub system_name : Bytes
  pub system_desc : Bytes
  pub port_desc : Bytes
  pub caps : List Bytes
  pub enabled_caps : List Bytes
  pub mgmt_addrs : List Bytes
  pub port_vlan_id : ℕ
  pub vlan_names : List Bytes
  pub max_frame : ℕ
  pub ttl : ℕ
  pub first_seen : ℕ
  pub last_seen : ℕ
  pub ref : Ref

-- `DHCPTransaction`; a time that was never set is `none`.
pub record Transaction : Type 0 where
  pub xid : ℕ
  pub client_mac : Bytes
  pub discover : Option ℕ
  pub offer : Option ℕ
  pub request : Option ℕ
  pub ack : Option ℕ
  pub nak : Option ℕ
  pub offered_ip : Addr
  pub ack_ip : Addr
  pub server_ip : Addr
  pub ref : Ref

pub record Event : Type 0 where
  pub time : ℕ
  pub change : Change
  pub device : Option Device
  pub neighbor : Option Neighbor
  pub conflict : Option Conflict
  pub via : Via
  pub method : Method
  pub address : Addr
  pub vlan : ℕ
  pub ref : Ref
