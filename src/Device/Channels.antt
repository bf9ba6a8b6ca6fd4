-- ===== src/Device/Channels.antt =====
-- `applyCA` of internal/device/epics.go: one observation of Channel Access, folded into the device that
-- sent it and into the EPICS state of the table; and what it shares with `applyPVA`.
use wirepup.Epics.Ca
use wirepup.Base.{
  ℕ, suc, Bool, true, false, Option, none, some, List, [], ◌∷◌, ◌++◌, ◌==◌, if◌then◌else◌, length,
  Bytes,
}
use wirepup.Net.{Addr}
use wirepup.Device.Types.{State, Via, Method, Protocol, Ref, Event}
use wirepup.Device.Record.{add_protocol}
use wirepup.Device.EpicsState.{
  CaResponse, CaSearch, EpicsState, find_by, modify_by, ensure_search, add_unique, is_search,
  is_server, note_ca_server,
}
use wirepup.Device.Table.{Table, touch, add_address}
use wirepup.Device.Steps.{valid_key, ◌then_do◌, change}

-- The MAC address of the frame, where it is the key of a device; `dev` is not nil exactly there.
unfoldable pub sender : Option Bytes → Option Bytes
sender none = none
sender (some mac) = if valid_key mac then some mac else none

-- `mac`, empty without a device.
abbrev pub mac_text : Option Bytes → Bytes
mac_text none = []
mac_text (some mac) = mac

unfoldable pub touch_sender : Option Bytes → ℕ → Ref → Table → Table × List Event
touch_sender none now ref t = (t, [])
touch_sender (some mac) now ref t = touch mac now Via.ethernet ref t

-- `if dev != nil { addProtocol(dev, p) }`
unfoldable pub add_role : Option Bytes → Protocol → Table → Table × List Event
add_role none p t = (t, [])
add_role (some mac) p t = change mac (add_protocol p) t

-- `if dev != nil { t.addAddress(dev, v.Src, StateObserved, via, ...) }`
unfoldable pub observe_sender : Option Bytes → Addr → Via → ℕ → Ref → Table → Table × List Event
observe_sender none src via now ref t = (t, [])
observe_sender (some mac) src via now ref t =
    add_address mac src State.observed via Method.no_method now ref t

-- A write to the EPICS state, which raises no event.
unfoldable pub with_epics : (EpicsState → EpicsState) → Table → Table × List Event
with_epics f t = (record t { epics = f t.epics }, [])

unfoldable pub note_ca_search : Ca.Observation → Bytes → ℕ → Ref → List CaSearch → List CaSearch
note_ca_search v mac now ref l =
    let fresh : CaSearch = record {
      client_ip = v.src;
      client_port = v.src_port;
      client_mac = mac;
      destination = v.dst;
      id = v.search_id;
      pv = v.pv_name;
      count = 0;
      first_seen = now;
      last_seen = now;
      responses = [];
      not_found = [];
      ref = ref;
    } in
    modify_by (is_search v.src v.search_id) (λ s. record s { count = suc s.count; last_seen = now })
      (ensure_search (is_search v.src v.search_id) fresh l)

-- The answer to the search that is found, or to none; `found` is whether it is a search response.
unfoldable pub note_ca_answer :
    Bool → Ca.Observation → Bytes → ℕ → Ref → EpicsState → Option CaSearch → EpicsState
note_ca_answer found v mac now ref e (some s) =
    let resp : CaResponse = record {
      server_ip = v.server_ip;
      server_mac = mac;
      tcp_port = v.server_port;
      at = now;
      ref = ref;
    } in
    let here = is_search v.dst v.search_id in
    if found
    then record e {
      searches =
          modify_by here (λ s. record s { responses = s.responses ++ (resp ∷ []) }) e.searches;
      servers =
          modify_by (is_server v.server_ip v.server_port)
            (λ r. record r { answers = suc r.answers; pvs = add_unique s.pv r.pvs }) e.servers;
    }
    else record e {
      searches =
          modify_by here (λ s. record s { not_found = s.not_found ++ (resp ∷ []) }) e.searches;
    }
note_ca_answer found v mac now ref e none =
    if found
    then record e {
      servers =
          modify_by (is_server v.server_ip v.server_port)
            (λ r. record r { answers = suc r.answers }) e.servers;
    }
    else e

abbrev pub see_ca_server : Ca.Observation → Bytes → ℕ → Ref → EpicsState → EpicsState
see_ca_server v mac now ref e = record e {
  servers = note_ca_server v.server_ip v.server_port mac now ref e.servers;
}

abbrev pub is_udp : Ca.Transport → Bool
is_udp t = elim t [ Ca.Transport.udp ↦ true | Ca.Transport.tcp ↦ false ]

-- A search response, or a message that the channel is not found.
unfoldable pub ca_answered :
    Option Bytes → Bool → Via → Ca.Observation → ℕ → Ref → Table → Table × List Event
ca_answered dev found via v now ref t =
    with_epics (see_ca_server v (mac_text dev) now ref) t
    then_do add_role dev Protocol.ca_server
    then_do (λ t. if is_udp v.transport then observe_sender dev v.src via now ref t else (t, []))
    then_do with_epics (λ e.
      note_ca_answer found v (mac_text dev) now ref e
        (find_by (is_search v.dst v.search_id) e.searches))

unfoldable pub ca_beaconed : Option Bytes → Ca.Observation → ℕ → Ref → Table → Table × List Event
ca_beaconed dev v now ref t =
    with_epics
      (λ e.
        let e' = see_ca_server v (mac_text dev) now ref e in
        record e' {
          servers =
              modify_by (is_server v.server_ip v.server_port)
                (λ s. record s { beacons = suc s.beacons; beacon_id = v.beacon_id }) e'.servers;
        })
      t
    then_do add_role dev Protocol.ca_server
    then_do observe_sender dev v.src Via.ca_beacon now ref

-- The switch of `applyCA`.
unfoldable pub ca_kind :
    Option Bytes → Ca.Observation → Ca.Kind → ℕ → Ref → Table → Table × List Event
ca_kind dev v Ca.Kind.search now ref t =
    add_role dev Protocol.ca_client t
    then_do with_epics (λ e.
      if length v.pv_name == 0
      then e
      else record e { searches = note_ca_search v (mac_text dev) now ref e.searches })
ca_kind dev v Ca.Kind.search_response now ref t =
    ca_answered dev true Via.ca_search_response v now ref t
ca_kind dev v Ca.Kind.create_channel now ref t = add_role dev Protocol.ca_client t
ca_kind dev v Ca.Kind.create_channel_response now ref t = add_role dev Protocol.ca_server t
ca_kind dev v (Ca.Kind.other n) now ref t =
    if n == Ca.cmd_not_found
    then ca_answered dev false Via.ca_not_found v now ref t
    else if n == Ca.cmd_beacon
    then ca_beaconed dev v now ref t
    else if n == Ca.cmd_access_rights
    then add_role dev Protocol.ca_server t
    else (t, [])

unfoldable pub apply_ca : Option Bytes → Ca.Observation → ℕ → Ref → Table → Table × List Event
apply_ca last v now ref t =
    touch_sender (sender last) now ref t then_do ca_kind (sender last) v (Ca.kind_of v) now ref
