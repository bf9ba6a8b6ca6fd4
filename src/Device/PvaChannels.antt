-- ===== src/Device/PvaChannels.antt =====
-- `applyPVA` of internal/device/epics.go: one observation of pvAccess, folded into the device that sent
-- it and into the EPICS state of the table.
use wirepup.Epics.Pva
use wirepup.Epics.Pva.Observations
use wirepup.Base.{
  ℕ, suc, Bool, true, false, Option, none, some, List, [], ◌∷◌, ◌++◌, ◌==◌, if◌then◌else◌, length,
  Bytes,
}
use wirepup.Device.Types.{Via, Protocol, Ref, Event}
use wirepup.Device.EpicsState.{
  PvaResponse, PvaSearch, EpicsState, find_by, modify_by, ensure_search, add_unique, is_pva_search,
  is_pva_server, note_pva_server,
}
use wirepup.Device.Table.{Table}
use wirepup.Device.Steps.{◌then_do◌}
use wirepup.Device.Channels.{sender, mac_text, touch_sender, add_role, observe_sender, with_epics}

abbrev pub is_pva_udp : Pva.Observations.Transport → Bool
is_pva_udp t = elim t [
  | Pva.Observations.Transport.udp ↦ true
  | Pva.Observations.Transport.tcp ↦ false
]

-- The loop over the channels of a search.
unfoldable pub note_pva_searches :
    Pva.Observations.Observation
    → Bytes
    → ℕ
    → Ref
    → List Pva.Observations.Channel
    → List PvaSearch
    → List PvaSearch
note_pva_searches v mac now ref [] l = l
note_pva_searches v mac now ref (ch ∷ chs) l =
    let here = is_pva_search v.src v.sequence_id ch.id in
    let fresh : PvaSearch = record {
      client_ip = v.src;
      client_port = v.src_port;
      client_mac = mac;
      sequence_id = v.sequence_id;
      instance_id = ch.id;
      pv = ch.name;
      count = 0;
      first_seen = now;
      last_seen = now;
      responses = [];
      not_found = [];
      ref = ref;
    } in
    note_pva_searches v mac now ref chs (
      if length ch.name == 0
      then l
      else modify_by here (λ s. record s { count = suc s.count; last_seen = now })
          (ensure_search here fresh l))

-- The answer to the search that is found, or to none.
unfoldable pub note_pva_answer :
    Pva.Observations.Observation → ℕ → PvaResponse → EpicsState → Option PvaSearch → EpicsState
note_pva_answer v id resp e none = e
note_pva_answer v id resp e (some s) =
    let here = is_pva_search v.dst v.sequence_id id in
    if v.found
    then record e {
      pva_searches =
          modify_by here (λ s. record s { responses = s.responses ++ (resp ∷ []) }) e.pva_searches;
      pva_servers =
          modify_by (is_pva_server v.guid)
            (λ r. record r { answers = suc r.answers; pvs = add_unique s.pv r.pvs }) e.pva_servers;
    }
    else record e {
      pva_searches =
          modify_by here (λ s. record s { not_found = s.not_found ++ (resp ∷ []) }) e.pva_searches;
    }

-- The loop over the ids of a search response.
unfoldable pub note_pva_answers :
    Pva.Observations.Observation → PvaResponse → List ℕ → EpicsState → EpicsState
note_pva_answers v resp [] e = e
note_pva_answers v resp (id ∷ ids) e =
    note_pva_answers v resp ids
      (note_pva_answer v id resp e (find_by (is_pva_search v.dst v.sequence_id id) e.pva_searches))

abbrev pub see_pva_server : Pva.Observations.Observation → Bytes → ℕ → Ref → EpicsState → EpicsState
see_pva_server v mac now ref e = record e {
  pva_servers =
      note_pva_server v.guid v.server_addr v.server_port v.protocol mac now ref e.pva_servers;
}

unfoldable pub pva_answered :
    Option Bytes → Pva.Observations.Observation → ℕ → Ref → Table → Table × List Event
pva_answered dev v now ref t =
    let resp : PvaResponse = record {
      guid = v.guid;
      server_addr = v.server_addr;
      server_port = v.server_port;
      server_mac = mac_text dev;
      at = now;
      ref = ref;
    } in
    with_epics (see_pva_server v (mac_text dev) now ref) t
    then_do add_role dev Protocol.pva_server
    then_do (λ t.
        if is_pva_udp v.transport
        then observe_sender dev v.src Via.pva_search_response now ref t
        else (t, []))
    then_do with_epics (note_pva_answers v resp v.instance_ids)

unfoldable pub pva_beaconed :
    Option Bytes → Pva.Observations.Observation → ℕ → Ref → Table → Table × List Event
pva_beaconed dev v now ref t =
    with_epics
      (λ e.
        let e' = see_pva_server v (mac_text dev) now ref e in
        record e' {
          pva_servers =
              modify_by (is_pva_server v.guid)
                (λ s. record s {
                  beacons = suc s.beacons;
                  beacon_seq = v.beacon_seq;
                  change_count = v.change_count;
                })
                e'.pva_servers;
        })
      t
    then_do add_role dev Protocol.pva_server
    then_do observe_sender dev v.src Via.pva_beacon now ref

-- The switch of `applyPVA`.
unfoldable pub pva_kind :
    Option Bytes
    → Pva.Observations.Observation
    → Pva.Observations.Kind
    → ℕ
    → Ref
    → Table
    → Table × List Event
pva_kind dev v (Pva.Observations.Kind.control n) now ref t = (t, [])
pva_kind dev v Pva.Observations.Kind.create_channel now ref t = add_role dev Protocol.pva_client t
pva_kind dev v Pva.Observations.Kind.create_channel_response now ref t =
    add_role dev Protocol.pva_server t
pva_kind dev v Pva.Observations.Kind.validation_request now ref t =
    add_role dev Protocol.pva_server t
pva_kind dev v Pva.Observations.Kind.validation_response now ref t =
    add_role dev Protocol.pva_client t
pva_kind dev v (Pva.Observations.Kind.other n) now ref t =
    if n == 3
    then (add_role dev Protocol.pva_client t
        then_do with_epics (λ e. record e {
          pva_searches = note_pva_searches v (mac_text dev) now ref v.channels e.pva_searches;
        }))
    else if n == 4
    then pva_answered dev v now ref t
    else if n == 0
    then pva_beaconed dev v now ref t
    else (t, [])

unfoldable pub apply_pva :
    Option Bytes → Pva.Observations.Observation → ℕ → Ref → Table → Table × List Event
apply_pva last v now ref t =
    touch_sender (sender last) now ref t
    then_do pva_kind (sender last) v (Pva.Observations.kind_of v) now ref
