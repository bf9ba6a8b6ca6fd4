-- ===== src/Device/EpicsState.antt =====
-- The EPICS state of the table, `caState` of internal/device/epics.go: the searches of clients with the
-- answers they got, and the servers. Go keeps a record behind one pointer, which a map by key and a
-- list share; here the list holds the records, and a write by key changes the first one that has it.
use wirepup.Base.{
  ℕ, Bool, true, false, ◌&&◌, Option, none, some, List, [], ◌∷◌, ◌++◌, ltb, ◌==◌, if◌then◌else◌,
  length, drop, Bytes,
}
use wirepup.Net.{Addr, addr_eq, bytes_eq}
use wirepup.Device.Types.{Ref}

-- `CAResponse`
pub record CaResponse : Type 0 where
  pub server_ip : Addr
  pub server_mac : Bytes
  pub tcp_port : ℕ
  pub at : ℕ
  pub ref : Ref

-- `CASearch`
pub record CaSearch : Type 0 where
  pub client_ip : Addr
  pub client_port : ℕ
  pub client_mac : Bytes
  pub destination : Addr
  pub id : ℕ
  pub pv : Bytes
  pub count : ℕ
  pub first_seen : ℕ
  pub last_seen : ℕ
  pub responses : List CaResponse
  pub not_found : List CaResponse
  pub ref : Ref

-- `CAServer`
pub record CaServer : Type 0 where
  pub addr : Addr
  pub tcp_port : ℕ
  pub mac : Bytes
  pub pvs : List Bytes
  pub answers : ℕ
  pub beacons : ℕ
  pub beacon_id : ℕ
  pub first_seen : ℕ
  pub last_seen : ℕ
  pub ref : Ref

-- `PVAResponse`
pub record PvaResponse : Type 0 where
  pub guid : Bytes
  pub server_addr : Addr
  pub server_port : ℕ
  pub server_mac : Bytes
  pub at : ℕ
  pub ref : Ref

-- `PVASearch`
pub record PvaSearch : Type 0 where
  pub client_ip : Addr
  pub client_port : ℕ
  pub client_mac : Bytes
  pub sequence_id : ℕ
  pub instance_id : ℕ
  pub pv : Bytes
  pub count : ℕ
  pub first_seen : ℕ
  pub last_seen : ℕ
  pub responses : List PvaResponse
  pub not_found : List PvaResponse
  pub ref : Ref

-- `PVAServer`
pub record PvaServer : Type 0 where
  pub guid : Bytes
  pub addr : Addr
  pub tcp_port : ℕ
  pub mac : Bytes
  pub protocol : Bytes
  pub pvs : List Bytes
  pub answers : ℕ
  pub beacons : ℕ
  pub beacon_seq : ℕ
  pub change_count : ℕ
  pub first_seen : ℕ
  pub last_seen : ℕ
  pub ref : Ref

pub record EpicsState : Type 0 where
  pub searches : List CaSearch
  pub servers : List CaServer
  pub pva_searches : List PvaSearch
  pub pva_servers : List PvaServer

abbrev pub no_epics : EpicsState
no_epics = record { searches = []; servers = []; pva_searches = []; pva_servers = [] }

abbrev pub max_searches : ℕ
max_searches = 10000

-- The record of a key, and a write through its pointer.
unfoldable pub find_by {ℓ} : {A : Type ℓ} → (A → Bool) → List A → Option A
find_by p [] = none
find_by p (x ∷ xs) = if p x then some x else find_by p xs

unfoldable pub modify_by {ℓ} : {A : Type ℓ} → (A → Bool) → (A → A) → List A → List A
modify_by p f [] = []
modify_by p f (x ∷ xs) = if p x then f x ∷ xs else x ∷ modify_by p f xs

-- A new record at the end where the key has none.
unfoldable pub ensure {ℓ} : {A : Type ℓ} → (A → Bool) → A → List A → List A
unfolding find_by
ensure p x xs = elim (find_by p xs) [ some _ ↦ xs | none ↦ xs ++ (x ∷ []) ]

-- The same for searches, whose oldest one is dropped where they are too many.
unfoldable pub ensure_search {ℓ} : {A : Type ℓ} → (A → Bool) → A → List A → List A
unfolding find_by
ensure_search p x xs = elim (find_by p xs) [
  | some _ ↦ xs
  | none ↦ let more = xs ++ (x ∷ []) in if ltb max_searches (length more) then drop 1 more else more
]

-- The order of strings by their bytes, and `sort.Strings`.
unfoldable pub not_above : Bytes → Bytes → Bool
not_above [] b = true
not_above (x ∷ a) [] = false
not_above (x ∷ a) (y ∷ b) = if x == y then not_above a b else ltb x y

unfoldable pub insert_string : Bytes → List Bytes → List Bytes
unfolding not_above
insert_string v [] = v ∷ []
insert_string v (x ∷ xs) = if not_above v x then v ∷ x ∷ xs else x ∷ insert_string v xs

unfoldable pub sort_strings : List Bytes → List Bytes
unfolding insert_string
sort_strings [] = []
sort_strings (x ∷ xs) = insert_string x (sort_strings xs)

unfoldable pub add_unique : Bytes → List Bytes → List Bytes
unfolding sort_strings find_by
add_unique v l = elim (find_by (bytes_eq v) l) [ some _ ↦ l | none ↦ sort_strings (l ++ (v ∷ [])) ]

-- `searchKey`, `serverKey`, `pvaSearchKey` and the GUID, each as the test for it.
abbrev pub is_search : Addr → ℕ → CaSearch → Bool
is_search client id s = addr_eq s.client_ip client && s.id == id

abbrev pub is_server : Addr → ℕ → CaServer → Bool
is_server addr port s = addr_eq s.addr addr && s.tcp_port == port

abbrev pub is_pva_search : Addr → ℕ → ℕ → PvaSearch → Bool
is_pva_search client seq inst s =
    addr_eq s.client_ip client && s.sequence_id == seq && s.instance_id == inst

abbrev pub is_pva_server : Bytes → PvaServer → Bool
is_pva_server guid s = bytes_eq s.guid guid

-- `if s.MAC == "" { s.MAC = mac }`
abbrev pub filled : Bytes → Bytes → Bytes
filled mac old = if length old == 0 then mac else old

-- `caServer`
unfoldable pub note_ca_server : Addr → ℕ → Bytes → ℕ → Ref → List CaServer → List CaServer
unfolding ensure modify_by
note_ca_server addr port mac now ref l =
    let fresh : CaServer = record {
      addr = addr;
      tcp_port = port;
      mac = mac;
      pvs = [];
      answers = 0;
      beacons = 0;
      beacon_id = 0;
      first_seen = now;
      last_seen = now;
      ref = ref;
    } in
    modify_by (is_server addr port) (λ s. record s { mac = filled mac s.mac; last_seen = now })
      (ensure (is_server addr port) fresh l)

-- `pvaServer`
unfoldable pub note_pva_server :
    Bytes → Addr → ℕ → Bytes → Bytes → ℕ → Ref → List PvaServer → List PvaServer
unfolding ensure modify_by
note_pva_server guid addr port protocol mac now ref l =
    let fresh : PvaServer = record {
      guid = guid;
      addr = addr;
      tcp_port = port;
      mac = mac;
      protocol = protocol;
      pvs = [];
      answers = 0;
      beacons = 0;
      beacon_seq = 0;
      change_count = 0;
      first_seen = now;
      last_seen = now;
      ref = ref;
    } in
    modify_by (is_pva_server guid) (λ s. record s { mac = filled mac s.mac; last_seen = now })
      (ensure (is_pva_server guid) fresh l)
