-- ===== src/Device/Leases.antt =====
-- `applyDHCP`, `applyDHCPServer`, `serverAddr` and `transaction` of internal/device/device.go.
use wirepup.Base.{
  ℕ, Bool, not, ◌&&◌, ◌||◌, Option, none, some, List, [], ◌∷◌, ◌==◌, if◌then◌else◌, length, ltb,
  Bytes,
}
use wirepup.Net.{Addr, is_valid, is_unspecified, bytes_eq}
use wirepup.Protocol.Dhcpv4.{Message}
use wirepup.Device.Types.{State, Via, Method, Protocol, Ref, Line, Transaction, Event}
use wirepup.Device.Record.{add_timeline, add_protocol, add_name}
use wirepup.Device.Table.{Table, touch, add_address}
use wirepup.Device.Steps.{valid_key, usable_ipv4, ◌then_do◌, change}

unfoldable pub is_transaction : ℕ → Bytes → Transaction → Bool
is_transaction xid mac x = x.xid == xid && bytes_eq x.client_mac mac

-- A write through the pointer that `transaction` returns, to a new entry where there is none.
unfoldable pub put_transaction :
    ℕ → Bytes → Ref → (Transaction → Transaction) → List Transaction → List Transaction
put_transaction xid mac ref f [] =
    f (record {
      xid = xid;
      client_mac = mac;
      discover = none;
      offer = none;
      request = none;
      ack = none;
      nak = none;
      offered_ip = Addr.invalid;
      ack_ip = Addr.invalid;
      server_ip = Addr.invalid;
      ref = ref;
    })
    ∷ []
put_transaction xid mac ref f (x ∷ xs) =
    if is_transaction xid mac x then f x ∷ xs else x ∷ put_transaction xid mac ref f xs

unfoldable pub transact : ℕ → Bytes → Ref → (Transaction → Transaction) → Table → Table × List Event
transact xid mac ref f t = (record t { dhcp = put_transaction xid mac ref f t.dhcp }, [])

-- An address, or another where it says nothing.
unfoldable pub or_else : Addr → Addr → Addr
or_else a b = if not (is_valid a) || is_unspecified a then b else a

unfoldable pub server_addr : Message → Addr → Addr
server_addr m src =
    if is_valid m.server_id && not (is_unspecified m.server_id) then m.server_id else src

-- `addAddress` of the server's address, where it is usable.
unfoldable pub note_server : Bytes → Addr → ℕ → Ref → Table → Table × List Event
note_server mac a now ref t =
    if usable_ipv4 a
    then add_address mac a State.observed Via.dhcp_server Method.no_method now ref t
    else (t, [])

unfoldable pub apply_dhcp_server :
    Option Bytes → Message → Addr → ℕ → Ref → Table → Table × List Event
apply_dhcp_server none m src now ref t = (t, [])
apply_dhcp_server (some mac) m src now ref t =
    if not (valid_key mac)
    then (t, [])
    else touch mac now Via.dhcp_server ref t
      then_do change mac (add_protocol Protocol.dhcp_server_role)
      then_do note_server mac (server_addr m src) now ref

-- The switch of `applyDHCP` on the message type; a type of no case has made the transaction already.
unfoldable pub apply_dhcp_type :
    Option Bytes → Message → Addr → ℕ → Ref → Table → Table × List Event
apply_dhcp_type last m src now ref t =
    let mac = m.client_mac in
    let server = server_addr m src in
    if m.message_type == 1
    then (transact m.xid mac ref (λ x. record x { discover = some now }) t
        then_do change mac (add_timeline now Line.dhcp_discover ref))
    else if m.message_type == 3
    then (transact m.xid mac ref (λ x. record x { request = some now }) t
        then_do change mac
            (add_timeline now (Line.dhcp_request (or_else m.requested_ip m.client_ip)) ref))
    else if m.message_type == 2
    then (transact m.xid mac ref
          (λ x. record x { offer = some now; offered_ip = m.your_ip; server_ip = server }) t
        then_do change mac (add_timeline now (Line.dhcp_offer m.your_ip server) ref)
        then_do apply_dhcp_server last m src now ref)
    else if m.message_type == 5
    then (transact m.xid mac ref
          (λ x. record x {
            ack = some now;
            ack_ip = or_else m.your_ip m.client_ip;
            server_ip = server;
          })
          t
        then_do add_address mac (or_else m.your_ip m.client_ip) State.leased Via.dhcp_ack
            Method.dhcp_lease now ref
        then_do apply_dhcp_server last m src now ref)
    else if m.message_type == 6
    then (transact m.xid mac ref (λ x. record x { nak = some now; server_ip = server }) t
        then_do change mac (add_timeline now (Line.dhcp_nak server) ref)
        then_do apply_dhcp_server last m src now ref)
    else (t, [])

unfoldable pub apply_dhcp : Option Bytes → Message → Addr → ℕ → Ref → Table → Table × List Event
apply_dhcp last m src now ref t =
    let mac = m.client_mac in
    if not (valid_key mac)
    then (t, [])
    else touch mac now Via.dhcp_client ref t
      then_do change mac (add_protocol Protocol.dhcp)
      then_do change mac (
          if ltb 0 (length m.hostname) then add_name m.hostname Via.dhcp_client ref now else λ d. d)
      then_do transact m.xid mac ref (λ x. x)
      then_do apply_dhcp_type last m src now ref
