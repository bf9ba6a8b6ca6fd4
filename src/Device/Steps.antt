-- ===== src/Device/Steps.antt =====
-- What the handlers of internal/device/device.go share: the tests of MAC and IP addresses, and two
-- steps on the table one after the other.
use wirepup.Base.{Bool, true, not, ◌&&◌, List, [], ◌∷◌, ◌++◌, ◌==◌, has_bit, length, byte, Bytes}
use wirepup.Net.{Addr, addr_eq, is_valid, is4, is6, is_unspecified, is_multicast, is_loopback}
use wirepup.Device.Types.{Device, Event}
use wirepup.Device.Table.{Table, modify}

unfoldable pub is_unicast : Bytes → Bool
is_unicast a = length a == 6 && not (has_bit (byte a 0) 0)

unfoldable pub is_zero : Bytes → Bool
is_zero [] = true
is_zero (b ∷ bs) = b == 0 && is_zero bs

unfoldable pub valid_key : Bytes → Bool
unfolding is_unicast is_zero
valid_key mac = is_unicast mac && not (is_zero mac)

unfoldable pub usable_ipv4 : Addr → Bool
usable_ipv4 a =
    is_valid a
    && is4 a
    && not (is_unspecified a)
    && not (is_multicast a)
    && not (is_loopback a)
    && not (addr_eq a (Addr.v4 0xffffffff))

unfoldable pub usable_ipv6 : Addr → Bool
usable_ipv6 a =
    is_valid a && is6 a && not (is_unspecified a) && not (is_multicast a) && not (is_loopback a)

-- Two steps on the table, with the events of both in order.
infixl 4 ◌then_do◌
unfoldable pub ◌then_do◌ : Table × List Event → (Table → Table × List Event) → Table × List Event
(t, events) then_do f = let (t', more) = f t in (t', events ++ more)

-- A write to the device with the key, which raises no event.
unfoldable pub change : Bytes → (Device → Device) → Table → Table × List Event
change mac f t = (record t { devices = modify mac f t.devices }, [])
