-- ===== src/Device/Moves.antt =====
-- The operations of the table of internal/device/device.go keep it valid: `touch`, `addAddress`,
-- `noteClaim`, `addVLAN`, and the writes to a record.
use native.Mathlib.Omega.{arith}
use wirepup.Base.{
  ℕ, Bool, true, false, not, ◌||◌, Option, none, some, List, [], ◌∷◌, ◌++◌, ◌≡◌, refl, Bytes, ltb,
  length,
}
use wirepup.Net.{Addr, is_valid, is_unspecified}
use wirepup.Device.Types.{State, Via, Method, is_strong, Ref, Device, Event, Conflict}
use wirepup.Device.Record.{weak_count, claim_address, add_vlan_record}
use wirepup.Device.Table.{
  Options, Table, find_device, new_record, touch, touch_found, saw, join_claim, note_claim,
  contains, claim_of, add_address, report_address, add_found, add_vlan, vlan_found, report_vlan,
}
use wirepup.Device.Steps.{◌then_do◌, change}
use wirepup.Device.Sound.{Sound}
use wirepup.Device.Addresses.{Distinct}
use wirepup.Device.Valid.{
  Valid, Keeps, modify-Kept, append-Kept, branch, saw-Keeps, timeline-Keeps, vlan_record-Keeps,
  claim_address-Keeps, found-Keeps, found-Sound,
}

-- The table after a step is valid.
abbrev pub Leaves : Table × List Event → Type 0
Leaves r = Valid r.0

abbrev pub Step : (Table → Table × List Event) → Type 0
Step f = (t : Table) → Valid t → Leaves (f t)

pub then_do-Leaves :
    (r : Table × List Event) (f : Table → Table × List Event)
    → Leaves r
    → Step f
    → Leaves (r then_do f)
unfolding ◌then_do◌
then_do-Leaves (t, es) f h k = k t h

pub change-Step : (mac : Bytes) (f : Device → Device) → Keeps mac f → Step (change mac f)
unfolding change Valid
change-Step mac f k t h = modify-Kept mac f k t.devices h

new_record-Sound :
    (o : Options) (mac : Bytes) (now : ℕ) (ref : Ref) → Sound (new_record o mac now ref)
unfolding new_record Distinct weak_count
new_record-Sound o mac now ref = record {
  good4 = record { distinct = tt; bounded = omega arith; of_family = tt; backed = tt };
  good6 = record { distinct = tt; bounded = omega arith; of_family = tt; backed = tt };
}

touch_found-Leaves :
    (mac : Bytes) (now : ℕ) (via : Via) (ref : Ref) (t : Table) (o : Option Device)
    → find_device mac t.devices ≡ o
    → Valid t
    → Leaves (touch_found mac now via ref t o)
unfolding touch_found Valid new_record
touch_found-Leaves mac now via ref t (some d) e h =
    modify-Kept mac (saw now) (saw-Keeps mac now) t.devices h
touch_found-Leaves mac now via ref t none e h =
    append-Kept (new_record t.options mac now ref) t.devices e
      (new_record-Sound t.options mac now ref) h

pub touch-Step : (mac : Bytes) (now : ℕ) (via : Via) (ref : Ref) → Step (touch mac now via ref)
unfolding touch
touch-Step mac now via ref t h =
    touch_found-Leaves mac now via ref t (find_device mac t.devices) refl h

join_claim-Step :
    (mac : Bytes) (now : ℕ) (ref : Ref) (c : Conflict) → Step (join_claim mac now ref c)
unfolding join_claim Valid
join_claim-Step mac now ref c t h =
    branch Leaves (ltb (length (c.macs ++ (mac ∷ []))) 2) h
      (modify-Kept mac _ (timeline-Keeps mac now _ ref) t.devices h)

note_claim-Step :
    (mac : Bytes) (x : Addr) (s : State) (now : ℕ) (ref : Ref) → Step (note_claim mac x s now ref)
unfolding note_claim Valid
note_claim-Step mac x s now ref t h =
    let c = claim_of x now t.claims in
    branch Leaves (not (is_strong s)) h
      (branch Leaves (contains mac c.macs) h (join_claim-Step mac now ref c t h))

report_address-Leaves :
    (mac : Bytes) (x : Addr) (s : State) (via : Via) (how : Method) (now : ℕ) (ref : Ref)
    (t : Table) (r : Device × Bool)
    → r.0.id ≡ mac
    → Sound r.0
    → Valid t
    → Leaves (report_address mac x s via how now ref t r)
unfolding report_address Valid
report_address-Leaves mac x s via how now ref t (d, false) e k h =
    modify-Kept mac _ (found-Keeps mac d e k) t.devices h
report_address-Leaves mac x s via how now ref t (d, true) e k h =
    note_claim-Step mac x s now ref _ (modify-Kept mac _ (found-Keeps mac d e k) t.devices h)

add_found-Leaves :
    (mac : Bytes) (x : Addr) (s : State) (via : Via) (how : Method) (now : ℕ) (ref : Ref)
    (t : Table) (o : Option Device)
    → find_device mac t.devices ≡ o
    → Valid t
    → Leaves (add_found mac x s via how now ref t o)
unfolding add_found Valid
add_found-Leaves mac x s via how now ref t none e h = h
add_found-Leaves mac x s via how now ref t (some d) e h =
    let (i, k) = found-Sound mac d t.devices e h.1 in
    let (i', k') = claim_address-Keeps mac x s via now ref d i k in
    report_address-Leaves mac x s via how now ref t (claim_address x s via now ref d) i' k' h

pub add_address-Step :
    (mac : Bytes) (x : Addr) (s : State) (via : Via) (how : Method) (now : ℕ) (ref : Ref)
    → Step (add_address mac x s via how now ref)
unfolding add_address
add_address-Step mac x s via how now ref t h =
    branch Leaves (not (is_valid x) || is_unspecified x) h
      (add_found-Leaves mac x s via how now ref t (find_device mac t.devices) refl h)

report_vlan-Leaves :
    (mac : Bytes) (id now : ℕ) (ref : Ref) (t : Table) (r : Device × Bool)
    → r.0.id ≡ mac
    → Sound r.0
    → Valid t
    → Leaves (report_vlan mac id now ref t r)
unfolding report_vlan Valid
report_vlan-Leaves mac id now ref t (d, false) e k h = h
report_vlan-Leaves mac id now ref t (d, true) e k h =
    modify-Kept mac _ (found-Keeps mac d e k) t.devices h

vlan_found-Leaves :
    (mac : Bytes) (id now : ℕ) (ref : Ref) (t : Table) (o : Option Device)
    → find_device mac t.devices ≡ o
    → Valid t
    → Leaves (vlan_found mac id now ref t o)
unfolding vlan_found Valid
vlan_found-Leaves mac id now ref t none e h = h
vlan_found-Leaves mac id now ref t (some d) e h =
    let (i, k) = found-Sound mac d t.devices e h.1 in
    let (i', k') = vlan_record-Keeps mac id now ref d i k in
    report_vlan-Leaves mac id now ref t (add_vlan_record id now ref d) i' k' h

pub add_vlan-Step : (mac : Bytes) (id now : ℕ) (ref : Ref) → Step (add_vlan mac id now ref)
unfolding add_vlan
add_vlan-Step mac id now ref t h =
    vlan_found-Leaves mac id now ref t (find_device mac t.devices) refl h
