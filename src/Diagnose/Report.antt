-- ===== src/Diagnose/Report.antt =====
-- internal/diagnose/diagnose.go: the subnet rules. A finding keeps its code, its evidence and the MAC
-- address and the address that it is about; its text, which only prints them, is left out.
use wirepup.Base.{
  ◌-◌, ◌/◌, ◌^◌, ◌*◌, Bool, true, false, not, ◌||◌, Option, none, some, List, [], ◌∷◌, ◌++◌, ◌==◌,
  if◌then◌else◌, Bytes, Go, ret, ◌>>=◌,
}
use wirepup.Net.{Addr, addr_eq, is_valid}
use wirepup.Device.Types.{Ref, is_strong, Address, Device, Conflict}
use wirepup.Diagnose.Candidate.{Prefix, Context, assumed_prefix, candidate}

pub data Code : Type 0 where
  local_context l2_evidence address_claim outside_local_subnet same_l2_diff_subnet : Code
  temporary_address duplicate_address target_not_observed target_on_local_subnet no_local_ipv4 :
      Code

pub record Finding : Type 0 where
  pub code : Code
  pub evidence : List Ref
  pub mac : Bytes
  pub address : Addr

-- Without the name of the interface, which is only printed, and the executed actions, which no rule adds.
pub record Report : Type 0 where
  pub target : Addr
  pub target_seen : Bool
  pub observed : List Finding
  pub inferred : List Finding
  pub recommended : List Finding

abbrev pub observe : Finding → Report → Report
observe f r = record r { observed = r.observed ++ (f ∷ []) }

abbrev pub infer : Finding → Report → Report
infer f r = record r { inferred = r.inferred ++ (f ∷ []) }

abbrev pub recommend : Finding → Report → Report
recommend f r = record r { recommended = r.recommended ++ (f ∷ []) }

-- A finding about no single device.
abbrev pub general : Code → List Ref → Addr → Finding
general code evidence address = record {
  code = code;
  evidence = evidence;
  mac = [];
  address = address;
}

-- `Contains`, for a prefix of IPv4.
unfoldable pub covers : Prefix → Addr → Bool
covers p Addr.invalid = false
covers p (Addr.v6 a) = false
covers p (Addr.v4 a) = elim p.addr [
  | Addr.v4 b ↦ a / 2 ^ (32 - p.bits) == b / 2 ^ (32 - p.bits)
  | _ ↦ false
]

unfoldable pub containing : List Prefix → Addr → Option Prefix
containing [] a = none
containing (p ∷ ps) a = if covers p a then some p else containing ps a

unfoldable pub observe_context : Context → Report → Report
observe_context c r = elim c.local_ipv4 [
  | [] ↦ observe (general no_local_ipv4 [] Addr.invalid) r
  | _ ∷ _ ↦ observe (general local_context [] Addr.invalid) r
]

-- `netip.PrefixFrom(a, AssumedPrefixBits).Masked()`
unfoldable pub prefix_around : Addr → Prefix
prefix_around Addr.invalid = record { addr = Addr.invalid; bits = 0 }
prefix_around (Addr.v4 a) = assumed_prefix a
prefix_around (Addr.v6 a) = record { addr = Addr.v6 (a / 2 ^ 104 * 2 ^ 104); bits = 24 }

abbrev pub suggestion : Option Addr → Addr
suggestion none = Addr.invalid
suggestion (some a) = a

abbrev pub about : Code → Device → Address → Finding
about code d a = record { code = code; evidence = a.ref ∷ []; mac = d.id; address = a.addr }

abbrev pub claimed : Device → Address → Report → Report
claimed d a r = observe (about address_claim d a) (observe (about l2_evidence d a) r)

-- The part of `evaluateAddress` for an address that no local prefix contains.
unfoldable pub outside : Context → Device → Address → List Device → Report → Go Report
outside c d a devices r = do
  o ← candidate (prefix_around a.addr) c devices
  ret (
      recommend (general temporary_address (a.ref ∷ []) (suggestion o))
        (infer (about same_l2_diff_subnet d a) (infer (about outside_local_subnet d a) r)))

unfoldable pub evaluate_found :
    Context → Device → Address → List Device → Report → Option Prefix → Go Report
evaluate_found c d a devices r (some p) = ret (infer (about target_on_local_subnet d a) r)
evaluate_found c d a devices r none = outside c d a devices r

unfoldable pub evaluate_address : Context → Device → Address → List Device → Report → Go Report
evaluate_address c d a devices r = elim c.local_ipv4 [
  | [] ↦ ret (claimed d a r)
  | _ ∷ _ ↦ evaluate_found c d a devices (claimed d a r) (containing c.local_ipv4 a.addr)
]

-- The body of the loop of `Run` over the addresses, and that of `diagnoseTarget`.
unfoldable pub evaluate_strong : Context → List Device → Device → Address → Report → Go Report
evaluate_strong c devices d a r =
    if not (is_strong a.state) || d.is_local then ret r else evaluate_address c d a devices r

unfoldable pub evaluate_target : Context → List Device → Device → Address → Report → Go Report
evaluate_target c devices d a r =
    if not (addr_eq a.addr r.target) || not (is_strong a.state)
    then ret r
    else evaluate_address c d a devices (record r { target_seen = true })

unfoldable pub each_address :
    (Device → Address → Report → Go Report) → Device → List Address → Report → Go Report
each_address body d [] r = ret r
each_address body d (a ∷ rest) r = do r' ← body d a r; each_address body d rest r'

unfoldable pub each_device :
    (Device → Address → Report → Go Report) → List Device → Report → Go Report
each_device body [] r = ret r
each_device body (d ∷ ds) r = do r' ← each_address body d d.ipv4 r; each_device body ds r'

unfoldable pub report_conflicts : List Conflict → Report → Report
report_conflicts [] r = r
report_conflicts (c ∷ cs) r = report_conflicts cs (
    infer (general duplicate_address c.refs c.addr)
      (observe (general duplicate_address c.refs c.addr) r))

unfoldable pub conflicts_on : Addr → List Conflict → List Conflict
conflicts_on x [] = []
conflicts_on x (c ∷ cs) = if addr_eq c.addr x then c ∷ conflicts_on x cs else conflicts_on x cs

unfoldable pub note_unseen : Report → Report
note_unseen r =
    if r.target_seen
    then r
    else infer (general target_not_observed [] r.target)
        (observe (general target_not_observed [] r.target) r)

unfoldable pub diagnose_target : Context → List Device → List Conflict → Report → Go Report
diagnose_target c devices conflicts r = do
  r' ← each_device (evaluate_target c devices) devices r
  ret (report_conflicts (conflicts_on r.target conflicts) (note_unseen r'))

-- `Run`, for what `Devices` and `Conflicts` of the table return.
unfoldable pub run : Context → List Device → List Conflict → Addr → Go Report
run c devices conflicts target =
    let r : Report = observe_context c (record {
      target = target;
      target_seen = false;
      observed = [];
      inferred = [];
      recommended = [];
    }) in
    if is_valid target then diagnose_target c devices conflicts r else do
      r' ← each_device (evaluate_strong c devices) devices r
      ret (report_conflicts conflicts r')
