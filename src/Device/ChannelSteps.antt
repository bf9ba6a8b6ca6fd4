-- ===== src/Device/ChannelSteps.antt =====
-- `applyCA` and `applyPVA` of internal/device/epics.go keep the table valid.
use wirepup.Epics.Ca
use wirepup.Epics.Pva
use wirepup.Epics.Pva.Observations
use wirepup.Base.{ℕ, Bool, Option, none, some, Bytes, ◌==◌}
use wirepup.Net.{Addr}
use wirepup.Device.Types.{Via, Protocol, Ref}
use wirepup.Device.EpicsState.{EpicsState}
use wirepup.Device.Valid.{Valid, branch, protocol-Keeps}
use wirepup.Device.Moves.{Leaves, Step, then_do-Leaves, change-Step, touch-Step, add_address-Step}
use wirepup.Device.Channels.{
  sender, touch_sender, add_role, observe_sender, with_epics, is_udp, ca_answered, ca_beaconed,
  ca_kind, apply_ca,
}
use wirepup.Device.PvaChannels.{is_pva_udp, pva_answered, pva_beaconed, pva_kind, apply_pva}

touch_sender-Step : (dev : Option Bytes) (now : ℕ) (ref : Ref) → Step (touch_sender dev now ref)
unfolding touch_sender
touch_sender-Step none now ref t h = h
touch_sender-Step (some mac) now ref t h = touch-Step mac now Via.ethernet ref t h

add_role-Step : (dev : Option Bytes) (p : Protocol) → Step (add_role dev p)
unfolding add_role
add_role-Step none p t h = h
add_role-Step (some mac) p t h = change-Step mac _ (protocol-Keeps mac p) t h

observe_sender-Step :
    (dev : Option Bytes) (src : Addr) (via : Via) (now : ℕ) (ref : Ref)
    → Step (observe_sender dev src via now ref)
unfolding observe_sender
observe_sender-Step none src via now ref t h = h
observe_sender-Step (some mac) src via now ref t h = add_address-Step mac src _ via _ now ref t h

-- The EPICS state is no part of what is valid.
with_epics-Step : (f : EpicsState → EpicsState) → Step (with_epics f)
unfolding with_epics Valid
with_epics-Step f t h = h

module _ (dev : Option Bytes) (now : ℕ) (ref : Ref) where
  ca_answered-Step :
      (found : Bool) (via : Via) (v : Ca.Observation) → Step (ca_answered dev found via v now ref)
  unfolding ca_answered
  ca_answered-Step found via v t h =
      then_do-Leaves _ _
        (then_do-Leaves _ _
          (then_do-Leaves _ _ (with_epics-Step _ t h) (add_role-Step dev Protocol.ca_server))
          (λ t h.
            branch Leaves (is_udp v.transport) (observe_sender-Step dev v.src via now ref t h) h))
        (with_epics-Step _)

  ca_beaconed-Step : (v : Ca.Observation) → Step (ca_beaconed dev v now ref)
  unfolding ca_beaconed
  ca_beaconed-Step v t h =
      then_do-Leaves _ _
        (then_do-Leaves _ _ (with_epics-Step _ t h) (add_role-Step dev Protocol.ca_server))
        (observe_sender-Step dev v.src Via.ca_beacon now ref)

  ca_kind-Step : (v : Ca.Observation) (k : Ca.Kind) → Step (ca_kind dev v k now ref)
  unfolding ca_kind
  ca_kind-Step v Ca.Kind.search t h =
      then_do-Leaves _ _ (add_role-Step dev Protocol.ca_client t h) (with_epics-Step _)
  ca_kind-Step v Ca.Kind.search_response t h = ca_answered-Step _ _ v t h
  ca_kind-Step v Ca.Kind.create_channel t h = add_role-Step dev Protocol.ca_client t h
  ca_kind-Step v Ca.Kind.create_channel_response t h = add_role-Step dev Protocol.ca_server t h
  ca_kind-Step v (Ca.Kind.other n) t h =
      branch Leaves (n == Ca.cmd_not_found) (ca_answered-Step _ _ v t h) (
        branch Leaves (n == Ca.cmd_beacon) (ca_beaconed-Step v t h)
          (branch Leaves (n == Ca.cmd_access_rights) (add_role-Step dev Protocol.ca_server t h) h))

  pva_answered-Step : (v : Pva.Observations.Observation) → Step (pva_answered dev v now ref)
  unfolding pva_answered
  pva_answered-Step v t h =
      then_do-Leaves _ _
        (then_do-Leaves _ _
          (then_do-Leaves _ _ (with_epics-Step _ t h) (add_role-Step dev Protocol.pva_server))
          (λ t h.
            branch Leaves (is_pva_udp v.transport) (observe_sender-Step dev v.src _ now ref t h) h))
        (with_epics-Step _)

  pva_beaconed-Step : (v : Pva.Observations.Observation) → Step (pva_beaconed dev v now ref)
  unfolding pva_beaconed
  pva_beaconed-Step v t h =
      then_do-Leaves _ _
        (then_do-Leaves _ _ (with_epics-Step _ t h) (add_role-Step dev Protocol.pva_server))
        (observe_sender-Step dev v.src Via.pva_beacon now ref)

  pva_kind-Step :
      (v : Pva.Observations.Observation) (k : Pva.Observations.Kind)
      → Step (pva_kind dev v k now ref)
  unfolding pva_kind
  pva_kind-Step v (Pva.Observations.Kind.control n) t h = h
  pva_kind-Step v Pva.Observations.Kind.create_channel t h =
      add_role-Step dev Protocol.pva_client t h
  pva_kind-Step v Pva.Observations.Kind.create_channel_response t h =
      add_role-Step dev Protocol.pva_server t h
  pva_kind-Step v Pva.Observations.Kind.validation_request t h =
      add_role-Step dev Protocol.pva_server t h
  pva_kind-Step v Pva.Observations.Kind.validation_response t h =
      add_role-Step dev Protocol.pva_client t h
  pva_kind-Step v (Pva.Observations.Kind.other n) t h =
      branch Leaves (n == 3)
        (then_do-Leaves _ _ (add_role-Step dev Protocol.pva_client t h) (with_epics-Step _))
        (branch Leaves (n == 4) (pva_answered-Step v t h)
          (branch Leaves (n == 0) (pva_beaconed-Step v t h) h))

pub apply_ca-Step :
    (last : Option Bytes) (v : Ca.Observation) (now : ℕ) (ref : Ref)
    → Step (apply_ca last v now ref)
unfolding apply_ca
apply_ca-Step last v now ref t h =
    then_do-Leaves _ _ (touch_sender-Step (sender last) now ref t h)
      (ca_kind-Step (sender last) now ref v (Ca.kind_of v))

pub apply_pva-Step :
    (last : Option Bytes) (v : Pva.Observations.Observation) (now : ℕ) (ref : Ref)
    → Step (apply_pva last v now ref)
unfolding apply_pva
apply_pva-Step last v now ref t h =
    then_do-Leaves _ _ (touch_sender-Step (sender last) now ref t h)
      (pva_kind-Step (sender last) now ref v (Pva.Observations.kind_of v))
