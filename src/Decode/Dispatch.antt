-- ===== src/Decode/Dispatch.antt =====
-- The dispatch of internal/decode/decode.go over the layers of one frame: each part returns, its
-- observations cite the packet, and the counters stay.
use wirepup.Protocol.Dhcpv4
use wirepup.Protocol.Dhcpv4.Total.{DhcpSpec, parse-DhcpSpec}
use wirepup.Protocol.Ethernet
use wirepup.Protocol.Arp
use wirepup.Protocol.Arp.Fields.{ArpSpec, parse-ArpSpec}
use wirepup.Protocol.Lldp
use wirepup.Protocol.Lldp.Mandatory.{parse-mandatory}
use wirepup.Protocol.Ipv4
use wirepup.Protocol.Ipv4.Payload.{Ipv4Spec, parse-Ipv4Spec}
use wirepup.Protocol.Ipv6
use wirepup.Protocol.Ipv6.Walk.{Ipv6Spec, parse-Ipv6Spec}
use wirepup.Protocol.Icmpv6
use wirepup.Protocol.Icmpv6.Total.{Icmpv6Spec, parse-Icmpv6Spec}
use wirepup.Protocol.Udp
use wirepup.Protocol.Udp.Payload.{UdpSpec, parse-UdpSpec}
use wirepup.Protocol.Tcp
use wirepup.Protocol.Tcp.Payload.{TcpSpec, parse-TcpSpec}
use wirepup.Epics.Ca
use wirepup.Epics.Pva
use wirepup.Epics.Ca.Total.{parse_header-HeaderSpec}
use wirepup.Epics.Pva.Total.{PvaHeaderSpec, parse_header-PvaHeaderSpec}
use wirepup.Base.{
  ℕ, Bool, true, not, ◌||◌, Option, none, some, List, [], leb, ◌==◌, if◌then◌else◌, length, Bytes,
  All, All-append, ◌≡◌, inl, inr, Bool-cases, Go, ret, ◌>>=◌, Result, ok, err, Ensures,
  Ensures-bind, Ensures-if,
}
use wirepup.Net.{Addr}
use wirepup.Decode.Epics.{Protocol, Evidence, Observation, Decoder, Found, is_ca_tcp, is_pva_tcp}
use wirepup.Decode.Learning.{Cites, Steady, Steady-here, decode_ca-Steady, decode_pva-Steady}
use wirepup.Decode.{
  before, is_port, dhcp_observed, decode_dhcp, unprompted, udp_observed, decode_udp, state_event,
  tcp_observed, decode_tcp, ipv4_seen, ipv4_observed, decode_ipv4, icmpv6_observed, ipv6_observed,
  decode_ipv6, arp_observed, decode_arp, lldp_observed, decode_lldp, payload_observed,
}

abbrev Done {ℓ} : {A : Type ℓ} → Go A → Type 0
Done m = Ensures (λ a. Unit) m

ca-probable : (b : Bytes) → Done (Ca.probable b)
unfolding Ca.probable
ca-probable b = Ensures-bind _ _ (Ca.parse_header b) _ (parse_header-HeaderSpec b) (λ h s. tt)

pva-probable : (b : Bytes) → Done (Pva.probable b)
unfolding Pva.probable
pva-probable b =
    Ensures-bind (PvaHeaderSpec b) _ (Pva.parse_header b) _ (parse_header-PvaHeaderSpec b)
      (λ h s. tt)

module _ (id : ℕ) where
  abbrev AllCite : List Observation → Type 0
  AllCite = All (Cites id)

  pub before-Steady :
      (obs : List Observation) (d : Decoder) (call : Go Found)
      → AllCite obs
      → Ensures (Steady id d) call
      → Ensures (Steady id d) (before obs call)
  before-Steady obs d call h k =
      Ensures-bind (Steady id d) (Steady id d) call _ k
        (λ x s. (All-append (Cites id) obs x.0 h s.0, s.1, s.2, s.3))

  -- A part of the pipeline that leaves the decoder alone.
  alone :
      (d : Decoder) (call : Go (List Observation))
      → Ensures AllCite call
      → Ensures (Steady id d) (do obs ← call; ret (obs, d))
  alone d call h = Ensures-bind AllCite (Steady id d) call _ h (λ obs c. Steady-here id d obs c)

  dhcp_observed-cites :
      (ev : Evidence) (ip : Ipv4.Packet) (r : Dhcpv4.Message × Option Dhcpv4.Error)
      → ev.packet_id ≡ id
      → AllCite (dhcp_observed ev ip r)
  unfolding dhcp_observed
  dhcp_observed-cites ev ip (m, some e) h = tt
  dhcp_observed-cites ev ip (m, none) h = (h, tt)

  decode_dhcp-cites :
      (ev : Evidence) (ip : Ipv4.Packet) (payload : Bytes)
      → ev.packet_id ≡ id
      → Ensures AllCite (decode_dhcp ev ip payload)
  unfolding decode_dhcp
  decode_dhcp-cites ev ip payload h =
      Ensures-bind (DhcpSpec payload) AllCite (Dhcpv4.parse payload) _ (parse-DhcpSpec payload)
        (λ r s. dhcp_observed-cites ev ip r h)

  unprompted-Steady :
      (ev : Evidence) (ip : Ipv4.Packet) (dg : Udp.Datagram) (d : Decoder)
      → ev.packet_id ≡ id
      → Ensures (Steady id d) (unprompted ev ip dg d)
  unfolding unprompted
  unprompted-Steady ev ip dg d h =
      Ensures-bind _ (Steady id d) (Pva.probable dg.payload) _ (pva-probable dg.payload) (λ pva u.
        Ensures-if (Steady id d) pva _ _
          (λ e. decode_pva-Steady ip.src ip.dst dg.src_port dg.dst_port id _ ev dg.payload _ d h)
          (λ e.
            Ensures-if (Steady id d) (not (leb 16 (length dg.payload))) _ _
              (λ f. Steady-here id d [] tt)
              (λ f.
                Ensures-bind _ (Steady id d) (Ca.probable dg.payload) _ (ca-probable dg.payload)
                  (λ ca v.
                    Ensures-if (Steady id d) ca _ _
                      (λ g.
                        decode_ca-Steady ip.src ip.dst dg.src_port dg.dst_port id _ ev dg.payload _
                          d h)
                      (λ g. Steady-here id d [] tt)))))

  udp_observed-Steady :
      (ev : Evidence) (ip : Ipv4.Packet) (d : Decoder) (r : Result Udp.Error Udp.Datagram)
      → ev.packet_id ≡ id
      → Ensures (Steady id d) (udp_observed ev ip d r)
  unfolding udp_observed
  udp_observed-Steady ev ip d (err e) h = Steady-here id d [] tt
  udp_observed-Steady ev ip d (ok dg) h =
      Ensures-if (Steady id d) (is_port dg 67 || is_port dg 68) _ _
        (λ e. alone d (decode_dhcp ev ip dg.payload) (decode_dhcp-cites ev ip dg.payload h))
        (λ e.
          Ensures-if (Steady id d) (is_port dg d.ports.ca_server || is_port dg d.ports.ca_repeater)
            _ _
            (λ f. decode_ca-Steady ip.src ip.dst dg.src_port dg.dst_port id _ ev dg.payload _ d h)
            (λ f.
              Ensures-if (Steady id d) (is_port dg d.ports.pva_udp) _ _
                (λ g.
                  decode_pva-Steady ip.src ip.dst dg.src_port dg.dst_port id _ ev dg.payload _ d h)
                (λ g. unprompted-Steady ev ip dg d h)))

  state_event-cites :
      (ev : Evidence) (src dst : Addr) (seg : Tcp.Segment)
      → ev.packet_id ≡ id
      → AllCite (state_event ev src dst seg)
  unfolding state_event
  state_event-cites ev src dst seg h = elim (Bool-cases (Tcp.is_state_event seg.flags)) [
    | inl e ↦ rw e (h, tt)
    | inr e ↦ rw e tt
  ]

  tcp_observed-Steady :
      (ev : Evidence) (src dst : Addr) (d : Decoder) (r : Result Tcp.Error Tcp.Segment)
      → ev.packet_id ≡ id
      → Ensures (Steady id d) (tcp_observed ev src dst d r)
  unfolding tcp_observed
  tcp_observed-Steady ev src dst d (err e) h = Steady-here id d [] tt
  tcp_observed-Steady ev src dst d (ok seg) h =
      let events : List Observation = state_event ev src dst seg in
      let cited : AllCite events = state_event-cites ev src dst seg h in
      let known : Bool = is_pva_tcp d seg.src_port || is_pva_tcp d seg.dst_port in
      Ensures-if (Steady id d) (length seg.payload == 0) _ _ (λ e. Steady-here id d events cited)
        (λ e.
          Ensures-bind (λ p. Unit) (Steady id d)
            (if known then ret true else Pva.probable seg.payload) _
            (Ensures-if (λ p. Unit) known _ _ (λ f. tt) (λ f. pva-probable seg.payload))
            (λ probable u.
              Ensures-if (Steady id d) probable _ _
                (λ f.
                  before-Steady events d _ cited
                    (decode_pva-Steady src dst seg.src_port seg.dst_port id _ ev seg.payload _ d h))
                (λ f.
                  Ensures-if (Steady id d) (is_ca_tcp d seg.src_port || is_ca_tcp d seg.dst_port) _
                    _
                    (λ g. before-Steady events d _ cited (
                      decode_ca-Steady src dst seg.src_port seg.dst_port id _ ev seg.payload _ d h))
                    (λ g. Steady-here id d events cited))))

  decode_udp-Steady :
      (ev : Evidence) (ip : Ipv4.Packet) (payload : Bytes) (d : Decoder)
      → ev.packet_id ≡ id
      → Ensures (Steady id d) (decode_udp ev ip payload d)
  unfolding decode_udp
  decode_udp-Steady ev ip payload d h =
      Ensures-bind (UdpSpec payload) (Steady id d) (Udp.parse payload) _ (parse-UdpSpec payload)
        (λ r s. udp_observed-Steady ev ip d r h)

  decode_tcp-Steady :
      (ev : Evidence) (src dst : Addr) (payload : Bytes) (d : Decoder)
      → ev.packet_id ≡ id
      → Ensures (Steady id d) (decode_tcp ev src dst payload d)
  unfolding decode_tcp
  decode_tcp-Steady ev src dst payload d h =
      Ensures-bind (TcpSpec payload) (Steady id d) (Tcp.parse payload) _ (parse-TcpSpec payload)
        (λ r s. tcp_observed-Steady ev src dst d r h)

  ipv4_observed-Steady :
      (ev : Evidence) (d : Decoder) (r : Result Ipv4.Error Ipv4.Packet)
      → ev.packet_id ≡ id
      → Ensures (Steady id d) (ipv4_observed ev d r)
  unfolding ipv4_observed
  ipv4_observed-Steady ev d (err e) h = Steady-here id d [] tt
  ipv4_observed-Steady ev d (ok p) h =
      let obs : List Observation = ipv4_seen (record ev { protocol = Protocol.ipv4 }) p in
      let cited : AllCite obs = (h, tt) in
      Ensures-if (Steady id d) p.payload_drop _ _ (λ e. Steady-here id d obs cited)
        (λ e.
          Ensures-if (Steady id d) (p.protocol == 17) _ _
            (λ f. before-Steady obs d _ cited (decode_udp-Steady _ p p.payload d h))
            (λ f.
              Ensures-if (Steady id d) (p.protocol == 6) _ _
                (λ g. before-Steady obs d _ cited (decode_tcp-Steady _ p.src p.dst p.payload d h))
                (λ g. Steady-here id d obs cited)))

  icmpv6_observed-cites :
      (ev : Evidence) (p : Ipv6.Packet) (obs : List Observation)
      (r : Icmpv6.Message × Option Icmpv6.Error)
      → ev.packet_id ≡ id
      → AllCite obs
      → AllCite (icmpv6_observed ev p obs r)
  unfolding icmpv6_observed
  icmpv6_observed-cites ev p obs (m, some e) h k = k
  icmpv6_observed-cites ev p obs (m, none) h k = All-append (Cites id) obs _ k (h, tt)

  ipv6_observed-cites :
      (ev : Evidence) (r : Result Ipv6.Error Ipv6.Packet)
      → ev.packet_id ≡ id
      → Ensures AllCite (ipv6_observed ev r)
  unfolding ipv6_observed
  ipv6_observed-cites ev (err e) h = tt
  ipv6_observed-cites ev (ok p) h =
      Ensures-if AllCite p.payload_drop _ _ (λ e. (h, tt))
        (λ e.
          Ensures-if AllCite (p.next_header == 58) _ _
            (λ f.
              Ensures-bind (Icmpv6Spec p.payload) AllCite (Icmpv6.parse p.payload) _
                (parse-Icmpv6Spec p.payload) (λ r s. icmpv6_observed-cites _ p _ r h (h, tt)))
            (λ f. (h, tt)))

  decode_ipv6-cites :
      (ev : Evidence) (payload : Bytes)
      → ev.packet_id ≡ id
      → Ensures AllCite (decode_ipv6 ev payload)
  unfolding decode_ipv6
  decode_ipv6-cites ev payload h =
      Ensures-bind (Ipv6Spec payload) AllCite (Ipv6.parse payload) _ (parse-Ipv6Spec payload)
        (λ r s. ipv6_observed-cites ev r h)

  arp_observed-cites :
      (ev : Evidence) (r : Result Arp.Error Arp.Packet)
      → ev.packet_id ≡ id
      → AllCite (arp_observed ev r)
  unfolding arp_observed
  arp_observed-cites ev (err e) h = tt
  arp_observed-cites ev (ok p) h = (h, tt)

  lldp_observed-cites :
      (ev : Evidence) (source : Bytes) (r : Lldp.Frame × Option Lldp.Error)
      → ev.packet_id ≡ id
      → AllCite (lldp_observed ev source r)
  unfolding lldp_observed
  lldp_observed-cites ev source (f, some e) h = tt
  lldp_observed-cites ev source (f, none) h = (h, tt)

  module _ (is_text : Bytes → Bool) where
    pub payload_observed-Steady :
        (ev : Evidence) (d : Decoder) (frame : Ethernet.Frame)
        → ev.packet_id ≡ id
        → Ensures (Steady id d) (payload_observed is_text ev d frame)
    unfolding payload_observed decode_arp decode_lldp decode_ipv4
    payload_observed-Steady ev d frame h =
        Ensures-if (Steady id d) (frame.ether_type == 0x0806) _ _
          (λ e. alone d (decode_arp ev frame.payload) (
            Ensures-bind (ArpSpec frame.payload) AllCite (Arp.parse frame.payload) _
              (parse-ArpSpec frame.payload) (λ r s. arp_observed-cites ev r h)))
          (λ e.
            Ensures-if (Steady id d) (frame.ether_type == 0x88cc) _ _
              (λ f. alone d (decode_lldp is_text ev frame) (
                Ensures-bind _ AllCite (Lldp.parse is_text frame.payload) _
                  (parse-mandatory is_text frame.payload)
                  (λ r s. lldp_observed-cites ev frame.source r h)))
              (λ f.
                Ensures-if (Steady id d) (frame.ether_type == 0x0800) _ _
                  (λ g.
                    Ensures-bind (Ipv4Spec frame.payload) (Steady id d) (Ipv4.parse frame.payload) _
                      (parse-Ipv4Spec frame.payload) (λ r s. ipv4_observed-Steady ev d r h))
                  (λ g.
                    Ensures-if (Steady id d) (frame.ether_type == 0x86dd) _ _
                      (λ k.
                        alone d (decode_ipv6 ev frame.payload)
                          (decode_ipv6-cites ev frame.payload h))
                      (λ k. Steady-here id d [] tt))))
