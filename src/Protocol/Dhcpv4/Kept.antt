-- ===== src/Protocol/Dhcpv4/Kept.antt =====
-- The option loop of DHCPv4: what it never changes, and when it fails.
use wirepup.Base.{
  ℕ, zero, suc, ◌+◌, ◌≤◌, Bool, true, false, Option, none, some, ◌≡◌, inl, inr, refl, ◌∙◌, arith,
  ltb, ◌==◌, length, Bytes, byte, Ensures, Ensures-map, Ensures-bind, Go, ◌>>=◌, index, from, be32,
  index_lem, slice_lem, Bool-cases, ltb→lt, ltb→le, le→ltb,
}
use wirepup.Net.{addr4_at}
use wirepup.Protocol.Dhcpv4.Overrun.{walk}
use wirepup.Protocol.Dhcpv4.{Error, options, Message, set_option, interpret, parse_options}

-- What an option never changes.
pub record Kept (m m' : Message) : Type 0 where
  pub op_field : m'.op_field ≡ m.op_field
  pub xid : m'.xid ≡ m.xid
  pub client_ip : m'.client_ip ≡ m.client_ip
  pub your_ip : m'.your_ip ≡ m.your_ip
  pub client_mac : m'.client_mac ≡ m.client_mac
  pub htype : m'.htype ≡ m.htype
  pub hlen : m'.hlen ≡ m.hlen
  pub secs : m'.secs ≡ m.secs
  pub broadcast : m'.broadcast ≡ m.broadcast
  pub server_ip : m'.server_ip ≡ m.server_ip
  pub relay_ip : m'.relay_ip ≡ m.relay_ip
  pub server_name : m'.server_name ≡ m.server_name

Kept-trans : (a b c : Message) → Kept a b → Kept b c → Kept a c
Kept-trans a b c h k = record {
  op_field = k.op_field ∙ h.op_field;
  xid = k.xid ∙ h.xid;
  client_ip = k.client_ip ∙ h.client_ip;
  your_ip = k.your_ip ∙ h.your_ip;
  client_mac = k.client_mac ∙ h.client_mac;
  htype = k.htype ∙ h.htype;
  hlen = k.hlen ∙ h.hlen;
  secs = k.secs ∙ h.secs;
  broadcast = k.broadcast ∙ h.broadcast;
  server_ip = k.server_ip ∙ h.server_ip;
  relay_ip = k.relay_ip ∙ h.relay_ip;
  server_name = k.server_name ∙ h.server_name;
}

interpret-Kept : (m : Message) (code : ℕ) (v : Bytes) → Ensures (Kept m) (interpret m code v)
unfolding interpret index be32 addr4_at from
interpret-Kept m code v = ground arith

abbrev pub verdict : Bool → Option Error
verdict true = some options
verdict false = none

-- What the loop returns: a message that keeps the header, and an error exactly for an overrun.
abbrev pub Parsed : Message → Bool → Message × Option Error → Type 0
Parsed m over r = Kept m r.0 × (r.1 ≡ verdict over)

Kept-refl : (m : Message) → Kept m m
Kept-refl m = record {
  op_field = refl;
  xid = refl;
  client_ip = refl;
  your_ip = refl;
  client_mac = refl;
  htype = refl;
  hlen = refl;
  secs = refl;
  broadcast = refl;
  server_ip = refl;
  relay_ip = refl;
  server_name = refl;
}

-- One option, and the loop behind it.
option-Parsed :
    (m : Message) (code : ℕ) (v : Bytes) (over : Bool)
    (next_round : Message → Go (Message × Option Error))
    → ((m' : Message) → Ensures (Parsed m' over) (next_round m'))
    → Ensures (Parsed m over) (
        interpret (record m { options_map = set_option code v m.options_map }) code v
        >>= next_round)
option-Parsed m code v over next_round ih =
    let m1 = record m { options_map = set_option code v m.options_map } in
    Ensures-bind (Kept m1) (Parsed m over) (interpret m1 code v) next_round
      (interpret-Kept m1 code v)
      (λ m' k.
        Ensures-map (Parsed m' over) (Parsed m over) (next_round m')
          (λ r p. (
            Kept-trans m m' r.0
                (record {
                  op_field = k.op_field;
                  xid = k.xid;
                  client_ip = k.client_ip;
                  your_ip = k.your_ip;
                  client_mac = k.client_mac;
                  htype = k.htype;
                  hlen = k.hlen;
                  secs = k.secs;
                  broadcast = k.broadcast;
                  server_ip = k.server_ip;
                  relay_ip = k.relay_ip;
                  server_name = k.server_name;
                })
                p.0,
            p.1,
          ))
          (ih m'))

-- The loop ends, whatever the bytes.
pub parse_options-Parsed :
    (fuel : ℕ) (m : Message) (b : Bytes) (i : ℕ)
    → length b ≤ i + fuel
    → Ensures (Parsed m (walk fuel b i)) (parse_options fuel m b i)
unfolding parse_options
parse_options-Parsed zero m b i h = rw (le→ltb i (length b) (omega arith)) (Kept-refl m, refl)
parse_options-Parsed (suc fuel) m b i h = elim (Bool-cases (ltb i (length b))) [
  | inr out ↦ rw out (Kept-refl m, refl)
  | inl inside ↦
      rw (inside, index_lem b i (ltb→lt _ _ inside))
        (elim (Bool-cases (byte b i == 0)) [
          | inl pad ↦ rw pad (parse_options-Parsed fuel m b (i + 1) (omega arith))
          | inr code ↦ rw code (elim (Bool-cases (byte b i == 255)) [
            | inl done ↦ rw done (Kept-refl m, refl)
            | inr more ↦ rw more (elim (Bool-cases (ltb (length b) (i + 2))) [
              | inl short ↦ rw short (Kept-refl m, refl)
              | inr long ↦
                  rw (long, index_lem b (i + 1) (omega (arith, ltb→le _ _ long)))
                    (elim (Bool-cases (ltb (length b) (i + 2 + byte b (i + 1)))) [
                      | inl over ↦ rw over (Kept-refl m, refl)
                      | inr fits ↦
                          rw
                            (
                              fits,
                              slice_lem b (i + 2) (i + 2 + byte b (i + 1)) (omega arith)
                                  (ltb→le _ _ fits),
                            )
                            (option-Parsed m (byte b i) _ (walk fuel b (i + (2 + byte b (i + 1))))
                              (λ m'. parse_options fuel m' b (i + (2 + byte b (i + 1))))
                              (λ m'.
                                parse_options-Parsed fuel m' b (i + (2 + byte b (i + 1)))
                                  (omega arith)))
                    ])
            ])
          ])
        ])
]
