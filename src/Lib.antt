-- ===== src/Lib.antt =====
-- WirePup, a passive observer of Ethernet networks: the filter programs of its captures, the parsers of
-- its packets and the decoder that calls them, the datagrams of EPICS Channel Access and pvAccess that it
-- sends, the ARP frames of its active commands, the table that folds what it hears into devices, and the
-- findings of a diagnosis.
--
-- A packet that the filter of internal/capture/bpf lets through comes to `Decode` of
-- internal/decode/decode.go, which calls the parsers of internal/protocol and internal/epics layer by
-- layer; each takes a byte slice and returns a value, an error, or both. The observations made of one packet go to
-- `Apply` of internal/device/device.go in the order of the layers, and change the table.
--
-- - Base: lists measured by native numbers, tests, and `Go`, what a Go function does: it returns (`ret`)
--   or panics, as an index or a slice out of range does (`panic`). `stuck` is no behaviour of Go: a
--   loop of the model ran out of fuel. `Ensures P m` says that `m` returns a value with `P`, so a
--   theorem of this form excludes both. A byte slice is a list of numbers; a slice expression is
--   held to the length of the slice, where Go would go on to its capacity.
-- - Net: net/netip addresses without zones; an address is invalid, or 4 or 16 bytes as one number.
-- - Text: strings.TrimSpace and the text before the first NUL.
-- - Protocol.Ethernet, Arp, Ipv4, Ipv6, Udp, Tcp, Icmpv6, Dhcpv4, Lldp: `Parse` of
--   internal/protocol/ethernet/ethernet.go and so on, `parse` here, with the helpers it calls. Child
--   modules hold the proofs. A value that the Go code returns beside an error is kept in a pair;
--   where it is empty beside an error the result is `ok` or `err`.
-- - Epics.Ca: internal/epics/ca/ca.go, the parser, `Interpret`, and the builders of datagrams.
-- - Epics.Pva: internal/epics/pva/pva.go. Pva has the header and `Parse`, Pva.Reader the reader,
--   Pva.Observations `Interpret`, Pva.Writer the builders of datagrams; Total, Reads, Bounded, Written, Heard, Search,
--   Answers and Connect hold the proofs. A signed integer is the word that holds its bits.
-- - Decode: internal/decode/decode.go. Decode.Epics has the state of the decoder, and what it does with
--   EPICS; Decode has the dispatch. Decode.Learning, Dispatch and Total hold the proofs. `decode_all` is a run over packets.
-- - Capture.Bpf: internal/capture/bpf/bpf.go, the assembler; Machine is the interpreter of its programs, as
--   the opcodes are documented there and as internal/capture/bpf/bpf_test.go runs them. Link, Chain, Blocks and Filter
--   hold the proofs.
-- - Active: internal/active/active.go, the ARP frames, the addresses of a prefix, and what counts as a
--   conflict. Frames and Range hold the proofs.
-- - Diagnose: internal/diagnose. Candidate has `candidate` and Report `Run` of diagnose.go, Rules the DHCP and
--   Auto-IP rules of rules.go. A finding keeps its code, its evidence and what it is about; its text is left out.
--   Grounded holds a proof.
-- - Device: internal/device/device.go. Types has the data, Record the changes of one device, Table
--   `touch`, `addAddress` and `noteClaim`; Leases has the handler for DHCPv4, Neighbors that for LLDP,
--   Apply those for frames, ARP, IPv4, IPv6 and ICMPv6 and `Apply`. For internal/device/epics.go EpicsState has the
--   searches and servers, and Channels and PvaChannels the handlers `applyCA` and `applyPVA`. Addresses,
--   Sound, Valid, Moves, Exchanges, Conflicts, Claims, ChannelSteps, Packets and Searches hold the proofs.
--   The Go table reaches a record through one pointer from a map and from a list; here the list holds the records and a key finds its record. Events carry the record at
--   the time of the event, as the snapshots do.
-- - Examples: the theorems at inputs written out.
--
-- The loops over options, TLVs and messages take the length of the buffer as fuel, and each round
-- takes a byte at least, so it is enough; the walk over IPv6 extension headers takes the eight rounds
-- that the code itself allows. A filter program only jumps forward, so its run is structural, and so are
-- the counted loops of `Interpret`.
--
-- A MAC address stands for the string that prints it, times are numbers, and a line of a device's
-- timeline keeps what is printed in it. unicode.IsPrint, which decides on the printable form of an LLDP
-- string, is the parameter `is_text`.
--
-- The counters of the decoder are numbers without a bound, where Go has 64 bits.
--
-- Not modelled: the readers of the table, which copy its records, the rules of a diagnosis for EPICS,
-- network configuration, the sockets and files of a capture, and output.
pub mod Base
pub mod Net
pub mod Text
pub mod Protocol
pub mod Epics
pub mod Decode
pub mod Device
pub mod Capture
pub mod Active
pub mod Diagnose
pub mod Examples
