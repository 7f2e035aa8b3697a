-- ===== src/Controller/Learning.antt =====
-- tumba_sdn/controller/main_controller.py: the ports that `packet_in` learns.
use ai_driven_software_defin.Base.{
  first_some, ℕ, ◌≡◌, refl, Bool, false, ◌&&◌, not, Option, none, some, List, [], ◌∷◌, String,
  lookup, insert, or_else, lookup-insert, nat_beq, ◌==◌, nat_eq, string_eq, if◌then◌else◌,
  Bool-cases, inl, inr, arith,
}
use ai_driven_software_defin.Controller.Switching.{
  CampusController, EthernetHeader, PacketIn, eth_type_lldp, learn, forward, add_flow, receive,
  packet_in,
}

-- The port that a switch's table gives for an address.
abbrev pub learned_port : ℕ → String → CampusController → Option ℕ
learned_port dpid mac s = lookup mac (or_else (lookup dpid s.mac_to_port) [])

unfoldable pub packets_in : List PacketIn → CampusController → CampusController
packets_in [] s = s
packets_in (ev ∷ evs) s = packets_in evs (packet_in ev s)

abbrev pub is_from : String → Option EthernetHeader → Bool
is_from mac none = false
is_from mac (some eth) = not (nat_beq eth.ethertype eth_type_lldp) && eth.src == mac

-- The port of the last packet that an address sent to a switch, other than LLDP.
unfoldable pub last_port : ℕ → String → List PacketIn → Option ℕ
last_port dpid mac [] = none
last_port dpid mac (ev ∷ evs) =
    first_some (last_port dpid mac evs)
      (if ev.dpid == dpid && is_from mac ev.eth then some ev.in_port else none)

forward_keeps :
    (dpid in_port : ℕ) (eth : EthernetHeader) (buffer known : Option ℕ) (s : CampusController)
    → (forward dpid in_port eth buffer known s).mac_to_port ≡ s.mac_to_port
unfolding forward add_flow
forward_keeps dpid in_port eth none none s = refl
forward_keeps dpid in_port eth (some b) none s = refl
forward_keeps dpid in_port eth (some b) (some p) s = refl
forward_keeps dpid in_port eth none (some p) s = refl

learned_port-learn :
    (d dpid in_port : ℕ) (src mac : String) (s : CampusController)
    → learned_port d mac (learn dpid in_port src s)
      ≡ (if dpid == d && src == mac then some in_port else learned_port d mac s)
learned_port-learn d dpid in_port src mac s = elim (Bool-cases (dpid == d)) [
  | inl same ↦
      let q : dpid ≡ d = ground (arith, nat_eq.same_iff dpid d) in
      rw q (
        ground (
          arith,
          lookup-insert d d (insert src in_port (or_else (lookup d s.mac_to_port) []))
              s.mac_to_port,
          nat_eq.same_iff d d,
          lookup-insert src mac in_port (or_else (lookup d s.mac_to_port) []),
        ))
  | inr other ↦ ground (
    arith,
    other,
    lookup-insert dpid d (insert src in_port (or_else (lookup dpid s.mac_to_port) []))
        s.mac_to_port,
  )
]

learned_port-receive :
    (d dpid in_port : ℕ) (mac : String) (buffer : Option ℕ) (eth : Option EthernetHeader)
    (s : CampusController)
    → learned_port d mac (receive dpid in_port buffer eth s)
      ≡ (if dpid == d && is_from mac eth then some in_port else learned_port d mac s)
unfolding receive
learned_port-receive d dpid in_port mac buffer none s = ground arith
learned_port-receive d dpid in_port mac buffer (some eth) s =
    elim (Bool-cases (nat_beq eth.ethertype eth_type_lldp)) [
      | inl lldp ↦ rw lldp (ground arith)
      | inr other ↦
          let s1 = learn dpid in_port eth.src s in
          let known = lookup eth.dst (or_else (lookup dpid s1.mac_to_port) []) in
          rw (other, forward_keeps dpid in_port eth buffer known s1)
            (learned_port-learn d dpid in_port eth.src mac s)
    ]

-- After any packets, the table of every switch has for every address the port of the last packet that
-- came from it, LLDP packets left aside; an address that sent none keeps what the table had.
pub learned_port-packets_in :
    (evs : List PacketIn) (dpid : ℕ) (mac : String) (s : CampusController)
    → learned_port dpid mac (packets_in evs s)
      ≡ first_some (last_port dpid mac evs) (learned_port dpid mac s)
unfolding packets_in last_port packet_in
learned_port-packets_in [] dpid mac s = refl
learned_port-packets_in (ev ∷ evs) dpid mac s =
    let rest = learned_port-packets_in evs dpid mac (packet_in ev s) in
    let own = learned_port-receive dpid ev.dpid ev.in_port mac ev.buffer_id ev.eth s in
    ground (arith, rest, own)
