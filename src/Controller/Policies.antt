-- ===== src/Controller/Policies.antt =====
-- tumba_sdn/controller/main_controller.py: the zone policies hold whatever else the controller sends,
-- and the count of rules is exact.
use ai_driven_software_defin.Base.{
  ℕ, ◌≡◌, refl, ap, Bool, true, false, Option, none, some, List, [], ◌∷◌, String, add, In, All,
  All-In, In-append_left, In-append_right, nat_beq, ◌==◌, nat_eq, string_eq, Bool-cases, inl, inr,
  arith,
}
use ai_driven_software_defin.OpenFlow.{
  Match, FlowMod, Action, Packet, any_match, output, controller, flood, normal, eth_type_arp,
  Switch, matches, eth_type_ip, flow_mod,
}
use ai_driven_software_defin.OpenFlow.Lookup.{select_decided}
use ai_driven_software_defin.Controller.Switching.{
  Message, flow, packet_out, CampusController, EthernetHeader, Steps, here, features, policies,
  packet, status, init, add_flow, switch_features, zone_networks, network_pair, permitted_flows,
  allow_zones, allow_ports, allow_flows, install_zone_policies, eth_type_lldp, learn, send_out,
  forward, receive, packet_in, port_status,
}
use ai_driven_software_defin.Controller.Growth.{
  RuleIsLow, MessageIsLow, count_flows, table_of, Grows, same-Grows, trans-Grows, add_flow-Grows,
}

switch_features-Grows : (dpid : ℕ) (s : CampusController) → Grows s (switch_features dpid s)
unfolding switch_features
switch_features-Grows dpid s =
    let s1 : CampusController = record s { datapaths = add dpid s.datapaths } in
    let s2 = add_flow dpid 0 any_match (output controller ∷ []) none s1 in
    let arp : Match = record any_match { eth_type = some eth_type_arp } in
    let s3 = add_flow dpid 200 arp (output flood ∷ []) none s2 in
    let icmp : Match = record any_match { eth_type = some eth_type_ip; ip_proto = some 1 } in
    let s4 = add_flow dpid 200 icmp (output normal ∷ []) none s3 in
    trans-Grows s s1 _ (same-Grows s s1 refl refl) (
      trans-Grows s1 s2 _
        (add_flow-Grows dpid 0 any_match _ none s1 (omega arith) (λ h. absurd (omega arith)))
        (trans-Grows s2 s3 _
          (add_flow-Grows dpid 200 arp _ none s2 (omega arith) (λ h. absurd (omega arith)))
          (trans-Grows s3 s4 _
            (add_flow-Grows dpid 200 icmp _ none s3 (omega arith) (λ h. absurd (omega arith)))
            (same-Grows s4 _ refl refl))))

allow_zones-Grows :
    (dpid : ℕ) (nws : List String) (s : CampusController) → Grows s (allow_zones dpid nws s)
unfolding allow_zones
allow_zones-Grows dpid [] s = same-Grows s s refl refl
allow_zones-Grows dpid (nw ∷ nws) s =
    trans-Grows s _ _
      (add_flow-Grows dpid 150 (network_pair nw nw) _ none s (omega arith)
        (λ h. absurd (omega arith)))
      (allow_zones-Grows dpid nws _)

allow_ports-Grows :
    (dpid : ℕ) (src dst : String) (ports : List ℕ) (s : CampusController)
    → Grows s (allow_ports dpid src dst ports s)
unfolding allow_ports
allow_ports-Grows dpid src dst [] s = same-Grows s s refl refl
allow_ports-Grows dpid src dst (tcp ∷ ports) s =
    trans-Grows s _ _ (add_flow-Grows dpid 250 _ _ none s (omega arith) (λ h. absurd (omega arith)))
      (allow_ports-Grows dpid src dst ports _)

allow_flows-Grows :
    (dpid : ℕ) (flows : List (String × String × List ℕ)) (s : CampusController)
    → Grows s (allow_flows dpid flows s)
unfolding allow_flows
allow_flows-Grows dpid [] s = same-Grows s s refl refl
allow_flows-Grows dpid ((src, dst, ports) ∷ flows) s =
    trans-Grows s _ _ (allow_ports-Grows dpid src dst ports s) (allow_flows-Grows dpid flows _)

install-Grows : (dpid : ℕ) (s : CampusController) → Grows s (install_zone_policies dpid s)
unfolding install_zone_policies
install-Grows dpid s = trans-Grows s _ _ (allow_zones-Grows dpid zone_networks s) (
    trans-Grows _ _ _
      (add_flow-Grows dpid 300 (network_pair "10.40.0.0" "10.10.0.0") [] none _ (omega arith)
        (λ h. refl))
      (allow_flows-Grows dpid permitted_flows _))

send_out-Grows :
    (dpid in_port : ℕ) (buffer : Option ℕ) (actions : List Action) (has_data : Bool)
    (s : CampusController)
    → Grows s (send_out dpid (packet_out buffer in_port actions has_data) s)
unfolding count_flows
send_out-Grows dpid in_port buffer actions has_data s = record {
  more = (dpid, packet_out buffer in_port actions has_data) ∷ [];
  sent_more = refl;
  low = (tt, tt);
  counted = omega arith;
}

forward-Grows :
    (dpid in_port : ℕ) (eth : EthernetHeader) (buffer known : Option ℕ) (s : CampusController)
    → Grows s (forward dpid in_port eth buffer known s)
unfolding forward
forward-Grows dpid in_port eth none none s = send_out-Grows dpid in_port none _ true s
forward-Grows dpid in_port eth (some b) none s = send_out-Grows dpid in_port (some b) _ false s
forward-Grows dpid in_port eth (some b) (some p) s =
    add_flow-Grows dpid 10 _ _ (some b) s (omega arith) (λ h. absurd (omega arith))
forward-Grows dpid in_port eth none (some p) s =
    trans-Grows s _ _ (add_flow-Grows dpid 10 _ _ none s (omega arith) (λ h. absurd (omega arith)))
      (send_out-Grows dpid in_port none _ true _)

receive-Grows :
    (dpid in_port : ℕ) (buffer : Option ℕ) (eth : Option EthernetHeader) (s : CampusController)
    → Grows s (receive dpid in_port buffer eth s)
unfolding receive
receive-Grows dpid in_port buffer none s = same-Grows s s refl refl
receive-Grows dpid in_port buffer (some eth) s =
    elim (Bool-cases (nat_beq eth.ethertype eth_type_lldp)) [
      | inl lldp ↦ rw lldp (same-Grows s s refl refl)
      | inr other ↦ rw other (
          trans-Grows s (learn dpid in_port eth.src s) _ (same-Grows s _ refl refl)
            (forward-Grows dpid in_port eth buffer _ (learn dpid in_port eth.src s)))
    ]

Steps-Grows : {s t : CampusController} → Steps s t → Grows s t
unfolding packet_in port_status
Steps-Grows {s} here = same-Grows s s refl refl
Steps-Grows {s} (features dpid r) = trans-Grows s _ _ (Steps-Grows r) (switch_features-Grows dpid _)
Steps-Grows {s} (policies dpid r) = trans-Grows s _ _ (Steps-Grows r) (install-Grows dpid _)
Steps-Grows {s} (packet ev r) =
    trans-Grows s _ _ (Steps-Grows r) (receive-Grows ev.dpid ev.in_port ev.buffer_id ev.eth _)
Steps-Grows {s} (status dpid port_no is_up r) =
    trans-Grows s _ _ (Steps-Grows r) (same-Grows _ _ refl refl)

-- In every state reached from the start, `flow_count` is the number of rules that were sent, to all
-- switches together.
pub flow_count_lem : (s : CampusController) → Steps init s → s.flow_count ≡ count_flows s.sent
unfolding init
flow_count_lem s r = let g = Steps-Grows r in omega (arith, g.counted, ap count_flows g.sent_more)

block_sent :
    (dpid : ℕ) (s : CampusController)
    → In
        (dpid, flow (flow_mod 300 (network_pair "10.40.0.0" "10.10.0.0") [] 0))
        (install_zone_policies dpid s).sent
unfolding install_zone_policies add_flow
block_sent dpid s =
    let g = allow_flows-Grows dpid permitted_flows (
      add_flow dpid 300 (network_pair "10.40.0.0" "10.10.0.0") [] none
        (allow_zones dpid zone_networks s)) in
    rw g.sent_more (
      In-append_left _ g.more _
        (In-append_right (allow_zones dpid zone_networks s).sent _ _ (inl refl)))

table_of-In :
    (dpid : ℕ) (r : FlowMod) (ms : List (ℕ × Message))
    → In (dpid, flow r) ms
    → In r (table_of dpid ms)
unfolding table_of
table_of-In dpid r [] m = absurd m
table_of-In dpid r ((d, flow q) ∷ ms) (inl e) =
    let same : d ≡ dpid = ap (λ (x : ℕ × Message). x.0) e in
    let message : flow q ≡ flow r = ap (λ (x : ℕ × Message). x.1) e in
    let rule : q ≡ r = cc in
    let test : (d == dpid) ≡ true = ground (arith, nat_eq.same_iff d dpid) in rw test (inl rule)
table_of-In dpid r ((d, flow q) ∷ ms) (inr m) = elim (Bool-cases (d == dpid)) [
  | inl same ↦ rw same (inr (table_of-In dpid r ms m))
  | inr other ↦ rw other (table_of-In dpid r ms m)
]
table_of-In dpid r ((d, packet_out b i a x) ∷ ms) (inl e) =
    let message : packet_out b i a x ≡ flow r = ap (λ (y : ℕ × Message). y.1) e in absurd (cc)
table_of-In dpid r ((d, packet_out b i a x) ∷ ms) (inr m) = table_of-In dpid r ms m

table_of-All :
    (dpid : ℕ) (ms : List (ℕ × Message)) → All MessageIsLow ms → All RuleIsLow (table_of dpid ms)
unfolding table_of
table_of-All dpid [] h = tt
table_of-All dpid ((d, flow r) ∷ ms) h = elim (Bool-cases (d == dpid)) [
  | inl same ↦ rw same (h.0, table_of-All dpid ms h.1)
  | inr other ↦ rw other (table_of-All dpid ms h.1)
]
table_of-All dpid ((d, packet_out b i a x) ∷ ms) h = table_of-All dpid ms h.1

matches-block :
    (sw : Switch) (p : Packet)
    → p.eth_type ≡ eth_type_ip
    → sw.mask_with p.ipv4_src "255.255.255.0" ≡ "10.40.0.0"
    → sw.mask_with p.ipv4_dst "255.255.255.0" ≡ "10.10.0.0"
    → matches sw.mask_with (network_pair "10.40.0.0" "10.10.0.0") p ≡ true
unfolding matches
matches-block sw p ip src dst = ground (
  arith,
  string_eq.same_iff "10.40.0.0" (sw.mask_with p.ipv4_src "255.255.255.0"),
  string_eq.same_iff "10.10.0.0" (sw.mask_with p.ipv4_dst "255.255.255.0"),
)

-- Once a switch has its zone policies, and whatever the controller sends before and afterwards, an IP
-- packet from the network of the student Wi-Fi to that of the staff is decided by a rule with no
-- action: it is dropped.
pub student_to_staff-drop :
    (sw : Switch) (p : Packet) (dpid : ℕ) (s t : CampusController)
    → Steps init s
    → Steps (install_zone_policies dpid s) t
    → p.eth_type ≡ eth_type_ip
    → sw.mask_with p.ipv4_src "255.255.255.0" ≡ "10.40.0.0"
    → sw.mask_with p.ipv4_dst "255.255.255.0" ≡ "10.10.0.0"
    → (r : FlowMod) × (sw.select (table_of dpid t.sent) p ≡ some r) × (r.actions ≡ [])
unfolding init
student_to_staff-drop sw p dpid s t before after ip src dst =
    let g =
      trans-Grows init s t (Steps-Grows before)
        (trans-Grows s _ t (install-Grows dpid s) (Steps-Grows after)) in
    let later = Steps-Grows after in
    let block : FlowMod = flow_mod 300 (network_pair "10.40.0.0" "10.10.0.0") [] 0 in
    let low : All MessageIsLow t.sent = rw g.sent_more g.low in
    let held : In (dpid, flow block) t.sent =
      rw later.sent_more (In-append_left _ later.more _ (block_sent dpid s)) in
    select_decided sw (λ r. r.actions ≡ []) (table_of dpid t.sent) p block
      (table_of-In dpid block t.sent held) (matches-block sw p ip src dst)
      (λ r member fits high.
        (All-In RuleIsLow (table_of dpid t.sent) (table_of-All dpid t.sent low) member).1 high)
