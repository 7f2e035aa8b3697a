-- ===== src/Policy/Tests.antt =====
-- The policy engine (tumba_sdn/controller/policy_engine.py) on the profile of
-- tumba_sdn/config/traffic_profile.json, and its theorems at packets of the campus.
use ai_driven_software_defin.Base.{
  if◌then◌else◌, nat_eq, ◌==◌, ℕ, ◌≡◌, ◌≢◌, refl, true, false, Option, none, some, List, [], ◌∷◌,
  ◌++◌, String, or_else, inl, inr, arith, length, lookup, ap, sym, ◌∙◌, nat_eq, ◌==◌, string_eq,
}
use ai_driven_software_defin.OpenFlow.{
  FlowMod, Packet, matches, eth_type_ip, output, set_queue, normal,
}
use ai_driven_software_defin.OpenFlow.Lookup.{campus_switch, campus_mask}
use ai_driven_software_defin.Policy.Rules.{
  AllowedFlow, BlockedFlow, TrafficProfile, zone_subnet, forward, permit_match, no_zero_trust,
  network,
}
use ai_driven_software_defin.Policy.Install.{
  PolicyEngine, init, install_policies_delayed, install_zero_trust_rules, sent_to, zero_trust_rules,
  update_exam_mode, send, allow_same_zone, block_all, block_flow, permit_all, permit_flow,
  permit_ports, deny_all, deny_from,
}
use ai_driven_software_defin.Policy.Counts.{policy_rules-install}
use ai_driven_software_defin.Policy.Table.{policy_table, sent_to-install}
use ai_driven_software_defin.Policy.Decisions.{
  blocked-drop, permitted-forward, unpermitted-drop, IsBlocked,
}
use ai_driven_software_defin.Policy.Exam.{exam_mode_persists}

abbrev allow : String → List ℕ → AllowedFlow
allow src ports = record {
  src = some src;
  dst = some "server_zone";
  ports = some ports;
  proto = some "tcp";
}

abbrev web_of_wifi : AllowedFlow
web_of_wifi = allow "student_wifi" (80 ∷ 443 ∷ [])

abbrev wifi_to_staff : BlockedFlow
wifi_to_staff = record { src = some "student_wifi"; dst = some "staff_lan" }

abbrev campus_profile : TrafficProfile
campus_profile = record {
  zones = some (
      ("staff_lan", record { priority = some 1 })
      ∷ ("server_zone", record { priority = some 1 })
      ∷ ("it_lab", record { priority = some 2 })
      ∷ ("student_wifi", record { priority = some 3 })
      ∷ []);
  zero_trust_rules = some (record {
    default_deny = some true;
    allowed_flows = some (
        allow "staff_lan" (80 ∷ 443 ∷ [])
        ∷ allow "it_lab" (80 ∷ 443 ∷ 22 ∷ 3306 ∷ [])
        ∷ web_of_wifi
        ∷ allow "student_wifi" (8443 ∷ [])
        ∷ []);
    blocked_flows = some (wifi_to_staff ∷ []);
  });
}

abbrev engine : PolicyEngine
engine = init campus_profile

-- A TCP packet from one address to a port of another.
abbrev tcp : String → String → ℕ → Packet
tcp src dst port = record {
  in_port = 2;
  eth_type = eth_type_ip;
  eth_src = "00:00:00:00:00:01";
  eth_dst = "00:00:00:00:00:02";
  ipv4_src = src;
  ipv4_dst = dst;
  ip_proto = 6;
  tcp_dst = some port;
  udp_dst = none;
  tcp_src = none;
  udp_src = none;
}

-- The default profile sends 12 denials, 9 permits, 1 block, 4 same-zone rules, ARP and ICMP.
rules_of_profile :
    length (zero_trust_rules (or_else campus_profile.zero_trust_rules no_zero_trust)).sent ≡ 28
unfolding zero_trust_rules network permit_match send allow_same_zone block_all block_flow
    zone_subnet permit_all permit_flow permit_ports deny_all deny_from
rules_of_profile = refl

policy_rules-install_example :
    let rules = (zero_trust_rules (or_else campus_profile.zero_trust_rules no_zero_trust)).sent in
    (sent_to (install_zero_trust_rules 4 engine) 4 ≡ sent_to engine 4 ++ rules)
    × ((j : ℕ)
        → lookup j (install_zero_trust_rules 4 engine).policy_rules
          ≡ (if 4 == j then some (length rules) else lookup j engine.policy_rules))
unfolding init
policy_rules-install_example = policy_rules-install engine 4

blocked-drop_example :
    (t : FlowMod) × (campus_switch.select
        (policy_table campus_profile)
        (tcp "10.40.0.3" "10.10.0.1" 443)
      ≡ some t)
    × (t.actions ≡ [])
unfolding zone_subnet network campus_mask
blocked-drop_example =
    blocked-drop campus_switch (tcp "10.40.0.3" "10.10.0.1" 443) campus_profile
      (wifi_to_staff, "10.40.0.0/24", "10.10.0.0/24", inl refl, refl, refl, (refl, refl, refl))

-- A packet from the staff network is covered by no blocked flow.
staff_not_blocked : ¬ IsBlocked campus_switch (tcp "10.10.0.1" "10.20.0.1" 443) campus_profile
unfolding zone_subnet network campus_mask
staff_not_blocked (flow, src, dst, inl w, e, q, h) =
    let s : some "10.40.0.0/24" ≡ some src = ap (λ (f : BlockedFlow). zone_subnet f.src) w ∙ e in
    let n : ◌≡◌ {A = String} "10.40.0.0" "10.10.0.0" =
      ap (λ (o : Option String). network (or_else o "")) s ∙ sym h.1 in
    absurd (ground (arith, string_eq.same_iff "10.40.0.0" "10.10.0.0"))
staff_not_blocked (flow, src, dst, inr n, e, q, h) = absurd n

permitted-forward_example :
    (t : FlowMod) × (campus_switch.select
        (policy_table campus_profile)
        (tcp "10.10.0.1" "10.20.0.1" 443)
      ≡ some t)
    × (t.actions ≡ forward)
unfolding zone_subnet network campus_mask permit_match matches
permitted-forward_example =
    permitted-forward campus_switch (tcp "10.10.0.1" "10.20.0.1" 443) campus_profile
      (
        allow "staff_lan" (80 ∷ 443 ∷ []),
        "10.10.0.0/24",
        "10.20.0.0/24",
        443,
        inl refl,
        refl,
        refl,
        inr (inl refl),
        refl,
      )
      staff_not_blocked

abbrev closed_profile : TrafficProfile
closed_profile = record {
  zones = some (("it_lab", record { priority = some 2 }) ∷ []);
  zero_trust_rules = some (record {
    default_deny = none;
    allowed_flows = some [];
    blocked_flows = some (wifi_to_staff ∷ []);
  });
}

lab_ne_staff : ◌≢◌ {A = String} "it_lab" "staff_lan"
lab_ne_staff = ground (arith, string_eq.same_iff "it_lab" "staff_lan")

unpermitted-drop_example :
    (t : FlowMod) × (campus_switch.select
        (policy_table closed_profile)
        (tcp "10.30.0.2" "10.10.0.1" 22)
      ≡ some t)
    × (t.actions ≡ [])
unfolding network campus_mask
unpermitted-drop_example =
    unpermitted-drop campus_switch (tcp "10.30.0.2" "10.10.0.1" 22) closed_profile "it_lab"
      "10.30.0.0/24" "staff_lan" "10.10.0.0/24" refl (inr (inr (inl refl))) (inl refl) lab_ne_staff
      (refl, refl, refl) (omega arith) (λ h. h.4)

exam_mode_persists_example :
    (t : FlowMod) × (campus_switch.select
        (sent_to
          (update_exam_mode 7 false (update_exam_mode 7 true (install_policies_delayed 7 engine)))
          7)
        (tcp "10.40.0.3" "10.20.0.1" 8443)
      ≡ some t)
    × (t.actions ≡ set_queue 0 ∷ output normal ∷ [])
unfolding matches campus_mask init install_policies_delayed policy_table lookup
exam_mode_persists_example =
    exam_mode_persists campus_switch (install_policies_delayed 7 engine) 7
      (tcp "10.40.0.3" "10.20.0.1" 8443) (unfold init in sent_to-install engine 7) refl
