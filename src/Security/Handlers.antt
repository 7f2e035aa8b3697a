-- ===== src/Security/Handlers.antt =====
-- tumba_sdn/controller/security_module.py: the handlers keep the invariant, in every order in which
-- events and rounds of the cleanup come; and what `packet_in_handler` does with forbidden traffic.
use ai_driven_software_defin.Base.{
  ℕ, ◌+◌, ◌≡◌, refl, false, ◌||◌, Option, none, some, List, [], ◌∷◌, ◌++◌, map, String, Dict,
  insert, has_key, is_empty, insert-Unique, arith, Bool-cases, inl, inr, string_eq, nat_eq, member,
  leb, ◌∙◌, ap, All, true, eq_self, nat_beq_iff,
}
use ai_driven_software_defin.OpenFlow.{FlowMod, Packet, matches, eth_type_ip}
use ai_driven_software_defin.Security.Drops.{
  IsDropAt, OnlyDrops, then_drops, track_ctrl_flood-drops, check_tcp-drops,
}
use mathlib.Core.List.{append-nil, append_assoc}
use ai_driven_software_defin.Security.Zones.{
  security_cookie, ddos_cookie, ddos_drop_priority, ddos_block_duration_s, ddos_pps_threshold,
  ddos_mbps_threshold, portscan_drop_priority, host_ip_for_port, is_blocked_access, ip_to_zone,
}
use ai_driven_software_defin.Security.Module.{
  SecurityModule, PacketIn, Frame, unparsed, not_ipv4, ipv4, init, log_security_event, install_drop,
  drop_rule, flow_match, block_flow, check_tcp, inspect, packet_in_handler, track_ctrl_flood,
  drop_on_all, source_match, block_ddos, check_host, check_ddos, cleanup, switch_features_handler,
}
use ai_driven_software_defin.Security.Blocks.{
  IsValid, init-IsValid, log-IsValid, block_flow-IsValid, track-IsValid, check_port_scan-IsValid,
}
use ai_driven_software_defin.Security.Cleanup.{cleanup-IsValid}

check_tcp-IsValid :
    (now dpid : ℕ) (src dst : String) (port : Option ℕ) (in_port : ℕ) (s : SecurityModule)
    → IsValid s
    → IsValid (check_tcp now dpid src dst port in_port s)
unfolding check_tcp
check_tcp-IsValid now dpid src dst none in_port s v = v
check_tcp-IsValid now dpid src dst (some port) in_port s v =
    check_port_scan-IsValid now dpid src dst port in_port s v

attempt-IsValid :
    (s : SecurityModule) (n : ℕ) → IsValid s → IsValid (record s { security_flows_attempted = n })
attempt-IsValid s n v = record {
  ddos_unique = v.ddos_unique;
  scans_unique = v.scans_unique;
  scans_valid = v.scans_valid;
  alerted_blocked = v.alerted_blocked;
  events_bounded = v.events_bounded;
  typed = v.typed;
  active = v.active;
}

inspect-IsValid :
    (now dpid in_port : ℕ) (frame : Frame) (s : SecurityModule)
    → IsValid s
    → IsValid (inspect now dpid in_port frame s)
unfolding inspect
inspect-IsValid now dpid in_port unparsed s v = v
inspect-IsValid now dpid in_port not_ipv4 s v = v
inspect-IsValid now dpid in_port (ipv4 src dst port) s v =
    let s2 =
      check_tcp now dpid src dst port in_port
        (record s { security_flows_attempted = s.security_flows_attempted + 1 }) in
    let v2 : IsValid s2 =
      check_tcp-IsValid now dpid src dst port in_port _
        (attempt-IsValid s (s.security_flows_attempted + 1) v) in
    elim (Bool-cases (is_blocked_access (ip_to_zone src) (ip_to_zone dst))) [
      | inl e ↦ rw e (
          block_flow-IsValid now dpid src dst in_port "unauthorized_cross_zone"
            "zero_trust_violation" 300 s2 v2)
      | inr e ↦ rw e v2
    ]

pub packet_in-IsValid :
    (now : ℕ) (ev : PacketIn) (s : SecurityModule)
    → IsValid s
    → IsValid (packet_in_handler now ev s)
unfolding packet_in_handler
packet_in-IsValid now ev s v =
    inspect-IsValid now ev.dpid ev.in_port ev.frame _ (track-IsValid now ev.dpid ev.in_port s v)

-- The loop over the switches only sends.
pub drop_on_all_lem :
    (dpids : List ℕ) (src : String) (s : SecurityModule)
    → drop_on_all dpids src s ≡ record s {
      sent =
          s.sent
          ++ map
              (λ dpid. (
                dpid,
                drop_rule (source_match src) ddos_cookie ddos_drop_priority ddos_block_duration_s,
              ))
              dpids;
    }
unfolding drop_on_all install_drop
drop_on_all_lem [] src s = rw append-nil refl
drop_on_all_lem (dpid ∷ dpids) src s = rw (drop_on_all_lem dpids src _) (rw append_assoc refl)

insert_nonempty : (k : String) (v : ℕ) (m : Dict String ℕ) → is_empty (insert k v m) ≡ false
unfolding insert
insert_nonempty k v [] = refl
insert_nonempty k v ((j, w) ∷ m) = ground arith

block_ddos-IsValid :
    (now : ℕ) (src : String) (s : SecurityModule) → IsValid s → IsValid (block_ddos now src s)
unfolding block_ddos
block_ddos-IsValid now src s v = rw (drop_on_all_lem s.datapaths src s) (
    log-IsValid _ _ (record {
      ddos_unique = insert-Unique src now s.ddos_blocked_ips v.ddos_unique;
      scans_unique = v.scans_unique;
      scans_valid = v.scans_valid;
      alerted_blocked = v.alerted_blocked;
      events_bounded = v.events_bounded;
      typed = refl;
      active = λ e. refl;
    }))

check_host-IsValid :
    (now dpid : ℕ) (host : Option String) (s : SecurityModule)
    → IsValid s
    → IsValid (check_host now dpid host s)
unfolding check_host
check_host-IsValid now dpid none s v = v
check_host-IsValid now dpid (some src) s v = elim (Bool-cases (has_key src s.ddos_blocked_ips)) [
  | inl e ↦ rw e v
  | inr e ↦ rw e (elim (Bool-cases (member dpid s.datapaths)) [
    | inl y ↦ rw y (block_ddos-IsValid now src s v)
    | inr n ↦ rw n v
  ])
]

pub check_ddos-IsValid :
    (now dpid port_no pps mbps : ℕ) (s : SecurityModule)
    → IsValid s
    → IsValid (check_ddos now dpid port_no pps mbps s)
unfolding check_ddos
check_ddos-IsValid now dpid port_no pps mbps s v =
    elim (Bool-cases (leb ddos_pps_threshold pps || leb ddos_mbps_threshold mbps)) [
      | inl e ↦ rw e (check_host-IsValid now dpid (host_ip_for_port dpid port_no) s v)
      | inr e ↦ rw e v
    ]

pub switch_features-IsValid :
    (dpid : ℕ) (s : SecurityModule) → IsValid s → IsValid (switch_features_handler dpid s)
unfolding switch_features_handler
switch_features-IsValid dpid s v = record {
  ddos_unique = v.ddos_unique;
  scans_unique = v.scans_unique;
  scans_valid = v.scans_valid;
  alerted_blocked = v.alerted_blocked;
  events_bounded = v.events_bounded;
  typed = v.typed;
  active = v.active;
}

-- A packet-in message with an IP packet that Ryu parses.
abbrev pub packet_in_of : ℕ → Packet → PacketIn
packet_in_of dpid p = record {
  dpid = dpid;
  in_port = p.in_port;
  frame = ipv4 p.ipv4_src p.ipv4_dst p.tcp_dst;
}

-- What can happen to the module, at any time and in any order.
pub data Step (s : SecurityModule) : SecurityModule → Type 0 where
  connect : (dpid : ℕ) → Step s (switch_features_handler dpid s)
  packet_in : (now : ℕ) (ev : PacketIn) → Step s (packet_in_handler now ev s)
  stats : (now dpid port_no pps mbps : ℕ) → Step s (check_ddos now dpid port_no pps mbps s)
  clean : (now : ℕ) → Step s (cleanup now s)

pub data Reach (s : SecurityModule) : SecurityModule → Type 0 where
  here : Reach s s
  next : {t u : SecurityModule} → Reach s t → Step t u → Reach s u

Step-IsValid : {s t : SecurityModule} → Step s t → IsValid s → IsValid t
Step-IsValid {s} (connect dpid) v = switch_features-IsValid dpid s v
Step-IsValid {s} (packet_in now ev) v = packet_in-IsValid now ev s v
Step-IsValid {s} (stats now dpid port_no pps mbps) v =
    check_ddos-IsValid now dpid port_no pps mbps s v
Step-IsValid {s} (clean now) v = cleanup-IsValid now s v

-- Every state that the module can reach from its start satisfies the invariant: one entry for each
-- blocked address, port sets that are those of their windows, a source blocked for a scan exactly
-- if its entry has raised the alarm, at most 500 events, and an attack flag that agrees with the
-- attack type and is set while an address is blocked.
pub Reach-IsValid : {s : SecurityModule} → Reach init s → IsValid s
Reach-IsValid here = init-IsValid
Reach-IsValid (next r st) = Step-IsValid st (Reach-IsValid r)

-- The flow of the packet, matched by the rule that `_block_flow` sends.
flow_match-matches :
    (mask : String → String → String) (p : Packet)
    → p.eth_type ≡ eth_type_ip
    → matches mask (flow_match p.in_port p.ipv4_src p.ipv4_dst) p ≡ true
unfolding matches
flow_match-matches mask p ip =
    ground (arith, ip, eq_self p.ipv4_src, eq_self p.ipv4_dst, nat_beq_iff p.in_port p.in_port)

abbrev pub forbidden_drop : Packet → FlowMod
forbidden_drop p =
    drop_rule (flow_match p.in_port p.ipv4_src p.ipv4_dst) security_cookie portscan_drop_priority
      300

-- In every state, an IP packet from an address of the student Wi-Fi to one of the staff network
-- makes the handler keep what it has sent, send nothing but drop rules, all to the packet's switch,
-- and send last the rule that drops this flow for 300 seconds, which matches the packet whatever
-- the switch makes of masks.
pub packet_in-forbidden :
    (mask : String → String → String) (now dpid : ℕ) (p : Packet) (s : SecurityModule)
    → p.eth_type ≡ eth_type_ip
    → ip_to_zone p.ipv4_src ≡ "student_wifi"
    → ip_to_zone p.ipv4_dst ≡ "staff_lan"
    → let t = packet_in_handler now (packet_in_of dpid p) s in
      ((more : List (ℕ × FlowMod)) × All (IsDropAt dpid) more
        × (t.sent ≡ s.sent ++ (more ++ ((dpid, forbidden_drop p) ∷ []))))
      × (matches mask (forbidden_drop p).match p ≡ true)
unfolding packet_in_handler inspect block_flow install_drop log_security_event is_blocked_access
packet_in-forbidden mask now dpid p s ip a b =
    let t = track_ctrl_flood now dpid p.in_port s in
    let u = record t { security_flows_attempted = t.security_flows_attempted + 1 } in
    let v = check_tcp now dpid p.ipv4_src p.ipv4_dst p.tcp_dst p.in_port u in
    let drops : OnlyDrops dpid s v =
      then_drops dpid s t v (track_ctrl_flood-drops now dpid p.in_port s)
        (check_tcp-drops now dpid p.ipv4_src p.ipv4_dst p.tcp_dst p.in_port u) in
    let last = (dpid, forbidden_drop p) ∷ [] in
    rw (a, b)
      (
        (drops.0, drops.2, ap (λ l. l ++ last) drops.1 ∙ append_assoc s.sent drops.0 last),
        flow_match-matches mask p ip,
      )
