-- ===== src/Adaptive/Handlers/Dropped.antt =====
-- examples/campus_controller.py: what `packet_in_handler` sends on for a packet from a student lab to
-- an isolated zone.
use ai_driven_software_defin.Base.{
  ℕ, ◌+◌, ◌*◌, ◌-◌, true, false, not, ◌&&◌, Option, none, some, List, [], ◌∷◌, ◌++◌, String, In,
  All, All-append, lookup, insert, erase, or_else, first_some, has_key, length, leb, nat_beq,
  nat_eq, string_eq, ◌≡◌, refl, ap, ◌∙◌, if◌then◌else◌, if-both, arith,
}
use mathlib.Core.List.{append_assoc}
use ai_driven_software_defin.OpenFlow.{Packet, any_match, eth_type_ip}
use ai_driven_software_defin.Adaptive.Zones.{default_security_policy}
use ai_driven_software_defin.Adaptive.Tables.{zone_student_lab}
use ai_driven_software_defin.Adaptive.State.{
  CampusController, Message, flow, delete_cookie, packet_out, add_flow, append_event,
  ctrl_flood_detected, ctrl_plane, portscan_detected,
}
use ai_driven_software_defin.Adaptive.Attacks.Floods.{
  drop_flow, mitigate_ctrl_flood, track_ctrl_pkt_in, drop_before, ctrl_flood_window,
  ctrl_flood_threshold, second,
}
use ai_driven_software_defin.Adaptive.Attacks.Scans.{
  check_port_scan, record_contact, contact, is_scan, new_entry, blocked_until,
  install_portscan_drop, drop_on_others, scan_drop, portscan_block,
}
use ai_driven_software_defin.Adaptive.Security.Verdict.{
  enforce_security_policy, security_drop, ip_match,
}
use ai_driven_software_defin.Adaptive.Security.Isolation.{isolated_zones, default_isolation}
use ai_driven_software_defin.Adaptive.Handlers.Packets.{
  learn, inspect, scan_port, is_ip_packet, unless_blocked, packet_in_handler, eth_type_lldp,
}

-- A flow with no actions: what it matches is dropped.
abbrev pub IsDrop : ℕ × Message → Type 0
IsDrop (dpid, flow r) = r.actions ≡ []
IsDrop (dpid, delete_cookie cookie) = ⊥
IsDrop (dpid, packet_out in_port buffer_id actions) = ⊥

-- From one state to another only drops are sent, and the security policy stays.
abbrev pub OnlyDrops : CampusController → CampusController → Type 0
OnlyDrops s t =
    (more : List (ℕ × Message)) × (t.sent ≡ s.sent ++ more)
    × All IsDrop more
    × (t.security_policy ≡ s.security_policy)

pub append_nil : {A : Type 0} (xs : List A) → xs ≡ xs ++ []
append_nil [] = refl
append_nil (x ∷ xs) = ap (λ l. x ∷ l) (append_nil xs)

none_sent :
    (s t : CampusController)
    → t.sent ≡ s.sent
    → t.security_policy ≡ s.security_policy
    → OnlyDrops s t
none_sent s t e f = ([], e ∙ append_nil s.sent, tt, f)

then_drops : (s t u : CampusController) → OnlyDrops s t → OnlyDrops t u → OnlyDrops s u
then_drops s t u (a, e, p, f) (b, g, q, h) =
    (a ++ b, g ∙ ap (λ l. l ++ b) e ∙ append_assoc s.sent a b, All-append IsDrop a b p q, h ∙ f)

track-drops :
    (now dpid in_port : ℕ) (s : CampusController)
    → OnlyDrops s (track_ctrl_pkt_in now dpid in_port s)
unfolding track_ctrl_pkt_in mitigate_ctrl_flood add_flow append_event
track-drops now dpid in_port s =
    let times =
      drop_before (now - ctrl_flood_window)
        (or_else (lookup dpid s.ctrl_pkt_in_times) [] ++ (now ∷ [])) in
    let t : CampusController = record s {
      ctrl_pkt_in_times = insert dpid times s.ctrl_pkt_in_times;
    } in
    let kept : OnlyDrops s t = none_sent s t refl refl in
    let mitigated : CampusController = append_event (ctrl_flood_detected dpid in_port) (
      add_flow dpid (drop_flow 401 (record any_match { in_port = some in_port }) 30) (record t {
        ctrl_flood_switches = insert dpid now t.ctrl_flood_switches;
        ctrl_flood_active = true;
        ddos_active = true;
        ddos_attack_type = some ctrl_plane;
        ddos_detection_ts = now;
        ddos_blocked_flows = t.ddos_blocked_flows + 1;
      })) in
    if-both (OnlyDrops s)
      (leb (ctrl_flood_threshold * ctrl_flood_window) (length times * second)
        && not (has_key dpid t.ctrl_flood_switches))
      (mitigate_ctrl_flood now dpid in_port t) t
      (λ e.
        if-both (OnlyDrops s) (has_key dpid t.ctrl_flood_switches) t mitigated (λ f. kept)
          (λ f. (_, refl, (refl, tt), refl)))
      (λ e. kept)

drop_on_others-drops :
    (here : ℕ) (src_ip : String) (dpids : List ℕ) (s : CampusController)
    → OnlyDrops s (drop_on_others here src_ip dpids s)
unfolding drop_on_others add_flow
drop_on_others-drops here src_ip [] s = none_sent s s refl refl
drop_on_others-drops here src_ip (d ∷ dpids) s =
    let t : CampusController = if nat_beq d here then s else add_flow d (scan_drop src_ip) s in
    let first : OnlyDrops s t =
      if-both (OnlyDrops s) (nat_beq d here) s (add_flow d (scan_drop src_ip) s)
        (λ e. none_sent s s refl refl)
        (λ e. ((d, flow (scan_drop src_ip)) ∷ [], refl, (refl, tt), refl)) in
    then_drops s t (drop_on_others here src_ip dpids t) first
      (drop_on_others-drops here src_ip dpids t)

record_contact-drops :
    (now : ℕ) (src_ip : String) (dst_port dpid : ℕ) (s : CampusController)
    → OnlyDrops s (record_contact now src_ip dst_port dpid s)
unfolding record_contact install_portscan_drop add_flow append_event
record_contact-drops now src_ip dst_port dpid s =
    let entry = contact now dst_port (or_else (lookup src_ip s.portscan_state) new_entry) in
    let t : CampusController = record s {
      portscan_state = insert src_ip (record entry { alerted = true }) s.portscan_state;
      portscan_block_ips = insert src_ip (now + portscan_block) s.portscan_block_ips;
    } in
    let u = add_flow dpid (scan_drop src_ip) t in
    let v = drop_on_others dpid src_ip t.datapaths u in
    let here : OnlyDrops s u = ((dpid, flow (scan_drop src_ip)) ∷ [], refl, (refl, tt), refl) in
    if-both (OnlyDrops s) (is_scan entry)
      (append_event (portscan_detected src_ip (length entry.ports)) v)
      (record s { portscan_state = insert src_ip entry s.portscan_state })
      (λ e. then_drops s u v here (drop_on_others-drops dpid src_ip t.datapaths u))
      (λ e. ([], append_nil s.sent, tt, refl))

scan_port-drops :
    (now dpid : ℕ) (p : Packet) (dst_port : Option ℕ) (s : CampusController)
    → OnlyDrops s (scan_port now dpid p dst_port s)
unfolding scan_port check_port_scan
scan_port-drops now dpid p none s = none_sent s s refl refl
scan_port-drops now dpid p (some dst_port) s =
    let t : CampusController = record s {
      portscan_block_ips = erase p.ipv4_src s.portscan_block_ips;
    } in
    let u = record_contact now p.ipv4_src dst_port dpid t in
    if-both (OnlyDrops s) (blocked_until (lookup p.ipv4_src s.portscan_block_ips) now) s u
      (λ e. none_sent s s refl refl) (λ e. record_contact-drops now p.ipv4_src dst_port dpid t)

inspect-drops :
    (now dpid : ℕ) (p : Packet) (s : CampusController) → OnlyDrops s (inspect now dpid p s)
unfolding inspect learn
inspect-drops now dpid p s =
    let t = learn dpid p s in
    let u = track_ctrl_pkt_in now dpid p.in_port t in
    let dst_port = first_some p.tcp_dst p.udp_dst in
    let v = scan_port now dpid p dst_port u in
    let tracked : OnlyDrops s u =
      then_drops s t u ([], append_nil s.sent, tt, refl) (track-drops now dpid p.in_port t) in
    if-both (OnlyDrops s) (is_ip_packet p) v u
      (λ e. then_drops s u v tracked (scan_port-drops now dpid p dst_port u)) (λ e. tracked)

-- While the default security policy is in force, an IP packet from a student lab to an isolated
-- zone is never sent on: whatever the state, all that the switches get are flows with no actions,
-- and the last of them is the drop of this packet's flow on its switch.
pub packet_in_handler-isolated :
    (now dpid : ℕ) (buffer_id : Option ℕ) (p : Packet) (s : CampusController)
    → s.security_policy ≡ default_security_policy
    → p.eth_type ≡ eth_type_ip
    → In p.ipv4_src zone_student_lab
    → In p.ipv4_dst isolated_zones
    → (more : List (ℕ × Message)) × All IsDrop more
      × ((packet_in_handler now dpid buffer_id (some p) s).sent
          ≡ s.sent
            ++ (more
                ++ ((dpid, flow (security_drop default_security_policy (ip_match p) buffer_id))
                    ∷ [])))
unfolding packet_in_handler
packet_in_handler-isolated now dpid buffer_id p s policy ip src dst =
    let counted : CampusController = record s { packet_in_count = s.packet_in_count + 1 } in
    let t = inspect now dpid p counted in
    let seen = inspect-drops now dpid p counted in
    let blocked = default_isolation now dpid buffer_id p t (seen.3 ∙ policy) ip src dst in
    let drop : ℕ × Message =
      (dpid, flow (security_drop default_security_policy (ip_match p) buffer_id)) in
    let not_lldp : nat_beq p.eth_type eth_type_lldp ≡ false = ground (arith, ip) in
    (
      seen.0,
      seen.2,
      ap
            (λ b.
              (if b
                then counted
                else unless_blocked dpid buffer_id p
                    (enforce_security_policy now dpid buffer_id p t)).sent)
            not_lldp
          ∙ ap (λ r. (unless_blocked dpid buffer_id p r).sent) blocked.1
          ∙ blocked.2
          ∙ ap (λ l. l ++ (drop ∷ [])) seen.1
          ∙ append_assoc s.sent seen.0 (drop ∷ []),
    )
