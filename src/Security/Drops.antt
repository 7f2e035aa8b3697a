-- ===== src/Security/Drops.antt =====
-- tumba_sdn/controller/security_module.py: what the checks of a packet send before its zones are
-- compared, namely drop rules.
use ai_driven_software_defin.Base.{
  ℕ, ◌*◌, ◌≡◌, refl, ◌∙◌, sym, ap, true, Option, none, some, List, [], ◌++◌, String, lookup, insert,
  or_else, length, leb, All, All-append, if-both, string_eq, nat_eq,
}
use mathlib.Core.List.{append_assoc, append-nil}
use ai_driven_software_defin.OpenFlow.{FlowMod}
use ai_driven_software_defin.Security.Zones.{ctrl_flood_threshold, portscan_block_duration_s}
use ai_driven_software_defin.Security.Module.{
  SecurityModule, log_security_event, install_drop, block_flow, mitigate_ctrl_flood, recent_times,
  track_ctrl_flood, no_scan, scan_after, is_scan, check_port_scan, check_tcp,
}

-- A message to one switch that has it drop what it matches.
abbrev pub IsDropAt : ℕ → ℕ × FlowMod → Type 0
IsDropAt dpid m = (m.0 ≡ dpid) × (m.1.actions ≡ [])

-- From one state to another nothing but drops is sent, all of them to one switch.
abbrev pub OnlyDrops : ℕ → SecurityModule → SecurityModule → Type 0
OnlyDrops dpid s t =
    (more : List (ℕ × FlowMod)) × (t.sent ≡ s.sent ++ more) × All (IsDropAt dpid) more

pub then_drops :
    (dpid : ℕ) (s t u : SecurityModule)
    → OnlyDrops dpid s t
    → OnlyDrops dpid t u
    → OnlyDrops dpid s u
then_drops dpid s t u (a, e, p) (b, g, q) =
    (a ++ b, g ∙ ap (λ l. l ++ b) e ∙ append_assoc s.sent a b, All-append (IsDropAt dpid) a b p q)

none_sent : (dpid : ℕ) (s t : SecurityModule) → t.sent ≡ s.sent → OnlyDrops dpid s t
none_sent dpid s t e = ([], e ∙ sym (append-nil s.sent), tt)

pub track_ctrl_flood-drops :
    (now dpid in_port : ℕ) (s : SecurityModule)
    → OnlyDrops dpid s (track_ctrl_flood now dpid in_port s)
unfolding track_ctrl_flood mitigate_ctrl_flood install_drop log_security_event
track_ctrl_flood-drops now dpid in_port s =
    let times = recent_times now (or_else (lookup dpid s.ctrl_pkt_in_times) []) in
    let rate = 2 * length times in
    let t : SecurityModule = record s {
      ctrl_pkt_in_times = insert dpid times s.ctrl_pkt_in_times;
      ctrl_pkt_in_rate = insert dpid rate s.ctrl_pkt_in_rate;
    } in
    if-both (OnlyDrops dpid s) (leb ctrl_flood_threshold rate)
      (mitigate_ctrl_flood now dpid in_port t) t (λ e. (_, refl, ((refl, refl), tt)))
      (λ e. none_sent dpid s t refl)

pub check_tcp-drops :
    (now dpid : ℕ) (src dst : String) (port : Option ℕ) (in_port : ℕ) (s : SecurityModule)
    → OnlyDrops dpid s (check_tcp now dpid src dst port in_port s)
unfolding check_tcp check_port_scan block_flow install_drop log_security_event
check_tcp-drops now dpid src dst none in_port s = none_sent dpid s s refl
check_tcp-drops now dpid src dst (some port) in_port s =
    let c = scan_after now port (or_else (lookup src s.portscan_state) no_scan) in
    let alarm : SecurityModule = record s {
      portscan_state = insert src (record c { alerted = true }) s.portscan_state;
    } in
    let seen : SecurityModule = record s { portscan_state = insert src c s.portscan_state } in
    let blocked =
      block_flow now dpid src dst in_port "port_scan_detected" "port_scan" portscan_block_duration_s
        alarm in
    if-both (OnlyDrops dpid s) (is_scan c)
      (record blocked { portscan_blocked = insert src now blocked.portscan_blocked }) seen
      (λ e. (_, refl, ((refl, refl), tt))) (λ e. none_sent dpid s seen refl)
