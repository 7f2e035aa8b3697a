-- ===== src/Security/Module/Detection.antt =====
-- tumba_sdn/controller/security_module.py: floods of packet-ins and port scans.
use ai_driven_software_defin.Base.{
  ℕ, ◌+◌, ◌*◌, Bool, true, false, not, ◌&&◌, some, List, [], ◌∷◌, ◌++◌, String, lookup, insert, add,
  or_else, last_n, length, leb, ltb, if◌then◌else◌, string_eq, nat_eq,
}
use ai_driven_software_defin.OpenFlow.{any_match}
use ai_driven_software_defin.Security.Zones.{
  ddos_cookie, ddos_drop_priority, portscan_port_limit, portscan_window_ms,
  portscan_block_duration_s, ctrl_flood_window_ms, ctrl_flood_threshold, dpid_to_zone,
}
use ai_driven_software_defin.Security.Module.State.{
  ScanState, SecurityModule, log_security_event, install_drop, block_flow,
}

-- `deque(maxlen=n).append`: the oldest element makes room.
unfoldable pub push {ℓ} : {A : Type ℓ} → ℕ → A → List A → List A
push maxlen a deque = last_n maxlen (deque ++ (a ∷ []))

-- The loop of `_track_ctrl_flood`; a time `t` is old if `t < now - window`.
unfoldable pub drop_old : ℕ → List ℕ → List ℕ
drop_old now [] = []
drop_old now (t ∷ ts) = elim (ltb (t + ctrl_flood_window_ms) now) [
  | true ↦ drop_old now ts
  | false ↦ t ∷ ts
]

-- `_mitigate_ctrl_flood`.
unfoldable pub mitigate_ctrl_flood : ℕ → ℕ → ℕ → SecurityModule → SecurityModule
mitigate_ctrl_flood now dpid in_port s =
    let s1 =
      install_drop dpid (record any_match { in_port = some in_port }) ddos_cookie
        (ddos_drop_priority + 1) 30 s in
    let s2 = record s1 {
      ddos_active = true;
      ddos_attack_type = some "ctrl_plane";
      ddos_detection_ts = now;
    } in
    log_security_event
      (record {
        ts = now;
        event_type = "ctrl_plane_flood";
        zone = dpid_to_zone dpid;
        src_ip = "";
        dst_ip = "";
        attack_type = "ctrl_plane_flood";
        action_taken = "port_drop_rule";
      })
      s2

-- The packet-in times of a switch after one more at `now`.
unfoldable pub recent_times : ℕ → List ℕ → List ℕ
recent_times now times = drop_old now (push 500 now times)

-- `_track_ctrl_flood`; the window is half a second, so the rate is twice the count.
unfoldable pub track_ctrl_flood : ℕ → ℕ → ℕ → SecurityModule → SecurityModule
unfolding recent_times
track_ctrl_flood now dpid in_port s =
    let times = recent_times now (or_else (lookup dpid s.ctrl_pkt_in_times) []) in
    let rate = 2 * length times in
    let s1 = record s {
      ctrl_pkt_in_times = insert dpid times s.ctrl_pkt_in_times;
      ctrl_pkt_in_rate = insert dpid rate s.ctrl_pkt_in_rate;
    } in
    if leb ctrl_flood_threshold rate then mitigate_ctrl_flood now dpid in_port s1 else s1

-- `{p for p, t in deque}`, as a list without repetition.
unfoldable pub port_set : List (ℕ × ℕ) → List ℕ
port_set [] = []
port_set ((p, t) ∷ deque) = add p (port_set deque)

-- The loop of `_check_port_scan` that removes old connections and counts the ports again.
unfoldable pub clean_scan : ℕ → List (ℕ × ℕ) → List ℕ → Bool → ScanState
clean_scan now [] ports alerted = record { ports = ports; ts_deque = []; alerted = alerted }
clean_scan now ((p, t) ∷ deque) ports alerted = elim (ltb (t + portscan_window_ms) now) [
  | true ↦ clean_scan now deque (port_set deque) alerted
  | false ↦ record { ports = ports; ts_deque = (p, t) ∷ deque; alerted = alerted }
]

abbrev pub no_scan : ScanState
no_scan = record { ports = []; ts_deque = []; alerted = false }

-- The entry of a source after one more connection.
unfoldable pub scan_after : ℕ → ℕ → ScanState → ScanState
scan_after now dst_port c =
    clean_scan now (c.ts_deque ++ ((dst_port, now) ∷ [])) (add dst_port c.ports) c.alerted

-- Whether an entry raises the alarm.
abbrev pub is_scan : ScanState → Bool
is_scan c = leb portscan_port_limit (length c.ports) && not c.alerted

-- `_check_port_scan`.
unfoldable pub check_port_scan : ℕ → ℕ → String → String → ℕ → ℕ → SecurityModule → SecurityModule
check_port_scan now dpid src_ip dst_ip dst_port in_port s =
    let c = scan_after now dst_port (or_else (lookup src_ip s.portscan_state) no_scan) in
    if is_scan c
    then (let s1 = record s {
      portscan_state = insert src_ip (record c { alerted = true }) s.portscan_state;
    } in
        let s2 =
          block_flow now dpid src_ip dst_ip in_port "port_scan_detected" "port_scan"
            portscan_block_duration_s s1 in
        record s2 { portscan_blocked = insert src_ip now s2.portscan_blocked })
    else record s { portscan_state = insert src_ip c s.portscan_state }
