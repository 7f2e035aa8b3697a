-- ===== src/Adaptive/Attacks/Scans.antt =====
-- examples/campus_controller.py: `_check_port_scan`, `_install_portscan_drop` and
-- `_cleanup_portscan_state`.
use ai_driven_software_defin.Base.{
  ℕ, ◌+◌, ◌*◌, ◌-◌, Bool, true, false, not, ◌&&◌, Option, none, some, List, [], ◌∷◌, ◌++◌, String,
  lookup, insert, erase, or_else, add, keys_where, length, ltb, leb, nat_beq, nat_eq, string_eq,
  if◌then◌else◌,
}
use ai_driven_software_defin.OpenFlow.{FlowMod, any_match, exact, eth_type_ip}
use ai_driven_software_defin.Adaptive.State.{
  ScanEntry, CampusController, add_flow, append_event, portscan_detected, portscan_block_expired,
}
use ai_driven_software_defin.Adaptive.Attacks.Floods.{second, drop_flow, drop_before}

abbrev pub portscan_port_limit : ℕ
portscan_port_limit = 30

abbrev pub portscan_window : ℕ
portscan_window = 10 * second

abbrev pub portscan_block : ℕ
portscan_block = 300 * second

abbrev pub scan_drop : String → FlowMod
scan_drop src_ip =
    drop_flow 390 (record any_match { eth_type = some eth_type_ip; ipv4_src = some (exact src_ip) })
      300

-- The drop on the switches but the one that has it already.
unfoldable pub drop_on_others : ℕ → String → List ℕ → CampusController → CampusController
unfolding add_flow
drop_on_others here src_ip [] s = s
drop_on_others here src_ip (dpid ∷ dpids) s =
    drop_on_others here src_ip dpids
      (if nat_beq dpid here then s else add_flow dpid (scan_drop src_ip) s)

unfoldable pub install_portscan_drop : ℕ → String → CampusController → CampusController
unfolding add_flow drop_on_others
install_portscan_drop dpid src_ip s =
    drop_on_others dpid src_ip s.datapaths (add_flow dpid (scan_drop src_ip) s)

abbrev pub new_entry : ScanEntry
new_entry = record { ports = []; ts_deque = []; alerted = false }

-- The entry of an address after a contact: the old times are pruned, the ports are not.
unfoldable pub contact : ℕ → ℕ → ScanEntry → ScanEntry
unfolding drop_before add
contact now dst_port entry = record entry {
  ts_deque = drop_before (now - portscan_window) entry.ts_deque ++ (now ∷ []);
  ports = add dst_port entry.ports;
}

unfoldable pub is_scan : ScanEntry → Bool
is_scan entry = leb portscan_port_limit (length entry.ports) && not entry.alerted

-- The address is blocked, until that time.
abbrev pub blocked_until : Option ℕ → ℕ → Bool
blocked_until none now = false
blocked_until (some until) now = ltb now until

unfoldable pub record_contact : ℕ → String → ℕ → ℕ → CampusController → CampusController
unfolding lookup insert contact is_scan install_portscan_drop append_event
record_contact now src_ip dst_port dpid s =
    let entry = contact now dst_port (or_else (lookup src_ip s.portscan_state) new_entry) in
    if is_scan entry
    then append_event (portscan_detected src_ip (length entry.ports)) (
        install_portscan_drop dpid src_ip (record s {
          portscan_state = insert src_ip (record entry { alerted = true }) s.portscan_state;
          portscan_block_ips = insert src_ip (now + portscan_block) s.portscan_block_ips;
        }))
    else record s { portscan_state = insert src_ip entry s.portscan_state }

unfoldable pub check_port_scan : ℕ → String → ℕ → ℕ → CampusController → CampusController
unfolding lookup erase record_contact
check_port_scan now src_ip dst_port dpid s =
    if blocked_until (lookup src_ip s.portscan_block_ips) now
    then s
    else record_contact now src_ip dst_port dpid
        (record s { portscan_block_ips = erase src_ip s.portscan_block_ips })

unfoldable pub expire_blocks : List String → CampusController → CampusController
unfolding erase append_event
expire_blocks [] s = s
expire_blocks (ip ∷ expired) s = expire_blocks expired (
    append_event (portscan_block_expired ip) (record s {
      portscan_block_ips = erase ip s.portscan_block_ips;
      portscan_state = erase ip s.portscan_state;
    }))

unfoldable pub cleanup_portscan_state : ℕ → CampusController → CampusController
unfolding keys_where expire_blocks
cleanup_portscan_state now s =
    expire_blocks (keys_where (λ until. ltb until now) s.portscan_block_ips) s
