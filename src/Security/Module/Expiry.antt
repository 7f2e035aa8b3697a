-- ===== src/Security/Module/Expiry.antt =====
-- tumba_sdn/controller/security_module.py: one round of `_cleanup_loop`, and the summary.
use ai_driven_software_defin.Base.{
  ℕ, ◌+◌, Bool, not, Option, none, List, [], ◌∷◌, String, erase, is_empty, keys, keys_where,
  pop_all, last_n, leb, if◌then◌else◌, string_eq, nat_eq,
}
use ai_driven_software_defin.Security.Module.State.{
  SecurityEvent, SecurityModule, log_security_event,
}

abbrev pub ddos_expired : ℕ → ℕ → Bool
ddos_expired now ts = leb (ts + 305_000) now

abbrev pub portscan_expired : ℕ → ℕ → Bool
portscan_expired now ts = leb (ts + 305_000) now

-- The loop of `_cleanup_loop` over the expired addresses.
unfoldable pub unblock_all : ℕ → List String → SecurityModule → SecurityModule
unblock_all now [] s = s
unblock_all now (ip ∷ ips) s = unblock_all now ips (
    log_security_event
      (record {
        ts = now;
        event_type = "ddos_block_expired";
        zone = "";
        src_ip = ip;
        dst_ip = "";
        attack_type = "";
        action_taken = "block_removed";
      })
      (record s { ddos_blocked_ips = erase ip s.ddos_blocked_ips }))

-- `if expired:` the flag follows the dictionary.
unfoldable pub refresh_ddos : List String → SecurityModule → SecurityModule
refresh_ddos [] s = s
refresh_ddos (ip ∷ ips) s =
    let active = not (is_empty s.ddos_blocked_ips) in
    record s {
      ddos_active = active;
      ddos_attack_type = if active then s.ddos_attack_type else none;
    }

-- One round of `_cleanup_loop`.
unfoldable pub cleanup : ℕ → SecurityModule → SecurityModule
cleanup now s =
    let expired = keys_where (ddos_expired now) s.ddos_blocked_ips in
    let s1 = refresh_ddos expired (unblock_all now expired s) in
    let scans = keys_where (portscan_expired now) s1.portscan_blocked in
    record s1 {
      portscan_blocked = pop_all scans s1.portscan_blocked;
      portscan_state = pop_all scans s1.portscan_state;
    }

pub record SecuritySummary : Type 0 where
  pub ddos_active : Bool
  pub ddos_attack_type : Option String
  pub ddos_blocked_ips : List String
  pub ddos_blocked_flows : ℕ
  pub portscan_blocked : List String
  pub security_flows_attempted : ℕ
  pub security_flows_blocked : ℕ
  pub recent_events : List SecurityEvent

unfoldable pub get_security_summary : SecurityModule → SecuritySummary
get_security_summary s = record {
  ddos_active = s.ddos_active;
  ddos_attack_type = s.ddos_attack_type;
  ddos_blocked_ips = keys s.ddos_blocked_ips;
  ddos_blocked_flows = s.ddos_blocked_flows;
  portscan_blocked = keys s.portscan_blocked;
  security_flows_attempted = s.security_flows_attempted;
  security_flows_blocked = s.security_flows_blocked;
  recent_events = last_n 20 s.security_events;
}
