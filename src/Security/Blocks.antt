-- ===== src/Security/Blocks.antt =====
-- tumba_sdn/controller/security_module.py: the invariant of the module's state, which every handler
-- keeps. Its children say what the handlers do with floods and with expired blocks.
use ai_driven_software_defin.Base.{
  ℕ, ◌≤◌, ◌≡◌, refl, sym, ◌∙◌, Bool, true, false, Option, none, some, [], ◌∷◌, ◌++◌, String, lookup,
  insert, or_else, is_empty, Unique, insert-Unique, lookup-insert, length, length-last_n, string_eq,
  nat_eq, ◌==◌, arith, Bool-cases, Option-cases, inl, inr, leb, ◌*◌, eq→path,
}
use ai_driven_software_defin.Security.Zones.{ctrl_flood_threshold, portscan_block_duration_s}
use ai_driven_software_defin.OpenFlow.{Match}
use ai_driven_software_defin.Security.Module.{
  ScanState, SecurityModule, SecurityEvent, init, log_security_event, install_drop, block_flow,
  mitigate_ctrl_flood, track_ctrl_flood, scan_after, no_scan, is_scan, check_port_scan,
  recent_times,
}
use ai_driven_software_defin.Security.Scan.{
  ScanIsValid, no_scan-IsValid, scan_after-IsValid, scan_after_alerted,
}

abbrev pub has_value : Option ℕ → Bool
has_value none = false
has_value (some ts) = true

abbrev pub is_alerted : Option ScanState → Bool
is_alerted none = false
is_alerted (some c) = c.alerted

abbrev pub has_type : Option String → Bool
has_type none = false
has_type (some t) = true

pub record IsValid (s : SecurityModule) : Type 0 where
  -- The dictionaries of blocks have one entry for each address.
  pub ddos_unique : Unique s.ddos_blocked_ips
  pub scans_unique : Unique s.portscan_blocked
  -- Each entry counts the ports of its window.
  pub scans_valid :
      (ip : String) (c : ScanState) → lookup ip s.portscan_state ≡ some c → ScanIsValid c
  -- A source is blocked for a scan exactly if its entry has raised the alarm.
  pub alerted_blocked :
      (ip : String)
      → has_value (lookup ip s.portscan_blocked) ≡ is_alerted (lookup ip s.portscan_state)
  -- The log of events is bounded.
  pub events_bounded : length s.security_events ≤ 500
  -- The flag says that there is a type of attack, and is set while an address is blocked.
  pub typed : s.ddos_active ≡ has_type s.ddos_attack_type
  pub active : is_empty s.ddos_blocked_ips ≡ false → s.ddos_active ≡ true

pub init-IsValid : IsValid init
unfolding init lookup
init-IsValid = record {
  ddos_unique = tt;
  scans_unique = tt;
  scans_valid = λ ip c e. absurd (cc);
  alerted_blocked = λ ip. refl;
  events_bounded = omega arith;
  typed = refl;
  active = λ e. absurd (cc);
}

pub log-IsValid :
    (event : SecurityEvent) (s : SecurityModule) → IsValid s → IsValid (log_security_event event s)
unfolding log_security_event
log-IsValid event s v = record {
  ddos_unique = v.ddos_unique;
  scans_unique = v.scans_unique;
  scans_valid = v.scans_valid;
  alerted_blocked = v.alerted_blocked;
  events_bounded = omega (arith, length-last_n 500 (s.security_events ++ (event ∷ [])));
  typed = v.typed;
  active = v.active;
}

install_drop-IsValid :
    (dpid : ℕ) (m : Match) (cookie priority timeout : ℕ) (s : SecurityModule)
    → IsValid s
    → IsValid (install_drop dpid m cookie priority timeout s)
unfolding install_drop
install_drop-IsValid dpid m cookie priority timeout s v = record {
  ddos_unique = v.ddos_unique;
  scans_unique = v.scans_unique;
  scans_valid = v.scans_valid;
  alerted_blocked = v.alerted_blocked;
  events_bounded = v.events_bounded;
  typed = v.typed;
  active = v.active;
}

pub block_flow-IsValid :
    (now dpid : ℕ) (src dst : String) (in_port : ℕ) (reason kind : String) (duration : ℕ)
    (s : SecurityModule)
    → IsValid s
    → IsValid (block_flow now dpid src dst in_port reason kind duration s)
unfolding block_flow install_drop
block_flow-IsValid now dpid src dst in_port reason kind duration s v = log-IsValid _ _ (record {
  ddos_unique = v.ddos_unique;
  scans_unique = v.scans_unique;
  scans_valid = v.scans_valid;
  alerted_blocked = v.alerted_blocked;
  events_bounded = v.events_bounded;
  typed = v.typed;
  active = v.active;
})

mitigate-IsValid :
    (now dpid in_port : ℕ) (s : SecurityModule)
    → IsValid s
    → IsValid (mitigate_ctrl_flood now dpid in_port s)
unfolding mitigate_ctrl_flood install_drop
mitigate-IsValid now dpid in_port s v = log-IsValid _ _ (record {
  ddos_unique = v.ddos_unique;
  scans_unique = v.scans_unique;
  scans_valid = v.scans_valid;
  alerted_blocked = v.alerted_blocked;
  events_bounded = v.events_bounded;
  typed = refl;
  active = λ e. refl;
})

pub track-IsValid :
    (now dpid in_port : ℕ) (s : SecurityModule)
    → IsValid s
    → IsValid (track_ctrl_flood now dpid in_port s)
unfolding track_ctrl_flood
track-IsValid now dpid in_port s v =
    let times = recent_times now (or_else (lookup dpid s.ctrl_pkt_in_times) []) in
    let rate = 2 * length times in
    let s1 : SecurityModule = record s {
      ctrl_pkt_in_times = insert dpid times s.ctrl_pkt_in_times;
      ctrl_pkt_in_rate = insert dpid rate s.ctrl_pkt_in_rate;
    } in
    let v1 : IsValid s1 = record {
      ddos_unique = v.ddos_unique;
      scans_unique = v.scans_unique;
      scans_valid = v.scans_valid;
      alerted_blocked = v.alerted_blocked;
      events_bounded = v.events_bounded;
      typed = v.typed;
      active = v.active;
    } in
    elim (Bool-cases (leb ctrl_flood_threshold rate)) [
      | inl e ↦ rw e (mitigate-IsValid now dpid in_port s1 v1)
      | inr e ↦ rw e v1
    ]

-- The entry that the check reads is valid, also where there is none.
entry-IsValid :
    (s : SecurityModule) (ip : String)
    → IsValid s
    → ScanIsValid (or_else (lookup ip s.portscan_state) no_scan)
entry-IsValid s ip v = elim (Option-cases (lookup ip s.portscan_state)) [
  | inl n ↦ rw n no_scan-IsValid
  | inr (c, e) ↦ rw e (v.scans_valid ip c e)
]

entry_alerted : (o : Option ScanState) → (or_else o no_scan).alerted ≡ is_alerted o
entry_alerted none = refl
entry_alerted (some c) = refl

-- An entry that replaces one of the same source keeps the entries valid.
scans_valid-insert :
    (s : SecurityModule) (src : String) (d : ScanState)
    → IsValid s
    → ScanIsValid d
    → (ip : String) (c : ScanState) → lookup ip (insert src d s.portscan_state) ≡ some c
    → ScanIsValid c
scans_valid-insert s src d v vd ip c e = elim (Bool-cases (src == ip)) [
  | inl y ↦ let q : d ≡ c = ground (arith, lookup-insert src ip d s.portscan_state) in rw (← q) vd
  | inr n ↦ v.scans_valid ip c (ground (arith, lookup-insert src ip d s.portscan_state))
]

-- The alarm marks the entry and blocks the source.
scan_alarm-IsValid :
    (now dpid : ℕ) (src dst : String) (in_port : ℕ) (c : ScanState) (s : SecurityModule)
    → IsValid s
    → ScanIsValid c
    → let s1 = record s {
      portscan_state = insert src (record c { alerted = true }) s.portscan_state;
    } in
      let s2 =
        block_flow now dpid src dst in_port "port_scan_detected" "port_scan"
          portscan_block_duration_s s1 in
      IsValid (record s2 { portscan_blocked = insert src now s2.portscan_blocked })
unfolding block_flow install_drop log_security_event
scan_alarm-IsValid now dpid src dst in_port c s v vc =
    let d : ScanState = record c { alerted = true } in
    record {
      ddos_unique = v.ddos_unique;
      scans_unique = insert-Unique src now s.portscan_blocked v.scans_unique;
      scans_valid =
          scans_valid-insert s src d v (record { members = vc.members; distinct = vc.distinct });
      alerted_blocked = λ ip.
          rw (lookup-insert src ip now s.portscan_blocked)
            (rw (lookup-insert src ip d s.portscan_state) (ground (arith, v.alerted_blocked ip)));
      events_bounded = omega (arith, length-last_n 500 (s.security_events ++ (_ ∷ [])));
      typed = v.typed;
      active = v.active;
    }

pub check_port_scan-IsValid :
    (now dpid : ℕ) (src dst : String) (dst_port in_port : ℕ) (s : SecurityModule)
    → IsValid s
    → IsValid (check_port_scan now dpid src dst dst_port in_port s)
unfolding check_port_scan
check_port_scan-IsValid now dpid src dst dst_port in_port s v =
    let old = or_else (lookup src s.portscan_state) no_scan in
    let c = scan_after now dst_port old in
    let vc : ScanIsValid c = scan_after-IsValid now dst_port old (entry-IsValid s src v) in
    let same : c.alerted ≡ is_alerted (lookup src s.portscan_state) =
      scan_after_alerted now dst_port old ∙ entry_alerted (lookup src s.portscan_state) in
    elim (Bool-cases (is_scan c)) [
      | inl alarm ↦ rw alarm (scan_alarm-IsValid now dpid src dst in_port c s v vc)
      | inr quiet ↦ rw quiet (record {
        ddos_unique = v.ddos_unique;
        scans_unique = v.scans_unique;
        scans_valid = scans_valid-insert s src c v vc;
        alerted_blocked = λ ip. elim (Bool-cases (src == ip)) [
          | inl y ↦
              rw (lookup-insert src ip c s.portscan_state)
                (rw (y, ← eq→path src ip y) (v.alerted_blocked src ∙ sym same))
          | inr n ↦ rw (lookup-insert src ip c s.portscan_state) (rw n (v.alerted_blocked ip))
        ];
        events_bounded = v.events_bounded;
        typed = v.typed;
        active = v.active;
      })
    ]
