-- ===== src/Security/Zones.antt =====
-- tumba_sdn/controller/security_module.py: the constants of the class, and the tables that map
-- addresses, switches and ports.
use text.Mathlib.Text.{starts_with}
use ai_driven_software_defin.Base.{
  ℕ, Bool, ◌&&◌, Option, [], ◌∷◌, String, Dict, lookup, or_else, ◌==◌, string_eq, nat_eq,
  if◌then◌else◌,
}

abbrev pub security_cookie : ℕ
security_cookie = 0xcafe5001

abbrev pub ddos_cookie : ℕ
ddos_cookie = 0xcafe7001

-- ZONE_SUBNETS: the prefix of the zone's addresses, and its access switch.
abbrev pub zone_subnets : Dict String (String × ℕ)
zone_subnets =
    ("staff_lan", ("10.10.0.", 4))
    ∷ ("server_zone", ("10.20.0.", 5))
    ∷ ("it_lab", ("10.30.0.", 6))
    ∷ ("student_wifi", ("10.40.0.", 7))
    ∷ []

-- Rates are in thousandths: of a packet in a second, and of a megabit in a second.
abbrev pub ddos_pps_threshold : ℕ
ddos_pps_threshold = 500_000

abbrev pub ddos_mbps_threshold : ℕ
ddos_mbps_threshold = 100_000

abbrev pub ddos_drop_priority : ℕ
ddos_drop_priority = 400

-- Durations of flow rules are in seconds.
abbrev pub ddos_block_duration_s : ℕ
ddos_block_duration_s = 300

abbrev pub portscan_port_limit : ℕ
portscan_port_limit = 50

abbrev pub portscan_window_ms : ℕ
portscan_window_ms = 10_000

abbrev pub portscan_block_duration_s : ℕ
portscan_block_duration_s = 300

abbrev pub portscan_drop_priority : ℕ
portscan_drop_priority = 390

abbrev pub ctrl_flood_window_ms : ℕ
ctrl_flood_window_ms = 500

abbrev pub ctrl_flood_threshold : ℕ
ctrl_flood_threshold = 150

zone_of_prefix : String → Dict String (String × ℕ) → String
zone_of_prefix ip [] = "unknown"
zone_of_prefix ip ((zone, (prefix, dpid)) ∷ zones) =
    if starts_with ip prefix then zone else zone_of_prefix ip zones

-- `_ip_to_zone`.
unfoldable pub ip_to_zone : String → String
unfolding zone_of_prefix
ip_to_zone ip = if ip == "" then "unknown" else zone_of_prefix ip zone_subnets

zone_of_switch : ℕ → Dict String (String × ℕ) → String
zone_of_switch dpid [] = "unknown"
zone_of_switch dpid ((zone, (prefix, zone_dpid)) ∷ zones) =
    if dpid == zone_dpid then zone else zone_of_switch dpid zones

-- `_dpid_to_zone`.
unfoldable pub dpid_to_zone : ℕ → String
unfolding zone_of_switch
dpid_to_zone dpid = zone_of_switch dpid zone_subnets

abbrev pub zone_hosts : Dict ℕ (Dict ℕ String)
zone_hosts =
    (
      4,
      (2, "10.10.0.1")
          ∷ (3, "10.10.0.2")
          ∷ (4, "10.10.0.3")
          ∷ (5, "10.10.0.4")
          ∷ (6, "10.10.0.5")
          ∷ (7, "10.10.0.6")
          ∷ [],
    )
    ∷ (5, (2, "10.20.0.1") ∷ (3, "10.20.0.2") ∷ (4, "10.20.0.3") ∷ (5, "10.20.0.4") ∷ [])
    ∷ (6, (2, "10.30.0.1") ∷ (3, "10.30.0.2") ∷ (4, "10.30.0.3") ∷ (5, "10.30.0.4") ∷ [])
    ∷ (
      7,
      (2, "10.40.0.1")
          ∷ (3, "10.40.0.2")
          ∷ (4, "10.40.0.3")
          ∷ (5, "10.40.0.4")
          ∷ (6, "10.40.0.5")
          ∷ (7, "10.40.0.6")
          ∷ (8, "10.40.0.7")
          ∷ (9, "10.40.0.8")
          ∷ (10, "10.40.0.9")
          ∷ (11, "10.40.0.10")
          ∷ [],
    )
    ∷ []

-- `_host_ip_for_port`.
unfoldable pub host_ip_for_port : ℕ → ℕ → Option String
unfolding lookup
host_ip_for_port dpid port_no = lookup port_no (or_else (lookup dpid zone_hosts) [])

-- `_is_blocked_access`: membership in the one blocked pair.
unfoldable pub is_blocked_access : String → String → Bool
is_blocked_access src_zone dst_zone = src_zone == "student_wifi" && dst_zone == "staff_lan"
