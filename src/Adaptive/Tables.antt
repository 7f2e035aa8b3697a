-- ===== src/Adaptive/Tables.antt =====
-- examples/campus_controller.py: CampusController's addresses, port maps and capacities.
use ai_driven_software_defin.Base.{
  ℕ, not, ◌||◌, List, [], ◌∷◌, String, Dict, lookup, or_else, leb, nat_beq, nat_eq, if◌then◌else◌,
}

abbrev pub policy_cookie : ℕ
policy_cookie = 0xCAFE0001

abbrev pub vlan_automation_cookie : ℕ
vlan_automation_cookie = 0xcafe3001

abbrev pub policy_engine_cookie : ℕ
policy_engine_cookie = 0xCAFE1001

abbrev pub security_cookie : ℕ
security_cookie = 0xCAFE5001

abbrev pub ddos_cookie : ℕ
ddos_cookie = 0xCAFE7001

abbrev pub primary_server_ip : String
primary_server_ip = "10.0.1.10"

abbrev pub backup_server_ip : String
backup_server_ip = "10.0.1.11"

abbrev pub backup_server_mac : String
backup_server_mac = "00:00:00:00:00:0b"

abbrev pub zone_student_lab : List String
zone_student_lab =
    "10.1.2.1" ∷ "10.1.2.2" ∷ "10.1.2.3" ∷ "10.1.3.1" ∷ "10.1.3.2" ∷ "10.1.3.3" ∷ "10.1.4.1"
    ∷ "10.1.4.2" ∷ "10.1.4.3" ∷ "10.1.6.1" ∷ "10.1.6.2" ∷ "10.1.6.3" ∷ "10.1.7.1" ∷ "10.1.7.2"
    ∷ "10.1.7.3" ∷ "10.1.10.1" ∷ "10.1.10.2" ∷ "10.1.10.3" ∷ "10.1.11.1" ∷ "10.1.11.2" ∷ "10.1.11.3"
    ∷ "10.1.12.1" ∷ "10.1.12.2" ∷ "10.1.12.3" ∷ []

abbrev pub zone_server : List String
zone_server = "10.0.1.10" ∷ "10.0.1.11" ∷ []

abbrev pub zone_admin : List String
zone_admin = "10.4.1.1" ∷ "10.4.1.2" ∷ "10.4.1.3" ∷ []

abbrev pub zone_academic : List String
zone_academic = "10.3.1.1" ∷ "10.3.1.2" ∷ "10.3.1.3" ∷ []

abbrev pub zone_incubation : List String
zone_incubation = "10.2.1.1" ∷ "10.2.1.2" ∷ "10.2.1.3" ∷ []

abbrev pub it_dpid : ℕ
it_dpid = 2

abbrev pub net_dpid : ℕ
net_dpid = 3

abbrev pub wifi_dpid : ℕ
wifi_dpid = 5

abbrev pub it_client_ports : Dict String ℕ
it_client_ports =
    ("10.1.7.1", 2)
    ∷ ("10.1.7.2", 3)
    ∷ ("10.1.7.3", 4)
    ∷ ("10.1.6.1", 2)
    ∷ ("10.1.6.2", 3)
    ∷ ("10.1.6.3", 4)
    ∷ ("10.1.10.1", 2)
    ∷ ("10.1.10.2", 3)
    ∷ ("10.1.10.3", 4)
    ∷ ("10.1.12.1", 2)
    ∷ ("10.1.12.2", 3)
    ∷ ("10.1.12.3", 4)
    ∷ ("10.2.1.1", 2)
    ∷ ("10.2.1.2", 3)
    ∷ ("10.2.1.3", 4)
    ∷ []

abbrev pub net_client_ports : Dict String ℕ
net_client_ports =
    ("10.1.3.1", 2)
    ∷ ("10.1.3.2", 3)
    ∷ ("10.1.3.3", 4)
    ∷ ("10.1.11.1", 2)
    ∷ ("10.1.11.2", 3)
    ∷ ("10.1.11.3", 4)
    ∷ ("10.1.2.1", 2)
    ∷ ("10.1.2.2", 3)
    ∷ ("10.1.2.3", 4)
    ∷ []

abbrev pub staff_client_ports : Dict String ℕ
staff_client_ports = ("10.4.1.1", 2) ∷ ("10.4.1.2", 3) ∷ ("10.4.1.3", 4) ∷ []

abbrev pub wifi_client_ports : Dict String ℕ
wifi_client_ports =
    ("10.3.1.1", 2)
    ∷ ("10.3.1.2", 3)
    ∷ ("10.3.1.3", 4)
    ∷ ("10.1.4.1", 2)
    ∷ ("10.1.4.2", 3)
    ∷ ("10.1.4.3", 4)
    ∷ []

-- `PORT_CAPACITY_MBPS`: the number of ports of a switch, and of those at 1000 Mbps, the first ones.
abbrev pub port_counts : Dict ℕ (ℕ × ℕ)
port_counts =
    (1, (6, 2))
    ∷ (2, (7, 1))
    ∷ (3, (4, 1))
    ∷ (4, (4, 0))
    ∷ (5, (4, 0))
    ∷ (6, (4, 0))
    ∷ (7, (4, 0))
    ∷ (8, (4, 0))
    ∷ (9, (4, 0))
    ∷ (10, (4, 0))
    ∷ (11, (4, 0))
    ∷ (12, (4, 0))
    ∷ (13, (4, 0))
    ∷ (14, (4, 0))
    ∷ []

abbrev pub capacity_in : ℕ × ℕ → ℕ → ℕ
capacity_in (ports, fast) port_no =
    if nat_beq port_no 0 || not (leb port_no ports)
    then 0
    else if leb port_no fast
    then 1000
    else 100

-- 0 for a port that the table does not have.
unfoldable pub port_capacity_mbps : ℕ → ℕ → ℕ
unfolding lookup
port_capacity_mbps dpid port_no = capacity_in (or_else (lookup dpid port_counts) (0, 0)) port_no
