-- ===== src/Campus/Topology.antt =====
-- tumba_sdn/topology/tumba_topo.py: the zones, the hosts and links that `build` adds, and the queries
-- of the names. Mininet is not part of the model: a network is what its calls have added, in order.
use ai_driven_software_defin.Base.{
  ℕ, zero, suc, ◌+◌, ◌||◌, Option, none, some, List, [], ◌∷◌, ◌++◌, String, Dict, lookup, or_else,
  keep, map, ◌==◌, nat_eq, string_eq, if◌then◌else◌,
}
use Prim.Native.String.{◌++◌ as text_append}
use text.Mathlib.Text.{starts_with}

pub record ZoneConfig : Type 0 where
  pub switch : String
  pub hosts : ℕ
  pub prefix : String
  pub subnet : String

abbrev pub zones : Dict String ZoneConfig
zones =
    ("staff_lan", record { switch = "as1"; hosts = 6; prefix = "h_staff"; subnet = "10.10.0" })
    ∷ ("server_zone", record { switch = "as2"; hosts = 4; prefix = "h_srv"; subnet = "10.20.0" })
    ∷ ("it_lab", record { switch = "as3"; hosts = 4; prefix = "h_lab"; subnet = "10.30.0" })
    ∷ ("student_wifi", record { switch = "as4"; hosts = 10; prefix = "h_wifi"; subnet = "10.40.0" })
    ∷ []

abbrev pub server_roles : Dict ℕ String
server_roles = (1, "mis") ∷ (2, "dhcp") ∷ (3, "auth") ∷ (4, "moodle") ∷ []

-- `str` of the numbers that the hosts have.
abbrev pub numerals : Dict ℕ String
numerals =
    (1, "1")
    ∷ (2, "2")
    ∷ (3, "3")
    ∷ (4, "4")
    ∷ (5, "5")
    ∷ (6, "6")
    ∷ (7, "7")
    ∷ (8, "8")
    ∷ (9, "9")
    ∷ (10, "10")
    ∷ []

unfoldable pub numeral : ℕ → String
unfolding lookup
numeral i = or_else (lookup i numerals) ""

pub record Host : Type 0 where
  pub name : String
  -- The address, of a network of 24 bits.
  pub ip : String
  pub default_route : String

pub record Link : Type 0 where
  pub node1 : String
  pub node2 : String
  pub bw : ℕ

-- What the calls of `addSwitch`, `addHost` and `addLink` have added, in order.
pub record Network : Type 0 where
  pub switches : Dict String ℕ
  pub hosts : List Host
  pub links : List Link

abbrev pub link : String → String → ℕ → Link
link a b bw = record { node1 = a; node2 = b; bw = bw }

abbrev pub switch_dpids : Dict String ℕ
switch_dpids =
    ("cs1", 1) ∷ ("ds1", 2) ∷ ("ds2", 3) ∷ ("as1", 4) ∷ ("as2", 5) ∷ ("as3", 6) ∷ ("as4", 7) ∷ []

abbrev pub switch_links : List Link
switch_links =
    link "cs1" "ds1" 1000
    ∷ link "cs1" "ds2" 1000
    ∷ link "ds1" "ds2" 1000
    ∷ link "ds1" "as1" 100
    ∷ link "ds1" "as2" 100
    ∷ link "ds2" "as3" 100
    ∷ link "ds2" "as4" 100
    ∷ []

abbrev pub role_name : Option String → String → String
role_name none other = other
role_name (some role) other = text_append "h_" role

unfoldable pub host_name : String → ZoneConfig → ℕ → String
unfolding numeral lookup
host_name zone_name cfg i =
    let plain = text_append cfg.prefix (numeral i) in
    if zone_name == "server_zone" then role_name (lookup i server_roles) plain else plain

-- One host of a zone and its link to the zone's switch.
unfoldable pub add_host : String → ZoneConfig → ℕ → Network → Network
unfolding host_name numeral
add_host zone_name cfg i net =
    let name = host_name zone_name cfg i in
    let host_bw = if zone_name == "student_wifi" then 10 else 100 in
    record net {
      hosts =
          net.hosts
          ++ (record {
            name = name;
            ip = text_append cfg.subnet (text_append "." (numeral i));
            default_route = text_append "via " (text_append cfg.subnet ".254");
          }
              ∷ []);
      links = net.links ++ (link name cfg.switch host_bw ∷ []);
    }

-- So many hosts from the given number on: `for i in range(1, hosts + 1)`.
unfoldable pub add_hosts : String → ZoneConfig → ℕ → ℕ → Network → Network
unfolding add_host
add_hosts zone_name cfg i zero net = net
add_hosts zone_name cfg i (suc n) net =
    add_hosts zone_name cfg (i + 1) n (add_host zone_name cfg i net)

unfoldable pub add_zones : Dict String ZoneConfig → Network → Network
unfolding add_hosts
add_zones [] net = net
add_zones ((zone_name, cfg) ∷ rest) net = add_zones rest (add_hosts zone_name cfg 1 cfg.hosts net)

unfoldable pub build : Network
unfolding add_zones
build = add_zones zones (record { switches = switch_dpids; hosts = []; links = switch_links })

-- `_host_zone`.
unfoldable pub host_zone : String → String
host_zone name =
    if starts_with name "h_staff"
    then "staff_lan"
    else if starts_with name "h_srv"
        || starts_with name "h_mis"
        || starts_with name "h_dhcp"
        || starts_with name "h_auth"
        || starts_with name "h_moodle"
    then "server_zone"
    else if starts_with name "h_lab"
    then "it_lab"
    else if starts_with name "h_wifi"
    then "student_wifi"
    else "unknown"

abbrev pub prefix_of : Option ZoneConfig → String
prefix_of none = ""
prefix_of (some cfg) = cfg.prefix

unfoldable pub get_zone_hosts : String → Network → List String
unfolding lookup
get_zone_hosts zone_name net =
    keep (λ name. starts_with name (prefix_of (lookup zone_name zones)))
      (map (λ h. h.name) net.hosts)

abbrev pub switch_of : Dict String ℕ → Option ZoneConfig → Option ℕ
unfolding lookup
switch_of switches none = none
switch_of switches (some cfg) = lookup cfg.switch switches

-- The switch of a zone, as its dpid.
unfoldable pub get_zone_switch : String → Network → Option ℕ
unfolding lookup
get_zone_switch zone_name net = switch_of net.switches (lookup zone_name zones)
