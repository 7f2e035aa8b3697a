-- ===== src/Adaptive/Zones.antt =====
-- examples/campus_controller.py: `_ip_zone`, the security policy, and `_normalize_security_policy`.
-- The texts of the policy file are taken trimmed, zones in lower case.
use ai_driven_software_defin.Base.{
  ℕ, max, min, Bool, true, false, not, ◌&&◌, ◌||◌, Option, none, some, List, [], ◌∷◌, String,
  member, add, has_key, or_else, Comparable, map, leb, ltb, ◌==◌, nat_eq, string_eq, if◌then◌else◌,
}
use ai_driven_software_defin.Adaptive.Tables.{
  primary_server_ip, backup_server_ip, zone_student_lab, zone_server, zone_admin, zone_academic,
  zone_incubation, it_client_ports, net_client_ports, staff_client_ports, wifi_client_ports,
}

unfoldable pub ip_zone : String → String
unfolding member has_key
ip_zone ip_addr =
    if member ip_addr zone_student_lab
    then "student_lab"
    else if member ip_addr zone_admin
    then "admin_zone"
    else if member ip_addr zone_academic
    then "academic_zone"
    else if member ip_addr zone_incubation
    then "incubation"
    else if ip_addr == primary_server_ip
    then "server_zone"
    else if ip_addr == backup_server_ip
    then "backup_service"
    else if has_key ip_addr it_client_ports
    then "student_lab"
    else if has_key ip_addr net_client_ports
    then "student_lab"
    else if has_key ip_addr staff_client_ports
    then "admin_zone"
    else if has_key ip_addr wifi_client_ports
    then "academic_zone"
    else "unknown"

pub record ZonePair : Type 0 where
  pub src_zone : String
  pub dst_zone : String
  pub reason : String

pub record SecurityPolicy : Type 0 where
  pub enabled : Bool
  pub protected_server_ips : List String
  pub restricted_source_zones : List String
  pub block_zone_pairs : List ZonePair
  pub allow_icmp_to_servers : Bool
  pub allowed_server_tcp_ports : List ℕ
  pub allowed_server_udp_ports : List ℕ
  pub drop_priority : ℕ
  pub drop_idle_timeout_s : ℕ
  pub drop_hard_timeout_s : ℕ

abbrev pub isolation : String → ZonePair
isolation dst = record { src_zone = "student_lab"; dst_zone = dst; reason = "student_isolation" }

abbrev pub default_security_policy : SecurityPolicy
default_security_policy = record {
  enabled = true;
  protected_server_ips = zone_server;
  restricted_source_zones = "student_lab" ∷ "incubation" ∷ [];
  block_zone_pairs =
      isolation "admin_zone" ∷ isolation "academic_zone" ∷ isolation "incubation" ∷ [];
  allow_icmp_to_servers = true;
  allowed_server_tcp_ports =
      80 ∷ 443 ∷ 8080 ∷ 8443 ∷ 8008 ∷ 8088 ∷ 9443 ∷ 5201 ∷ 5202 ∷ 5203 ∷ 5204 ∷ [];
  allowed_server_udp_ports = 67 ∷ 68 ∷ 1812 ∷ 1813 ∷ 5204 ∷ [];
  drop_priority = 360;
  drop_idle_timeout_s = 120;
  drop_hard_timeout_s = 300;
}

abbrev pub valid_zones : List String
valid_zones =
    "student_lab" ∷ "admin_zone" ∷ "academic_zone" ∷ "incubation" ∷ "server_zone" ∷ "backup_service"
    ∷ "student_wifi" ∷ "staff_lan" ∷ "it_lab" ∷ "network_lab" ∷ []

-- An entry of the file that is read by `int`: absent, no number, or a number, with `below_zero n`
-- for any number under 0.
pub data Field : Type 0 where
  missing invalid : Field
  number : ℕ → Field
  below_zero : ℕ → Field

-- An entry of the file that is iterated over: absent, something that Python cannot iterate over, as
-- null or a number, or its elements. The elements of a text are its characters, those of a
-- dictionary its keys.
pub data Listing (A : Type 0) : Type 0 where
  absent not_iterable : Listing A
  listed : List A → Listing A

-- The policy file, if it is a dictionary. `protected_server_ips` is none if the file does not have it,
-- and no addresses if it is not a list. An element of `block_zone_pairs` that is no dictionary is
-- left out, since the source skips it.
pub record Payload : Type 0 where
  pub enabled : Option Bool
  pub protected_server_ips : Option (List String)
  pub restricted_source_zones : Listing String
  pub block_zone_pairs : Listing ZonePair
  pub allow_icmp_to_servers : Option Bool
  pub allowed_server_tcp_ports : Listing Field
  pub allowed_server_udp_ports : Listing Field
  pub drop_priority : Field
  pub drop_idle_timeout_s : Field
  pub drop_hard_timeout_s : Field

-- `l or d`.
unfoldable pub or_list {ℓ} : {A : Type ℓ} → List A → List A → List A
or_list [] other = other
or_list (x ∷ xs) other = x ∷ xs

-- The values that pass a test, each once, in order, after those seen.
module _ {A : Type 0} ⦃e : Comparable A⦄ where
  unfoldable pub collect : (A → Bool) → List A → List A → List A
  unfolding add
  collect test [] seen = seen
  collect test (x ∷ xs) seen = collect test xs (if test x then add x seen else seen)

abbrev pub every : {A : Type 0} → A → Bool
every x = true

-- `(src, dst) in seen_pairs`.
abbrev pub seen_pair : ZonePair → List (String × String) → Bool
seen_pair item [] = false
seen_pair item ((src, dst) ∷ seen) =
    (src == item.src_zone && dst == item.dst_zone) || seen_pair item seen

unfoldable pub collect_pairs : List ZonePair → List (String × String) → List ZonePair
unfolding member
collect_pairs [] seen = []
collect_pairs (item ∷ items) seen =
    let later = collect_pairs items ((item.src_zone, item.dst_zone) ∷ seen) in
    let rest = collect_pairs items seen in
    if member item.src_zone valid_zones
      && member item.dst_zone valid_zones
      && not (seen_pair item seen)
    then item ∷ later
    else rest

-- The number of a port that is read, 0 for one that is not taken.
abbrev pub port_of : Field → ℕ
port_of missing = 0
port_of invalid = 0
port_of (number n) = n
port_of (below_zero n) = 0

abbrev pub is_port : ℕ → Bool
is_port port = ltb 0 port && leb port 65535

-- The valid ports among those that are read, each once, after the default ones.
unfoldable pub merge_into : List ℕ → List ℕ → List ℕ
unfolding collect or_list
merge_into ports defaults = or_list (collect every (collect is_port ports []) defaults) defaults

-- A list of ports of the file, the default one if it is absent, and none if the loop over it raises
-- TypeError.
unfoldable pub merge_ports : Listing Field → List ℕ → Option (List ℕ)
unfolding merge_into
merge_ports absent defaults = some (merge_into defaults defaults)
merge_ports not_iterable defaults = none
merge_ports (listed raws) defaults = some (merge_into (map port_of raws) defaults)

-- A list of the file, or none if the loop over it raises TypeError.
unfoldable pub elements : {A : Type 0} → Listing A → List A → Option (List A)
elements absent defaults = some defaults
elements not_iterable defaults = none
elements (listed xs) defaults = some xs

-- `max(low, min(high, int(value)))`, with values for a missing entry and for one that fails.
unfoldable pub clamp : ℕ → ℕ → ℕ → ℕ → Field → ℕ
clamp low high initial failed missing = max low (min high initial)
clamp low high initial failed invalid = failed
clamp low high initial failed (number n) = max low (min high n)
clamp low high initial failed (below_zero n) = low

-- The test is the one of `_normalize_ip_list`, `re.fullmatch` of a dotted quad.
module _ (is_ip : String → Bool) where
  unfoldable pub normalize_ip_list : Option (List String) → List String → List String
  unfolding collect
  normalize_ip_list none defaults = collect is_ip defaults []
  normalize_ip_list (some values) defaults = collect is_ip values []

  -- The policy of a payload whose lists are read.
  unfoldable pub normalized :
      Payload → List String → List ZonePair → List ℕ → List ℕ → SecurityPolicy
  unfolding normalize_ip_list or_list collect collect_pairs clamp member
  normalized payload zones pairs tcp udp =
      let idle = clamp 10 900 120 120 payload.drop_idle_timeout_s in
      record {
        enabled = or_else payload.enabled false;
        protected_server_ips =
            or_list (normalize_ip_list payload.protected_server_ips zone_server) zone_server;
        restricted_source_zones =
            or_list (collect (λ zone. member zone valid_zones) zones [])
              default_security_policy.restricted_source_zones;
        block_zone_pairs = collect_pairs pairs [];
        allow_icmp_to_servers = or_else payload.allow_icmp_to_servers true;
        allowed_server_tcp_ports = tcp;
        allowed_server_udp_ports = udp;
        drop_priority = clamp 300 390 360 360 payload.drop_priority;
        drop_idle_timeout_s = idle;
        drop_hard_timeout_s = clamp idle 1800 300 300 payload.drop_hard_timeout_s;
      }

  -- A loop that raises ends the method.
  unfoldable pub with_lists :
      Payload
      → Option (List String)
      → Option (List ZonePair)
      → Option (List ℕ)
      → Option (List ℕ)
      → Option SecurityPolicy
  unfolding normalized
  with_lists payload (some zones) (some pairs) (some tcp) (some udp) =
      some (normalized payload zones pairs tcp udp)
  with_lists payload none pairs tcp udp = none
  with_lists payload (some zones) none tcp udp = none
  with_lists payload (some zones) (some pairs) none udp = none
  with_lists payload (some zones) (some pairs) (some tcp) none = none

  -- A file that is no dictionary is none. The result is none if the method raises TypeError.
  unfoldable pub normalize_security_policy : Option Payload → Option SecurityPolicy
  unfolding with_lists elements merge_ports
  normalize_security_policy none = some default_security_policy
  normalize_security_policy (some payload) =
      let defaults = default_security_policy in
      with_lists payload (elements payload.restricted_source_zones defaults.restricted_source_zones)
        (elements payload.block_zone_pairs [])
        (merge_ports payload.allowed_server_tcp_ports defaults.allowed_server_tcp_ports)
        (merge_ports payload.allowed_server_udp_ports defaults.allowed_server_udp_ports)
