-- ===== src/Policy/Table.antt =====
-- The flow table that `_install_policies_delayed` (tumba_sdn/controller/policy_engine.py) builds on
-- a switch, and what every entry satisfies.
use ai_driven_software_defin.Base.{
  ℕ, ◌≡◌, Bool, true, Option, none, some, List, [], ◌∷◌, ◌++◌, String, Dict, lookup, insert,
  or_else, string_eq, nat_eq, if◌then◌else◌, In, All, All-append, inl, inr, Bool-cases,
  lookup-insert_self,
}
use mathlib.Core.List.{append_assoc}
use ai_driven_software_defin.OpenFlow.{FlowMod}
use ai_driven_software_defin.Policy.Rules.{
  AllowedFlow, BlockedFlow, ZeroTrust, ZoneConfig, TrafficProfile, no_zero_trust, zone_subnets,
  zone_subnet, network, queue_id, deny_rule, permit_rule, block_rule, same_zone_rule, arp_rule,
  icmp_rule, qos_rule,
}
use ai_driven_software_defin.Policy.Install.{
  Installation, send, deny_all, permit_all, block_all, zero_trust_rules, qos_zone, qos_rules,
  PolicyEngine, install_policies_delayed, sent_to,
}
use ai_driven_software_defin.Policy.Counts.{
  deny_all_keeps, permit_all_keeps, block_all_keeps, allow_same_zone_keeps,
}

-- The parts of the profile, with the defaults of the source.
abbrev pub zero_trust : TrafficProfile → ZeroTrust
zero_trust profile = or_else profile.zero_trust_rules no_zero_trust

abbrev pub default_deny : TrafficProfile → Bool
default_deny profile = or_else (zero_trust profile).default_deny true

abbrev pub allowed_flows : TrafficProfile → List AllowedFlow
allowed_flows profile = or_else (zero_trust profile).allowed_flows []

abbrev pub blocked_flows : TrafficProfile → List BlockedFlow
blocked_flows profile = or_else (zero_trust profile).blocked_flows []

-- The entries that the engine installs on a switch.
unfoldable pub policy_table : TrafficProfile → List FlowMod
policy_table profile =
    (zero_trust_rules (zero_trust profile)).sent ++ qos_rules (or_else profile.zones []) []

-- The delayed installation appends exactly this table to what the switch was sent before.
pub sent_to-install :
    (e : PolicyEngine) (dpid : ℕ)
    → sent_to (install_policies_delayed dpid e) dpid ≡ sent_to e dpid ++ policy_table e.config
unfolding install_policies_delayed sent_to policy_table
sent_to-install e dpid =
    let rules = (zero_trust_rules (zero_trust e.config)).sent in
    let before = or_else (lookup dpid e.sent) [] in
    rw (lookup-insert_self dpid (before ++ rules) e.sent) (
      rw
        (lookup-insert_self dpid ((before ++ rules) ++ qos_rules (or_else e.config.zones []) [])
          (insert dpid (before ++ rules) e.sent))
        (append_assoc before rules (qos_rules (or_else e.config.zones []) [])))

-- Every entry of the table satisfies `P` if every rule that the source can send does.
module _ (P : FlowMod → Type 0) where
  abbrev AllSent : Installation → Type 0
  AllSent s = All P s.sent

  send-AllSent : (r : FlowMod) (s : Installation) → P r → AllSent s → AllSent (send r s)
  unfolding send
  send-AllSent r s g h = All-append P s.sent (r ∷ []) h (g, tt)

  qos_zone-All :
      (queue : ℕ) (subnet : Option String) (sent : List FlowMod)
      → ((nw : String) → P (qos_rule nw queue))
      → All P sent
      → All P (qos_zone queue subnet sent)
  unfolding qos_zone
  qos_zone-All queue (some subnet) sent g h =
      All-append P sent (qos_rule (network subnet) queue ∷ []) h (g (network subnet), tt)
  qos_zone-All queue none sent g h = h

  qos_rules-All :
      (zones : Dict String ZoneConfig) (sent : List FlowMod)
      → ((nw : String) (queue : ℕ) → P (qos_rule nw queue))
      → All P sent
      → All P (qos_rules zones sent)
  unfolding qos_rules
  qos_rules-All [] sent g h = h
  qos_rules-All ((zone, config) ∷ zones) sent g h =
      let queue = queue_id (or_else config.priority 3) in
      qos_rules-All zones (qos_zone queue (zone_subnet (some zone)) sent) g
        (qos_zone-All queue (zone_subnet (some zone)) sent (λ nw. g nw queue) h)

  pub policy_table-All :
      (profile : TrafficProfile)
      → ((src dst : String) → P (deny_rule src dst))
      → ((flow : AllowedFlow) (src dst : String) (port : ℕ)
          → In flow (allowed_flows profile)
          → zone_subnet flow.src ≡ some src
          → zone_subnet flow.dst ≡ some dst
          → In port (or_else flow.ports [])
          → P (permit_rule (or_else flow.proto "tcp") (network src) (network dst) port))
      → ((flow : BlockedFlow) (src dst : String)
          → In flow (blocked_flows profile)
          → zone_subnet flow.src ≡ some src
          → zone_subnet flow.dst ≡ some dst
          → P (block_rule (network src) (network dst)))
      → ((zone subnet : String)
          → In (zone, subnet) zone_subnets
          → P (same_zone_rule (network subnet)))
      → P arp_rule
      → P icmp_rule
      → ((nw : String) (queue : ℕ) → P (qos_rule nw queue))
      → All P (policy_table profile)
  unfolding policy_table zero_trust_rules
  policy_table-All profile deny permit block same arp icmp qos =
      let start : Installation = record { sent = []; rule_count = 0 } in
      let denied = if default_deny profile then deny_all zone_subnets start else start in
      let permitted = permit_all (allowed_flows profile) denied in
      let blocked = block_all (blocked_flows profile) permitted in
      let h1 : AllSent denied = elim (Bool-cases (default_deny profile)) [
        | inl e ↦ rw e (deny_all_keeps P AllSent send-AllSent deny zone_subnets start tt)
        | inr e ↦ rw e tt
      ] in
      let h3 : AllSent blocked =
        block_all_keeps P AllSent send-AllSent (blocked_flows profile) block permitted
          (permit_all_keeps P AllSent send-AllSent (allowed_flows profile) permit denied h1) in
      All-append P _ (qos_rules (or_else profile.zones []) [])
        (send-AllSent icmp_rule _ icmp (
          send-AllSent arp_rule _ arp
            (allow_same_zone_keeps P AllSent send-AllSent zone_subnets same blocked h3)))
        (qos_rules-All (or_else profile.zones []) [] qos tt)
