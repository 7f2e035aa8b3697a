-- ===== src/Policy/Counts.antt =====
-- Induction over the loops of `_install_zero_trust_rules` (tumba_sdn/controller/policy_engine.py),
-- once for every invariant, and what `policy_rules` counts.
use ai_driven_software_defin.Base.{
  ℕ, ◌≡◌, refl, true, Option, none, some, List, [], ◌∷◌, ◌++◌, String, Dict, lookup, or_else, ◌==◌,
  string_eq, nat_eq, if◌then◌else◌, length, In, inl, inr, arith, Bool-cases, length-append,
  lookup-insert_self, lookup-insert,
}
use ai_driven_software_defin.OpenFlow.{FlowMod}
use ai_driven_software_defin.Policy.Rules.{
  AllowedFlow, BlockedFlow, ZeroTrust, no_zero_trust, zone_subnets, zone_subnet, network, deny_rule,
  permit_rule, block_rule, same_zone_rule, arp_rule, icmp_rule,
}
use ai_driven_software_defin.Policy.Install.{
  Installation, send, deny_from, deny_all, permit_ports, permit_flow, permit_all, block_flow,
  block_all, allow_same_zone, zero_trust_rules, PolicyEngine, install_zero_trust_rules, sent_to,
}

-- `Keeps` is an invariant under the sending of every rule that is `Good`.
module _ (Good : FlowMod → Type 0) (Keeps : Installation → Type 0)
    (keep_send : (r : FlowMod) (s : Installation) → Good r → Keeps s → Keeps (send r s)) where
  pub deny_from_keeps :
      ((src dst : String) → Good (deny_rule src dst))
      → (a b : String) (zones : Dict String String) (s : Installation) → Keeps s
      → Keeps (deny_from a b zones s)
  unfolding deny_from
  deny_from_keeps good a b [] s h = h
  deny_from_keeps good a b ((c, d) ∷ zones) s h = elim (Bool-cases (a == c)) [
    | inl e ↦ rw e (deny_from_keeps good a b zones s h)
    | inr e ↦ rw e (
        deny_from_keeps good a b zones (send (deny_rule (network b) (network d)) s)
          (keep_send (deny_rule (network b) (network d)) s (good (network b) (network d)) h))
  ]

  pub deny_all_keeps :
      ((src dst : String) → Good (deny_rule src dst))
      → (zones : Dict String String) (s : Installation) → Keeps s
      → Keeps (deny_all zones s)
  unfolding deny_all
  deny_all_keeps good [] s h = h
  deny_all_keeps good ((a, b) ∷ zones) s h =
      deny_all_keeps good zones (deny_from a b zone_subnets s)
        (deny_from_keeps good a b zone_subnets s h)

  pub permit_ports_keeps :
      (proto src dst : String) (ports : List ℕ)
      → ((port : ℕ) → In port ports → Good (permit_rule proto src dst port))
      → (s : Installation) → Keeps s
      → Keeps (permit_ports proto src dst ports s)
  unfolding permit_ports
  permit_ports_keeps proto src dst [] good s h = h
  permit_ports_keeps proto src dst (port ∷ ports) good s h =
      permit_ports_keeps proto src dst ports (λ q m. good q (inr m))
        (send (permit_rule proto src dst port) s)
        (keep_send (permit_rule proto src dst port) s (good port (inl refl)) h)

  pub permit_flow_keeps :
      (flow : AllowedFlow) (a b : Option String)
      → ((src dst : String) (port : ℕ)
          → a ≡ some src
          → b ≡ some dst
          → In port (or_else flow.ports [])
          → Good (permit_rule (or_else flow.proto "tcp") (network src) (network dst) port))
      → (s : Installation) → Keeps s
      → Keeps (permit_flow flow a b s)
  unfolding permit_flow
  permit_flow_keeps flow (some src) (some dst) good s h =
      permit_ports_keeps (or_else flow.proto "tcp") (network src) (network dst)
        (or_else flow.ports []) (λ port m. good src dst port refl refl m) s h
  permit_flow_keeps flow (some src) none good s h = h
  permit_flow_keeps flow none b good s h = h

  pub permit_all_keeps :
      (flows : List AllowedFlow)
      → ((flow : AllowedFlow) (src dst : String) (port : ℕ)
          → In flow flows
          → zone_subnet flow.src ≡ some src
          → zone_subnet flow.dst ≡ some dst
          → In port (or_else flow.ports [])
          → Good (permit_rule (or_else flow.proto "tcp") (network src) (network dst) port))
      → (s : Installation) → Keeps s
      → Keeps (permit_all flows s)
  unfolding permit_all
  permit_all_keeps [] good s h = h
  permit_all_keeps (flow ∷ flows) good s h =
      permit_all_keeps flows (λ f src dst port m. good f src dst port (inr m))
        (permit_flow flow (zone_subnet flow.src) (zone_subnet flow.dst) s)
        (permit_flow_keeps flow (zone_subnet flow.src) (zone_subnet flow.dst)
          (λ src dst port. good flow src dst port (inl refl)) s h)

  pub block_flow_keeps :
      (a b : Option String)
      → ((src dst : String)
          → a ≡ some src
          → b ≡ some dst
          → Good (block_rule (network src) (network dst)))
      → (s : Installation) → Keeps s
      → Keeps (block_flow a b s)
  unfolding block_flow
  block_flow_keeps (some src) (some dst) good s h =
      keep_send (block_rule (network src) (network dst)) s (good src dst refl refl) h
  block_flow_keeps (some src) none good s h = h
  block_flow_keeps none b good s h = h

  pub block_all_keeps :
      (flows : List BlockedFlow)
      → ((flow : BlockedFlow) (src dst : String)
          → In flow flows
          → zone_subnet flow.src ≡ some src
          → zone_subnet flow.dst ≡ some dst
          → Good (block_rule (network src) (network dst)))
      → (s : Installation) → Keeps s
      → Keeps (block_all flows s)
  unfolding block_all
  block_all_keeps [] good s h = h
  block_all_keeps (flow ∷ flows) good s h =
      block_all_keeps flows (λ f src dst m. good f src dst (inr m))
        (block_flow (zone_subnet flow.src) (zone_subnet flow.dst) s)
        (block_flow_keeps (zone_subnet flow.src) (zone_subnet flow.dst)
          (λ src dst. good flow src dst (inl refl)) s h)

  pub allow_same_zone_keeps :
      (zones : Dict String String)
      → ((zone subnet : String) → In (zone, subnet) zones → Good (same_zone_rule (network subnet)))
      → (s : Installation) → Keeps s
      → Keeps (allow_same_zone zones s)
  unfolding allow_same_zone
  allow_same_zone_keeps [] good s h = h
  allow_same_zone_keeps ((zone, subnet) ∷ zones) good s h =
      allow_same_zone_keeps zones (λ z n m. good z n (inr m))
        (send (same_zone_rule (network subnet)) s)
        (keep_send (same_zone_rule (network subnet)) s (good zone subnet (inl refl)) h)

-- The counter is the number of messages.
abbrev Counted : Installation → Type 0
Counted s = s.rule_count ≡ length s.sent

abbrev Anything : FlowMod → Type 0
Anything r = Unit

send-Counted : (r : FlowMod) (s : Installation) → Anything r → Counted s → Counted (send r s)
unfolding send
send-Counted r s g h = omega (arith, length-append s.sent (r ∷ []))

zero_trust_rules-Counted : (config : ZeroTrust) → Counted (zero_trust_rules config)
unfolding zero_trust_rules
zero_trust_rules-Counted config =
    let start : Installation = record { sent = []; rule_count = 0 } in
    let denied = if or_else config.default_deny true then deny_all zone_subnets start else start in
    let permitted = permit_all (or_else config.allowed_flows []) denied in
    let blocked = block_all (or_else config.blocked_flows []) permitted in
    let h1 : Counted denied = elim (Bool-cases (or_else config.default_deny true)) [
      | inl e ↦
          rw e (deny_all_keeps Anything Counted send-Counted (λ a b. tt) zone_subnets start refl)
      | inr e ↦ rw e refl
    ] in
    let h2 : Counted permitted =
      permit_all_keeps Anything Counted send-Counted (or_else config.allowed_flows [])
        (λ f a b p m e q i. tt) denied h1 in
    let h3 : Counted blocked =
      block_all_keeps Anything Counted send-Counted (or_else config.blocked_flows [])
        (λ f a b m e q. tt) permitted h2 in
    send-Counted icmp_rule _ tt (
      send-Counted arp_rule _ tt
        (allow_same_zone_keeps Anything Counted send-Counted zone_subnets (λ z n m. tt) blocked h3))

-- For every profile and state, the installation on a switch sends the zero-trust rules after what
-- the switch was sent before, and `policy_rules` records their exact number for that switch and is
-- unchanged for every other.
pub policy_rules-install :
    (e : PolicyEngine) (dpid : ℕ)
    → let rules = (zero_trust_rules (or_else e.config.zero_trust_rules no_zero_trust)).sent in
      (sent_to (install_zero_trust_rules dpid e) dpid ≡ sent_to e dpid ++ rules)
      × ((j : ℕ)
          → lookup j (install_zero_trust_rules dpid e).policy_rules
            ≡ (if dpid == j then some (length rules) else lookup j e.policy_rules))
unfolding install_zero_trust_rules sent_to
policy_rules-install e dpid =
    let config = or_else e.config.zero_trust_rules no_zero_trust in
    (
      rw (
          lookup-insert_self dpid
            (or_else (lookup dpid e.sent) [] ++ (zero_trust_rules config).sent) e.sent),
      λ j.
          rw (← zero_trust_rules-Counted config)
            (lookup-insert dpid j (zero_trust_rules config).rule_count e.policy_rules),
    )
