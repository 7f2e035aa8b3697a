-- ===== src/Policy/Entries.antt =====
-- The flow table of tumba_sdn/controller/policy_engine.py: which denials, permits and blocks are in it.
use ai_driven_software_defin.Base.{
  ℕ, ◌≡◌, ◌≢◌, refl, ap, sym, true, some, List, [], ◌∷◌, String, Dict, or_else, ◌==◌, string_eq,
  nat_eq, if◌then◌else◌, In, In-append_left, In-append_right, inl, inr, ne→false,
}
use mathlib.Core.Path.{subst}
use ai_driven_software_defin.OpenFlow.{FlowMod}
use ai_driven_software_defin.Policy.Rules.{
  AllowedFlow, BlockedFlow, TrafficProfile, zone_subnets, zone_subnet, network, deny_rule,
  permit_rule, block_rule, arp_rule, icmp_rule,
}
use ai_driven_software_defin.Policy.Install.{
  Installation, send, deny_from, deny_all, permit_ports, permit_flow, permit_all, block_flow,
  block_all, allow_same_zone, zero_trust_rules,
}
use ai_driven_software_defin.Policy.Counts.{
  deny_from_keeps, deny_all_keeps, permit_ports_keeps, permit_all_keeps, block_all_keeps,
  allow_same_zone_keeps,
}
use ai_driven_software_defin.Policy.Table.{policy_table, default_deny, allowed_flows, blocked_flows}

-- A rule that is sent stays sent.
module _ (r : FlowMod) where
  abbrev Anything : FlowMod → Type 0
  Anything s = Unit

  abbrev Present : Installation → Type 0
  Present s = In r s.sent

  send-Present : (m : FlowMod) (s : Installation) → Anything m → Present s → Present (send m s)
  unfolding send
  send-Present m s g h = In-append_left s.sent (m ∷ []) r h

  send_self : (s : Installation) → Present (send r s)
  unfolding send
  send_self s = In-append_right s.sent (r ∷ []) r (inl refl)

  after_permits-Present :
      (flows : List BlockedFlow) (s : Installation)
      → Present s
      → Present (send icmp_rule (send arp_rule (allow_same_zone zone_subnets (block_all flows s))))
  after_permits-Present flows s h = send-Present icmp_rule _ tt (
      send-Present arp_rule _ tt (
        allow_same_zone_keeps Anything Present send-Present zone_subnets (λ z n m. tt) _
          (block_all_keeps Anything Present send-Present flows (λ f a b m e q. tt) s h)))

deny_from-In :
    (a b c d : String) (zones : Dict String String) (s : Installation)
    → a ≢ c
    → In (c, d) zones
    → In (deny_rule (network b) (network d)) (deny_from a b zones s).sent
unfolding deny_from
deny_from-In a b c d [] s n m = absurd m
deny_from-In a b c d ((c', d') ∷ zones) s n (inl e) =
    let r = deny_rule (network b) (network d) in
    let ec : c' ≡ c = ap (λ (x : String × String). x.0) e in
    let ed : d' ≡ d = ap (λ (x : String × String). x.1) e in
    rw (ec, ed, ne→false a c n, deny_from)
      (deny_from_keeps (Anything r) (Present r) (send-Present r) (λ x y. tt) a b zones (send r s)
        (send_self r s))
deny_from-In a b c d ((c', d') ∷ zones) s n (inr m) =
    deny_from-In a b c d zones (if a == c' then s else send (deny_rule (network b) (network d')) s)
      n m

deny_all-In :
    (a b c d : String) (zones : Dict String String) (s : Installation)
    → a ≢ c
    → In (a, b) zones
    → In (c, d) zone_subnets
    → In (deny_rule (network b) (network d)) (deny_all zones s).sent
unfolding deny_all
deny_all-In a b c d [] s n m k = absurd m
deny_all-In a b c d ((a', b') ∷ zones) s n (inl e) k =
    let r = deny_rule (network b) (network d) in
    let ea : a' ≡ a = ap (λ (x : String × String). x.0) e in
    let eb : b' ≡ b = ap (λ (x : String × String). x.1) e in
    rw (ea, eb)
      (deny_all_keeps (Anything r) (Present r) (send-Present r) (λ x y. tt) zones
        (deny_from a b zone_subnets s) (deny_from-In a b c d zone_subnets s n k))
deny_all-In a b c d ((a', b') ∷ zones) s n (inr m) k =
    deny_all-In a b c d zones (deny_from a' b' zone_subnets s) n m k

-- With the default denial on, each ordered pair of different zones has its denial in the table.
pub policy_table-deny :
    (profile : TrafficProfile) (a b c d : String)
    → default_deny profile ≡ true
    → a ≢ c
    → In (a, b) zone_subnets
    → In (c, d) zone_subnets
    → In (deny_rule (network b) (network d)) (policy_table profile)
unfolding policy_table zero_trust_rules
policy_table-deny profile a b c d on n m k =
    let start : Installation = record { sent = []; rule_count = 0 } in
    let r = deny_rule (network b) (network d) in
    In-append_left _ _ r (
      after_permits-Present r (blocked_flows profile) _ (
        permit_all_keeps (Anything r) (Present r) (send-Present r) (allowed_flows profile)
          (λ f x y p i e q j. tt) _ (rw on (deny_all-In a b c d zone_subnets start n m k))))

permit_ports-In :
    (proto src dst : String) (port : ℕ) (ports : List ℕ) (s : Installation)
    → In port ports
    → In (permit_rule proto src dst port) (permit_ports proto src dst ports s).sent
unfolding permit_ports
permit_ports-In proto src dst port [] s m = absurd m
permit_ports-In proto src dst port (q ∷ ports) s (inl e) =
    let r = permit_rule proto src dst port in
    rw e (
      permit_ports_keeps (Anything r) (Present r) (send-Present r) proto src dst ports (λ p i. tt)
        (send r s) (send_self r s))
permit_ports-In proto src dst port (q ∷ ports) s (inr m) =
    permit_ports-In proto src dst port ports (send (permit_rule proto src dst q) s) m

permit_all-In :
    (flow : AllowedFlow) (src dst : String) (port : ℕ) (flows : List AllowedFlow) (s : Installation)
    → In flow flows
    → zone_subnet flow.src ≡ some src
    → zone_subnet flow.dst ≡ some dst
    → In port (or_else flow.ports [])
    → In
        (permit_rule (or_else flow.proto "tcp") (network src) (network dst) port)
        (permit_all flows s).sent
unfolding permit_all permit_flow
permit_all-In flow src dst port [] s m e q i = absurd m
permit_all-In flow src dst port (f ∷ flows) s (inl p) e q i =
    let r = permit_rule (or_else flow.proto "tcp") (network src) (network dst) port in
    subst (λ g. In r (permit_all (g ∷ flows) s).sent) (sym p)
      (rw (e, q, permit_all, permit_flow)
        (permit_all_keeps (Anything r) (Present r) (send-Present r) flows (λ g x y z j u v w. tt) _
          (permit_ports-In (or_else flow.proto "tcp") (network src) (network dst) port
            (or_else flow.ports []) s i)))
permit_all-In flow src dst port (f ∷ flows) s (inr m) e q i =
    permit_all-In flow src dst port flows (permit_flow f (zone_subnet f.src) (zone_subnet f.dst) s)
      m e q i

-- Each port of an allowed flow between known zones has its permit in the table.
pub policy_table-permit :
    (profile : TrafficProfile) (flow : AllowedFlow) (src dst : String) (port : ℕ)
    → In flow (allowed_flows profile)
    → zone_subnet flow.src ≡ some src
    → zone_subnet flow.dst ≡ some dst
    → In port (or_else flow.ports [])
    → In
        (permit_rule (or_else flow.proto "tcp") (network src) (network dst) port)
        (policy_table profile)
unfolding policy_table zero_trust_rules
policy_table-permit profile flow src dst port m e q i =
    let r = permit_rule (or_else flow.proto "tcp") (network src) (network dst) port in
    In-append_left _ _ r (
      after_permits-Present r (blocked_flows profile) _
        (permit_all-In flow src dst port (allowed_flows profile) _ m e q i))

block_all-In :
    (flow : BlockedFlow) (src dst : String) (flows : List BlockedFlow) (s : Installation)
    → In flow flows
    → zone_subnet flow.src ≡ some src
    → zone_subnet flow.dst ≡ some dst
    → In (block_rule (network src) (network dst)) (block_all flows s).sent
unfolding block_all block_flow
block_all-In flow src dst [] s m e q = absurd m
block_all-In flow src dst (f ∷ flows) s (inl p) e q =
    let r = block_rule (network src) (network dst) in
    rw (p, e, q, block_all, block_flow)
      (block_all_keeps (Anything r) (Present r) (send-Present r) flows (λ g x y j u v. tt) _
        (send_self r s))
block_all-In flow src dst (f ∷ flows) s (inr m) e q =
    block_all-In flow src dst flows (block_flow (zone_subnet f.src) (zone_subnet f.dst) s) m e q

-- Each blocked flow between known zones has its block in the table.
pub policy_table-block :
    (profile : TrafficProfile) (flow : BlockedFlow) (src dst : String)
    → In flow (blocked_flows profile)
    → zone_subnet flow.src ≡ some src
    → zone_subnet flow.dst ≡ some dst
    → In (block_rule (network src) (network dst)) (policy_table profile)
unfolding policy_table zero_trust_rules
policy_table-block profile flow src dst m e q =
    let r = block_rule (network src) (network dst) in
    In-append_left _ _ r (
      send-Present r icmp_rule _ tt (
        send-Present r arp_rule _ tt (
          allow_same_zone_keeps (Anything r) (Present r) (send-Present r) zone_subnets (λ z n i. tt)
            _ (block_all-In flow src dst (blocked_flows profile) _ m e q))))
