-- ===== src/Policy/Decisions.antt =====
-- What a switch with the policy engine's table (tumba_sdn/controller/policy_engine.py) does with
-- the IP packets of the campus: blocked, permitted and all other traffic between zones.
use ai_driven_software_defin.Base.{
  ℕ, ◌≤◌, ◌≡◌, ◌≢◌, ◌⊎◌, refl, sym, ◌∙◌, Bool, true, not, ◌||◌, some, List, [], ◌∷◌, String,
  or_else, ◌==◌, string_eq, nat_eq, In, All-In, all, inl, inr, arith, eq→path,
}
use ai_driven_software_defin.OpenFlow.{FlowMod, Packet, Switch, matches, eth_type_ip}
use ai_driven_software_defin.OpenFlow.Lookup.{select_decided}
use ai_driven_software_defin.Policy.Rules.{
  AllowedFlow, BlockedFlow, TrafficProfile, zone_subnets, zone_subnet, network, mask_24, ip_pair,
  deny_rule, permit_match, permit_rule, block_rule, arp_rule, icmp_rule, forward,
}
use ai_driven_software_defin.Policy.Table.{
  default_deny, allowed_flows, blocked_flows, policy_table, policy_table-All,
}
use ai_driven_software_defin.Policy.Entries.{
  policy_table-deny, policy_table-permit, policy_table-block,
}

-- Membership in a list that passes a test.
all-In : {A : Type 0} (p : A → Bool) (xs : List A) {a : A} → all p xs ≡ true → In a xs → p a ≡ true
all-In p [] h m = absurd m
all-In p (x ∷ xs) h (inl e) = rw (← e) (ground arith)
all-In p (x ∷ xs) {a} h (inr m) = all-In p xs {a = a} (ground arith) m

abbrev same_name_if_same_network : String × String → String × String → Bool
same_name_if_same_network x y = not (network x.1 == network y.1) || x.0 == y.0

networks_checked : all (λ x. all (same_name_if_same_network x) zone_subnets) zone_subnets ≡ true
unfolding network
networks_checked = refl

-- Two zones of ZONE_SUBNETS with one network are one zone.
pub networks_distinct :
    (a b c d : String)
    → In (a, b) zone_subnets
    → In (c, d) zone_subnets
    → network b ≡ network d
    → a ≡ c
networks_distinct a b c d m k e =
    let t : same_name_if_same_network (a, b) (c, d) ≡ true =
      all-In (same_name_if_same_network (a, b)) zone_subnets {a = (c, d)}
        (all-In (λ x. all (same_name_if_same_network x) zone_subnets) zone_subnets {a = (a, b)}
          networks_checked m)
        k in
    eq→path a c (ground (arith, t, string_eq.same_iff (network b) (network d)))

module _ (sw : Switch) (p : Packet) where
  -- An IP packet from one network to another.
  abbrev pub Between : String → String → Type 0
  Between a b =
      (p.eth_type ≡ eth_type_ip)
      × (sw.mask_with p.ipv4_src mask_24 ≡ a)
      × (sw.mask_with p.ipv4_dst mask_24 ≡ b)

  pub matches-ip_pair : (a b : String) → Between a b → matches sw.mask_with (ip_pair a b) p ≡ true
  unfolding matches
  matches-ip_pair a b h = ground (
    arith,
    string_eq.same_iff a (sw.mask_with p.ipv4_src mask_24),
    string_eq.same_iff b (sw.mask_with p.ipv4_dst mask_24),
  )

  pub ip_pair-matches : (a b : String) → matches sw.mask_with (ip_pair a b) p ≡ true → Between a b
  unfolding matches
  ip_pair-matches a b h = ground (
    arith,
    string_eq.same_iff a (sw.mask_with p.ipv4_src mask_24),
    string_eq.same_iff b (sw.mask_with p.ipv4_dst mask_24),
  )

  not_arp : p.eth_type ≡ eth_type_ip → matches sw.mask_with arp_rule.match p ≡ true → ⊥
  unfolding matches
  not_arp h e = ground arith

  icmp_proto : matches sw.mask_with icmp_rule.match p ≡ true → p.ip_proto ≡ 1
  unfolding matches
  icmp_proto e = ground arith

  module _ (profile : TrafficProfile) where
    -- Some allowed flow of the profile, at one of its ports, covers the packet.
    abbrev pub IsPermitted : Type 0
    IsPermitted =
        (flow : AllowedFlow) × (src : String) × (dst : String) × (port : ℕ) × In flow
          (allowed_flows profile)
        × (zone_subnet flow.src ≡ some src)
        × (zone_subnet flow.dst ≡ some dst)
        × In port (or_else flow.ports [])
        × (matches sw.mask_with
              (permit_match (or_else flow.proto "tcp") (network src) (network dst) port) p
            ≡ true)

    -- Some blocked flow of the profile covers the packet.
    abbrev pub IsBlocked : Type 0
    IsBlocked =
        (flow : BlockedFlow) × (src : String) × (dst : String) × In flow (blocked_flows profile)
        × (zone_subnet flow.src ≡ some src)
        × (zone_subnet flow.dst ≡ some dst)
        × Between (network src) (network dst)

    -- Whatever the rest of the profile says, an IP packet that a blocked flow covers is decided by
    -- an entry with no action: it is dropped, also if an allowed flow covers it or it is ICMP.
    pub blocked-drop :
        IsBlocked → (t : FlowMod) × (sw.select (policy_table profile) p ≡ some t) × (t.actions ≡ [])
    blocked-drop (flow, src, dst, m, e, q, h) =
        select_decided sw (λ t. t.actions ≡ []) (policy_table profile) p
          (block_rule (network src) (network dst)) (policy_table-block profile flow src dst m e q)
          (matches-ip_pair (network src) (network dst) h)
          (λ s i y.
            All-In (λ r. 300 ≤ r.priority → r.actions ≡ []) (policy_table profile) {a = s}
              (policy_table-All (λ r. 300 ≤ r.priority → r.actions ≡ []) profile (λ a b le. refl)
                (λ f a b port j u v w le. absurd (omega arith)) (λ f a b j u v le. refl)
                (λ a b j le. absurd (omega arith)) (λ le. absurd (omega arith))
                (λ le. absurd (omega arith)) (λ nw queue le. absurd (omega arith)))
              i)

    -- A packet that an allowed flow covers and no blocked flow does is forwarded.
    pub permitted-forward :
        IsPermitted
        → ¬ IsBlocked
        → (t : FlowMod) × (sw.select (policy_table profile) p ≡ some t) × (t.actions ≡ forward)
    permitted-forward (flow, src, dst, port, m, e, q, i, h) free =
        let P : FlowMod → Type 0 =
          λ r. matches sw.mask_with r.match p ≡ true → 200 ≤ r.priority → r.actions ≡ forward in
        select_decided sw (λ t. t.actions ≡ forward) (policy_table profile) p
          (permit_rule (or_else flow.proto "tcp") (network src) (network dst) port)
          (policy_table-permit profile flow src dst port m e q i) h
          (λ s j y le.
            All-In P (policy_table profile) {a = s}
              (policy_table-All P profile (λ a b z l. absurd (omega arith))
                (λ f a b port' k u v w z l. refl)
                (λ f a b k u v z l.
                  absurd (free (f, a, b, k, u, v, ip_pair-matches (network a) (network b) z)))
                (λ a b k z l. refl) (λ z l. refl) (λ z l. refl)
                (λ nw queue z l. absurd (omega arith)))
              j y le)

    module _ (a b c d : String) where
      -- With the default denial on, an IP packet that is not ICMP, goes from one zone to another
      -- and is covered by no allowed flow is decided by an entry with no action: it is dropped.
      pub unpermitted-drop :
          default_deny profile ≡ true
          → In (a, b) zone_subnets
          → In (c, d) zone_subnets
          → a ≢ c
          → Between (network b) (network d)
          → p.ip_proto ≢ 1
          → ¬ IsPermitted
          → (t : FlowMod) × (sw.select (policy_table profile) p ≡ some t) × (t.actions ≡ [])
      unpermitted-drop on m k n h proto free =
          let P : FlowMod → Type 0 =
            λ r. matches sw.mask_with r.match p ≡ true → 100 ≤ r.priority → r.actions ≡ [] in
          select_decided sw (λ t. t.actions ≡ []) (policy_table profile) p
            (deny_rule (network b) (network d)) (policy_table-deny profile a b c d on n m k)
            (matches-ip_pair (network b) (network d) h)
            (λ s j y le.
              All-In P (policy_table profile) {a = s}
                (policy_table-All P profile (λ x z y l. refl)
                  (λ f x z port i u v w y l. absurd (free (f, x, z, port, i, u, v, w, y)))
                  (λ f x z i u v y l. refl)
                  (λ zone subnet i y l.
                    let same = ip_pair-matches (network subnet) (network subnet) y in
                    absurd
                      (n (networks_distinct a b c d m k (sym h.1 ∙ same.1 ∙ sym same.2 ∙ h.2))))
                  (λ y l. absurd (not_arp h.0 y)) (λ y l. absurd (proto (icmp_proto y)))
                  (λ nw queue y l. absurd (omega arith)))
                j y le)

      -- With the default denial on, an IP packet from one zone to another is never decided by a
      -- rule that sets a queue: it is dropped or forwarded as it is, for every zone configuration.
      pub cross_zone_unqueued :
          default_deny profile ≡ true
          → In (a, b) zone_subnets
          → In (c, d) zone_subnets
          → a ≢ c
          → Between (network b) (network d)
          → (t : FlowMod) × (sw.select (policy_table profile) p ≡ some t)
            × ((t.actions ≡ []) ⊎ (t.actions ≡ forward))
      cross_zone_unqueued on m k n h =
          let P : FlowMod → Type 0 =
            λ r. 100 ≤ r.priority → (r.actions ≡ []) ⊎ (r.actions ≡ forward) in
          select_decided sw (λ t. (t.actions ≡ []) ⊎ (t.actions ≡ forward)) (policy_table profile) p
            (deny_rule (network b) (network d)) (policy_table-deny profile a b c d on n m k)
            (matches-ip_pair (network b) (network d) h)
            (λ s j y le.
              All-In P (policy_table profile) {a = s}
                (policy_table-All P profile (λ x z l. inl refl) (λ f x z port i u v w l. inr refl)
                  (λ f x z i u v l. inl refl) (λ zone subnet i l. inr refl) (λ l. inr refl)
                  (λ l. inr refl) (λ nw queue l. absurd (omega arith)))
                j le)
