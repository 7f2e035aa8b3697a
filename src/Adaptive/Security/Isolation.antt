-- ===== src/Adaptive/Security/Isolation.antt =====
-- examples/campus_controller.py: what `_enforce_security_policy` drops. The match of each drop is
-- met by its packet, and the default policy isolates the student labs.
use ai_driven_software_defin.Base.{
  ℕ, ◌+◌, true, not, ◌||◌, Option, none, some, List, [], ◌∷◌, ◌++◌, String, In, All, All-In,
  member_iff, ◌≡◌, ◌≢◌, refl, ap, ◌∙◌, arith, Option-cases, inl, inr, if◌then◌else◌, if-both,
  nat_beq, nat_beq_iff, nat_eq, string_eq, eq_self,
}
use ai_driven_software_defin.OpenFlow.{Packet, matches, eth_type_ip}
use ai_driven_software_defin.Adaptive.Tables.{
  zone_student_lab, zone_admin, zone_academic, zone_incubation,
}
use ai_driven_software_defin.Adaptive.Zones.{
  SecurityPolicy, ip_zone, isolation, default_security_policy,
}
use ai_driven_software_defin.Adaptive.State.{CampusController, flow, add_flow, append_event}
use ai_driven_software_defin.Adaptive.Security.Verdict.{
  Verdict, allow, drop, verdict, find_pair, is_unapproved, access_match, ip_match, pair_verdict,
  enforce_security_policy, apply_verdict, count_attempt, security_drop, drop_security_flow,
}

-- A parsed packet has a TCP port only in a TCP packet, and a UDP port only in a UDP packet.
abbrev pub IsParsed : Packet → Type 0
IsParsed p = ((p.tcp_dst ≢ none) → p.ip_proto ≡ 6) × ((p.udp_dst ≢ none) → p.ip_proto ≡ 17)

-- The match of a drop is met by the packet that the verdict is about.
abbrev pub IsMet : (String → String → String) → Packet → Verdict → Type 0
IsMet mask p allow = Unit
IsMet mask p (drop m reason) = matches mask m p ≡ true

ip_match-met :
    (mask : String → String → String) (p : Packet)
    → p.eth_type ≡ eth_type_ip
    → matches mask (ip_match p) p ≡ true
unfolding matches
ip_match-met mask p h =
    ground (arith, nat_beq_iff p.in_port p.in_port, h, eq_self p.ipv4_src, eq_self p.ipv4_dst)

access_match-met :
    (mask : String → String → String) (p : Packet) (tcp udp : Option ℕ)
    → p.eth_type ≡ eth_type_ip
    → IsParsed p
    → p.tcp_dst ≡ tcp
    → p.udp_dst ≡ udp
    → matches mask (access_match p tcp udp) p ≡ true
unfolding matches access_match
access_match-met mask p (some port) udp h parsed t u =
    let six : p.ip_proto ≡ 6 = parsed.0 (λ e. absurd (ground (arith, e, t))) in
    ground (
      arith,
      nat_beq_iff p.in_port p.in_port,
      nat_beq_iff port port,
      six,
      t,
      h,
      eq_self p.ipv4_src,
      eq_self p.ipv4_dst,
    )
access_match-met mask p none (some port) h parsed t u =
    let seventeen : p.ip_proto ≡ 17 = parsed.1 (λ e. absurd (ground (arith, e, u))) in
    ground (
      arith,
      nat_beq_iff p.in_port p.in_port,
      nat_beq_iff port port,
      seventeen,
      u,
      h,
      eq_self p.ipv4_src,
      eq_self p.ipv4_dst,
    )
access_match-met mask p none none h parsed t u = ground (
  arith,
  nat_beq_iff p.in_port p.in_port,
  nat_beq_iff p.ip_proto p.ip_proto,
  h,
  eq_self p.ipv4_src,
  eq_self p.ipv4_dst,
)

-- Whatever the policy is, a drop that is decided on for a parsed packet matches that packet.
pub verdict-IsMet :
    (mask : String → String → String) (policy : SecurityPolicy) (p : Packet)
    → IsParsed p
    → IsMet mask p (verdict policy p)
unfolding verdict
verdict-IsMet mask policy p parsed =
    let pair = find_pair (ip_zone p.ipv4_src) (ip_zone p.ipv4_dst) policy.block_zone_pairs in
    let access : Verdict =
      if is_unapproved policy p
      then drop (access_match p p.tcp_dst p.udp_dst) "unapproved_server_access"
      else allow in
    if-both (IsMet mask p) (not (nat_beq p.eth_type eth_type_ip) || not policy.enabled) allow
      (pair_verdict pair p access) (λ e. tt)
      (λ e.
        let ip : p.eth_type ≡ eth_type_ip = ground (arith, e, nat_beq_iff p.eth_type eth_type_ip) in
        elim (Option-cases pair) [
          | inl q ↦ rw q (
              if-both (IsMet mask p) (is_unapproved policy p)
                (drop (access_match p p.tcp_dst p.udp_dst) "unapproved_server_access") allow
                (λ f. access_match-met mask p p.tcp_dst p.udp_dst ip parsed refl refl) (λ f. tt))
          | inr (z, q) ↦ rw q (ip_match-met mask p ip)
        ])

-- The zones that the student labs are kept away from.
abbrev pub isolated_zones : List String
isolated_zones = zone_admin ++ (zone_academic ++ zone_incubation)

lab-ip_zone : (ip : String) → In ip zone_student_lab → ip_zone ip ≡ "student_lab"
unfolding ip_zone
lab-ip_zone ip m = rw ((member_iff ip zone_student_lab).1 m) refl

-- The default policy has a pair for packets from the labs to an address.
abbrev IsKept : String → Type 0
IsKept addr =
    find_pair "student_lab" (ip_zone addr) default_security_policy.block_zone_pairs
    ≡ some (isolation (ip_zone addr))

isolated_zones-IsKept : All IsKept isolated_zones
unfolding find_pair ip_zone
isolated_zones-IsKept = (refl, (refl, (refl, (refl, (refl, (refl, (refl, (refl, (refl, tt)))))))))

-- What is decided on an IP packet while the policy is on.
verdict_ip :
    (policy : SecurityPolicy) (p : Packet)
    → p.eth_type ≡ eth_type_ip
    → policy.enabled ≡ true
    → verdict policy p
      ≡ pair_verdict
          (find_pair (ip_zone p.ipv4_src) (ip_zone p.ipv4_dst) policy.block_zone_pairs)
          p
          (if is_unapproved policy p
            then drop (access_match p p.tcp_dst p.udp_dst) "unapproved_server_access"
            else allow)
unfolding verdict
verdict_ip policy p ip on = ground (arith, ip, on)

isolated-verdict :
    (p : Packet)
    → p.eth_type ≡ eth_type_ip
    → In p.ipv4_src zone_student_lab
    → In p.ipv4_dst isolated_zones
    → verdict default_security_policy p ≡ drop (ip_match p) "student_isolation"
isolated-verdict p ip src dst =
    let kept = All-In IsKept isolated_zones isolated_zones-IsKept dst in
    let pairs = default_security_policy.block_zone_pairs in
    let access : Verdict =
      if is_unapproved default_security_policy p
      then drop (access_match p p.tcp_dst p.udp_dst) "unapproved_server_access"
      else allow in
    verdict_ip default_security_policy p ip refl
    ∙ ap (λ zone. pair_verdict (find_pair zone (ip_zone p.ipv4_dst) pairs) p access)
        (lab-ip_zone p.ipv4_src src)
    ∙ ap (λ pair. pair_verdict pair p access) kept

count_attempt_lem :
    (p : Packet) (s : CampusController)
    → p.eth_type ≡ eth_type_ip
    → s.security_policy.enabled ≡ true
    → count_attempt p s ≡ record s { security_flows_attempted = s.security_flows_attempted + 1 }
unfolding count_attempt
count_attempt_lem p s ip on = ground (arith, ip, on)

-- While the default policy is in force, an IP packet from a student lab to an address of the admin,
-- academic or incubation zone is blocked, for every protocol and port: the switch gets the drop of
-- its flow, and one more attempt and one more blocked flow are counted.
pub default_isolation :
    (now dpid : ℕ) (buffer_id : Option ℕ) (p : Packet) (s : CampusController)
    → s.security_policy ≡ default_security_policy
    → p.eth_type ≡ eth_type_ip
    → In p.ipv4_src zone_student_lab
    → In p.ipv4_dst isolated_zones
    → (r : CampusController) × (enforce_security_policy now dpid buffer_id p s ≡ (true, r))
      × (r.sent
          ≡ s.sent
            ++ ((dpid, flow (security_drop default_security_policy (ip_match p) buffer_id)) ∷ []))
      × (r.security_flows_attempted ≡ s.security_flows_attempted + 1)
      × (r.security_flows_blocked ≡ s.security_flows_blocked + 1)
unfolding enforce_security_policy apply_verdict drop_security_flow add_flow append_event
default_isolation now dpid buffer_id p s policy ip src dst =
    let counted : CampusController = record s {
      security_flows_attempted = s.security_flows_attempted + 1;
    } in
    (
      drop_security_flow now dpid buffer_id p (ip_match p) "student_isolation" counted,
      ap (λ t. apply_verdict now dpid buffer_id p (verdict s.security_policy p) t)
            (count_attempt_lem p s ip (ap (λ q. q.enabled) policy))
          ∙ ap (λ v. apply_verdict now dpid buffer_id p v counted)
              (ap (λ q. verdict q p) policy ∙ isolated-verdict p ip src dst),
      ap (λ q. s.sent ++ ((dpid, flow (security_drop q (ip_match p) buffer_id)) ∷ [])) policy,
      refl,
      refl,
    )
