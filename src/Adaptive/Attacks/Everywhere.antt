-- ===== src/Adaptive/Attacks/Everywhere.antt =====
-- examples/campus_controller.py: the switches that get the drop of a scanner or of a flooding host.
use ai_driven_software_defin.OpenFlow.{FlowMod, any_match, exact, eth_type_ip}
use mathlib.Core.Path.{subst}
use ai_driven_software_defin.Base.{
  has_key, has_key-insert, pair_eq, ◌-◌, ◌*◌, ℕ, ◌+◌, true, ◌||◌, Option, none, some, List, [], ◌∷◌,
  ◌++◌, String, In, lookup, insert, erase, or_else, member, ltb, nat_beq, nat_beq_iff, nat_eq,
  string_eq, ◌≡◌, ◌⊎◌, refl, sym, ap, ◌∙◌, inl, inr, if◌then◌else◌, if-both, eq_self,
  In-append_left, In-append_right,
}
use ai_driven_software_defin.Adaptive.State.{
  CampusController, add_flow, append_event, flow, Message, Fraction, data_plane, ddos_detected,
}
use ai_driven_software_defin.Adaptive.Attacks.Scans.{
  install_portscan_drop, drop_on_others, scan_drop,
}
use ai_driven_software_defin.Adaptive.Attacks.Floods.{
  type_or, drop_flow, install_ddos_drop, install_on_all, unless_blocked, check_source,
  check_port_ddos, host_ip_for_port, second, ddos_pps_threshold,
}

drop_on_others-keep :
    (here : ℕ) (src_ip : String) (dpids : List ℕ) (s : CampusController) (m : ℕ × Message)
    → In m s.sent
    → In m (drop_on_others here src_ip dpids s).sent
unfolding drop_on_others add_flow
drop_on_others-keep here src_ip [] s m h = h
drop_on_others-keep here src_ip (d ∷ dpids) s m h =
    drop_on_others-keep here src_ip dpids
      (if nat_beq d here then s else add_flow d (scan_drop src_ip) s) m
      (if-both (λ t. In m t.sent) (nat_beq d here) s (add_flow d (scan_drop src_ip) s) (λ e. h)
        (λ e. In-append_left s.sent ((d, flow (scan_drop src_ip)) ∷ []) m h))

drop_on_others-In :
    (here : ℕ) (src_ip : String) (dpids : List ℕ) (s : CampusController) (d : ℕ)
    → In (here, flow (scan_drop src_ip)) s.sent
    → In d dpids
    → In (d, flow (scan_drop src_ip)) (drop_on_others here src_ip dpids s).sent
unfolding drop_on_others add_flow
drop_on_others-In here src_ip [] s d h m = absurd m
drop_on_others-In here src_ip (j ∷ dpids) s d h m =
    let drop = flow (scan_drop src_ip) in
    let more = s.sent ++ ((j, drop) ∷ []) in
    let t : CampusController = if nat_beq j here then s else add_flow j (scan_drop src_ip) s in
    let kept : In (here, drop) t.sent =
      if-both (λ u. In (here, drop) u.sent) (nat_beq j here) s (add_flow j (scan_drop src_ip) s)
        (λ e. h) (λ e. In-append_left s.sent ((j, drop) ∷ []) (here, drop) h) in
    elim m [
      | inr r ↦ drop_on_others-In here src_ip dpids t d kept r
      | inl q ↦
          drop_on_others-keep here src_ip dpids t (d, drop)
            (if-both (λ u. In (d, drop) u.sent) (nat_beq j here) s (add_flow j (scan_drop src_ip) s)
              (λ e. rw (← q, (nat_beq_iff j here).0 e) h)
              (λ e.
                In-append_right s.sent ((j, drop) ∷ []) (d, drop) (inl (ap (λ k. (k, drop)) q))))
    ]

-- Every connected switch, and the switch of the contact, gets the drop of the scanner.
pub install_portscan_drop-In :
    (dpid : ℕ) (src_ip : String) (s : CampusController) (d : ℕ)
    → In d (dpid ∷ s.datapaths)
    → In (d, flow (scan_drop src_ip)) (install_portscan_drop dpid src_ip s).sent
unfolding install_portscan_drop add_flow
install_portscan_drop-In dpid src_ip s d m =
    let drop = flow (scan_drop src_ip) in
    let t = add_flow dpid (scan_drop src_ip) s in
    let here : In (dpid, drop) t.sent =
      In-append_right s.sent ((dpid, drop) ∷ []) (dpid, drop) (inl refl) in
    elim m [
      | inl q ↦ rw (← q) (drop_on_others-keep dpid src_ip s.datapaths t (dpid, drop) here)
      | inr r ↦ drop_on_others-In dpid src_ip s.datapaths t d here r
    ]

-- The drop of a flooding host.
abbrev pub flood_drop : String → FlowMod
flood_drop src_ip =
    drop_flow 400 (record any_match { eth_type = some eth_type_ip; ipv4_src = some (exact src_ip) })
      30

-- A host that is known as an attacker is passed over by the whole loop.
install_on_all-known :
    (now : ℕ) (dpids : List ℕ) (src_ip : String) (s : CampusController)
    → has_key src_ip s.ddos_attacker_ips ≡ true
    → install_on_all now dpids src_ip s ≡ s
unfolding install_on_all install_ddos_drop
install_on_all-known now [] src_ip s h = refl
install_on_all-known now (d ∷ dpids) src_ip s h = rw h (install_on_all-known now dpids src_ip s h)

-- No message, or one drop for one address on one switch.
abbrev AtMostFirst : ℕ → CampusController → CampusController → Type 0
AtMostFirst d s t =
    (t.sent ≡ s.sent) ⊎ ((ip : String) × (t.sent ≡ s.sent ++ ((d, flow (flood_drop ip)) ∷ [])))

install_ddos_drop-first :
    (now d : ℕ) (src_ip : String) (s : CampusController)
    → AtMostFirst d s (install_ddos_drop now d src_ip s)
      × (has_key src_ip (install_ddos_drop now d src_ip s).ddos_attacker_ips ≡ true)
unfolding install_ddos_drop add_flow append_event
install_ddos_drop-first now d src_ip s =
    if-both (λ t. AtMostFirst d s t × (has_key src_ip t.ddos_attacker_ips ≡ true))
      (has_key src_ip s.ddos_attacker_ips) s
      (append_event (ddos_detected src_ip) (record (add_flow d (flood_drop src_ip) s) {
        ddos_attacker_ips = insert src_ip now s.ddos_attacker_ips;
        ddos_blocked_flows = s.ddos_blocked_flows + 1;
        ddos_active = true;
        ddos_detection_ts = now;
        ddos_attack_type = some (type_or s.ddos_attack_type data_plane);
      }))
      (λ e. (inl refl, e))
      (λ e. (
        inr (src_ip, refl),
        has_key-insert src_ip src_ip now s.ddos_attacker_ips ∙ rw (eq_self src_ip) refl,
      ))

install_on_all-first :
    (now d : ℕ) (dpids : List ℕ) (src_ip : String) (s : CampusController)
    → AtMostFirst d s (install_on_all now (d ∷ dpids) src_ip s)
unfolding install_on_all
install_on_all-first now d dpids src_ip s =
    let h = install_ddos_drop-first now d src_ip s in
    rw (install_on_all-known now dpids src_ip (install_ddos_drop now d src_ip s) h.1) h.0

check_source-first :
    (now d : ℕ) (dpids : List ℕ) (source : Option String) (s : CampusController)
    → s.datapaths ≡ d ∷ dpids
    → AtMostFirst d s (check_source now source s)
unfolding check_source unless_blocked
check_source-first now d dpids none s h = inl refl
check_source-first now d dpids (some ip) s h =
    let blocked = or_else (lookup ip s.recent_security_block_src) 0 in
    let t : CampusController = record s {
      recent_security_block_src = erase ip s.recent_security_block_src;
    } in
    let recent = ltb (now - blocked) (300 * second) in
    let all = install_on_all now s.datapaths ip s in
    let later = install_on_all now s.datapaths ip t in
    let ok = AtMostFirst d s in
    if-both ok (has_key ip s.ddos_attacker_ips || member ip s.simulation_probe_ips) s
      (if nat_beq blocked 0 then all else if recent then s else later) (λ e. inl refl)
      (λ e.
        if-both ok (nat_beq blocked 0) all (if recent then s else later)
          (λ f.
            subst (λ all_dpids. ok (install_on_all now all_dpids ip s)) (sym h)
              (install_on_all-first now d dpids ip s))
          (λ f.
            if-both ok recent s later (λ g. inl refl)
              (λ g.
                subst (λ all_dpids. ok (install_on_all now all_dpids ip t)) (sym h)
                  (install_on_all-first now d dpids ip t))))

-- However high the rate of a port is and however many switches are connected, one call sends at
-- most one drop, and that to the first of the connected switches.
pub check_port_ddos-first :
    (now dpid port_no : ℕ) (pps : Fraction) (s : CampusController) (d : ℕ) (dpids : List ℕ)
    → s.datapaths ≡ d ∷ dpids
    → ((check_port_ddos now dpid port_no pps s).sent ≡ s.sent)
      ⊎ ((ip : String) × ((check_port_ddos now dpid port_no pps s).sent
            ≡ s.sent ++ ((d, flow (flood_drop ip)) ∷ [])))
unfolding check_port_ddos
check_port_ddos-first now dpid port_no pps s d dpids h =
    let t : CampusController = record s {
      ddos_port_pps = insert (dpid, port_no) pps s.ddos_port_pps;
    } in
    if-both (AtMostFirst d s) (ltb pps.num (ddos_pps_threshold * pps.den)) t
      (check_source now (host_ip_for_port dpid port_no) t) (λ e. inl refl)
      (λ e. check_source-first now d dpids (host_ip_for_port dpid port_no) t h)
