-- ===== src/Adaptive/Attacks/Flags.antt =====
-- examples/campus_controller.py: the flags of an attack, and the host of a switch port.
use ai_driven_software_defin.Base.{
  ℕ, true, false, not, ◌&&◌, none, List, [], ◌∷◌, String, In, Dict, lookup, arith, erase, has_key,
  is_empty, keys_where, ltb, nat_eq, string_eq, ◌≡◌, refl, inl, inr, if◌then◌else◌, if-both,
}
use ai_driven_software_defin.Adaptive.State.{
  CampusController, add_flow, append_event, ctrl_flood_expired, portscan_block_expired,
}
use ai_driven_software_defin.Adaptive.Attacks.Floods.{
  mitigate_ctrl_flood, cleanup_ctrl_flood, expire_floods, cleanup_ddos_state, is_old,
  host_ip_for_port, search_maps,
}
use ai_driven_software_defin.Adaptive.Attacks.Scans.{cleanup_portscan_state, expire_blocks}

-- The cleanups of one turn of `_monitor`.
unfoldable pub cleanup : ℕ → CampusController → CampusController
unfolding cleanup_ddos_state cleanup_ctrl_flood cleanup_portscan_state
cleanup now s = cleanup_portscan_state now (cleanup_ctrl_flood now (cleanup_ddos_state now s))

unfoldable pub cleanups : List ℕ → CampusController → CampusController
unfolding cleanup
cleanups [] s = s
cleanups (now ∷ times) s = cleanups times (cleanup now s)

-- The flag of an attack is on, and no host is known as an attacker.
abbrev IsStuck : CampusController → Type 0
IsStuck s = (s.ddos_active ≡ true) × (s.ddos_attacker_ips ≡ [])

expire_floods-keep :
    (expired : List ℕ) (s : CampusController) → IsStuck s → IsStuck (expire_floods expired s)
unfolding expire_floods append_event
expire_floods-keep [] s h = h
expire_floods-keep (dpid ∷ expired) s h =
    expire_floods-keep expired
      (append_event (ctrl_flood_expired dpid) (record s {
        ctrl_flood_switches = erase dpid s.ctrl_flood_switches;
        ctrl_pkt_in_times = erase dpid s.ctrl_pkt_in_times;
      }))
      h

expire_blocks-keep :
    (expired : List String) (s : CampusController) → IsStuck s → IsStuck (expire_blocks expired s)
unfolding expire_blocks append_event
expire_blocks-keep [] s h = h
expire_blocks-keep (ip ∷ expired) s h =
    expire_blocks-keep expired
      (append_event (portscan_block_expired ip) (record s {
        portscan_block_ips = erase ip s.portscan_block_ips;
        portscan_state = erase ip s.portscan_state;
      }))
      h

cleanup_ctrl_flood-keep :
    (now : ℕ) (s : CampusController) → IsStuck s → IsStuck (cleanup_ctrl_flood now s)
unfolding cleanup_ctrl_flood
cleanup_ctrl_flood-keep now s h =
    let expired = keys_where (is_old now) s.ctrl_flood_switches in
    let t = expire_floods expired s in
    let u : CampusController = record t {
      ctrl_flood_active = not (is_empty t.ctrl_flood_switches);
    } in
    let last = not u.ctrl_flood_active && not u.ddos_active in
    let kept = expire_floods-keep expired s h in
    if-both IsStuck (is_empty expired) s (if last then record u { ddos_attack_type = none } else u)
      (λ e. h)
      (λ e. if-both IsStuck last (record u { ddos_attack_type = none }) u (λ f. kept) (λ f. kept))

cleanup_ddos_state-keep :
    (now : ℕ) (s : CampusController) → IsStuck s → cleanup_ddos_state now s ≡ s
unfolding cleanup_ddos_state keys_where
cleanup_ddos_state-keep now s h = rw h.1 refl

cleanups-keep : (times : List ℕ) (s : CampusController) → IsStuck s → IsStuck (cleanups times s)
unfolding cleanups cleanup cleanup_portscan_state
cleanups-keep [] s h = h
cleanups-keep (now ∷ times) s h =
    let t = cleanup_ddos_state now s in
    let first : IsStuck t = rw (cleanup_ddos_state-keep now s h) h in
    let u = cleanup_ctrl_flood now t in
    cleanups-keep times (cleanup now s) (
      expire_blocks-keep (keys_where (λ until. ltb until now) u.portscan_block_ips) u
        (cleanup_ctrl_flood-keep now t first))

mitigate-IsStuck :
    (now dpid in_port : ℕ) (s : CampusController)
    → has_key dpid s.ctrl_flood_switches ≡ false
    → s.ddos_attacker_ips ≡ []
    → IsStuck (mitigate_ctrl_flood now dpid in_port s)
unfolding mitigate_ctrl_flood add_flow append_event
mitigate-IsStuck now dpid in_port s new h = rw new (refl, h)

-- After the mitigation of a control-plane flood, with no host known as an attacker, the flag of an
-- attack stays on through any number of cleanups at any times, long after the flood has expired.
pub cleanups-ddos_active :
    (times : List ℕ) (now dpid in_port : ℕ) (s : CampusController)
    → has_key dpid s.ctrl_flood_switches ≡ false
    → s.ddos_attacker_ips ≡ []
    → (cleanups times (mitigate_ctrl_flood now dpid in_port s)).ddos_active ≡ true
cleanups-ddos_active times now dpid in_port s new h =
    (cleanups-keep times (mitigate_ctrl_flood now dpid in_port s)
      (mitigate-IsStuck now dpid in_port s new h)).0

-- The hosts of the lab at s4, with their ports.
abbrev pub s4_hosts : Dict ℕ String
s4_hosts = (2, "10.1.7.1") ∷ (3, "10.1.7.2") ∷ (4, "10.1.7.3") ∷ []

abbrev pub it_switches : List ℕ
it_switches = 4 ∷ 5 ∷ 6 ∷ 9 ∷ 10 ∷ []

s4_host : (port_no : ℕ) → host_ip_for_port 4 port_no ≡ lookup port_no s4_hosts
unfolding host_ip_for_port search_maps lookup
s4_host port_no = ground arith

-- A port of s4, s5, s6, s9 or s10 is taken for the host of the lab at s4 that has this port, and for
-- no host if none of them has it.
pub host_ip_for_port-shared :
    (dpid port_no : ℕ)
    → In dpid it_switches
    → host_ip_for_port dpid port_no ≡ lookup port_no s4_hosts
unfolding host_ip_for_port search_maps
host_ip_for_port-shared dpid port_no (inl e) = rw (← e) (s4_host port_no)
host_ip_for_port-shared dpid port_no (inr (inl e)) = rw (← e) (s4_host port_no)
host_ip_for_port-shared dpid port_no (inr (inr (inl e))) = rw (← e) (s4_host port_no)
host_ip_for_port-shared dpid port_no (inr (inr (inr (inl e)))) = rw (← e) (s4_host port_no)
host_ip_for_port-shared dpid port_no (inr (inr (inr (inr (inl e))))) = rw (← e) (s4_host port_no)
host_ip_for_port-shared dpid port_no (inr (inr (inr (inr (inr m))))) = absurd m
