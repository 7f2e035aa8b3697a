-- ===== src/Security/Floods.antt =====
-- tumba_sdn/controller/security_module.py: floods, `check_ddos` on the data plane and
-- `_track_ctrl_flood` on the control plane.
use ai_driven_software_defin.Base.{
  ℕ, zero, suc, keys_where, ◌+◌, ◌≤◌, ◌≡◌, refl, sym, ap, Bool, true, false, not, ◌||◌,
  if◌then◌else◌, none, some, List, [], ◌∷◌, ◌++◌, map, String, lookup, insert, has_key,
  has_key-lookup, has_key-false, lookup-insert_self, keep, All, All-append, last_n, length-last_n,
  length, drop, arith, Bool-cases, inl, inr, string_eq, nat_eq, member, leb, ltb,
}
use ai_driven_software_defin.OpenFlow.{FlowMod}
use ai_driven_software_defin.Security.Zones.{
  ddos_cookie, ddos_drop_priority, ddos_block_duration_s, ddos_pps_threshold, ddos_mbps_threshold,
  ctrl_flood_window_ms, host_ip_for_port,
}
use ai_driven_software_defin.Security.Module.{
  SecurityModule, log_security_event, install_drop, drop_rule, push, drop_old, recent_times,
  mitigate_ctrl_flood, source_match, block_ddos, check_ddos, cleanup, unblock_all, refresh_ddos,
}
use ai_driven_software_defin.Security.Handlers.{drop_on_all_lem}

-- While an address is blocked the check of its port changes nothing.
check_ddos_blocked :
    (now dpid port_no pps mbps : ℕ) (src : String) (s : SecurityModule)
    → host_ip_for_port dpid port_no ≡ some src
    → has_key src s.ddos_blocked_ips ≡ true
    → check_ddos now dpid port_no pps mbps s ≡ s
unfolding check_ddos
check_ddos_blocked now dpid port_no pps mbps src s host held =
    elim (Bool-cases (leb ddos_pps_threshold pps || leb ddos_mbps_threshold mbps)) [
      | inl e ↦ rw (e, host) (rw held refl)
      | inr e ↦ rw e refl
    ]

abbrev pub is_flood : ℕ → ℕ → Bool
is_flood pps mbps = leb ddos_pps_threshold pps || leb ddos_mbps_threshold mbps

-- The rule that drops all IP traffic of a host for 300 seconds, on some switches.
abbrev pub host_drops : String → List ℕ → List (ℕ × FlowMod)
host_drops src =
    map
      (λ d. (d, drop_rule (source_match src) ddos_cookie ddos_drop_priority ddos_block_duration_s))

-- What a reading of the port of a host does: with a flood, every connected switch is sent the drop of
-- the host after what was sent before, the host is blocked from now on, the flag is set, and no
-- later reading of the port changes anything; otherwise the state is as before.
abbrev pub IsReaction : ℕ → ℕ → ℕ → ℕ → ℕ → String → SecurityModule → SecurityModule → Type 0
IsReaction now dpid port_no pps mbps src s t =
    (t.sent ≡ (if is_flood pps mbps then s.sent ++ host_drops src s.datapaths else s.sent))
    × (lookup src t.ddos_blocked_ips ≡ (if is_flood pps mbps then some now else none))
    × (t.ddos_active ≡ is_flood pps mbps || s.ddos_active)
    × ((now' pps' mbps' : ℕ)
        → check_ddos now' dpid port_no pps' mbps' t
          ≡ (if is_flood pps mbps then t else check_ddos now' dpid port_no pps' mbps' s))

flood-IsReaction :
    (now dpid port_no pps mbps : ℕ) (src : String) (s : SecurityModule)
    → host_ip_for_port dpid port_no ≡ some src
    → is_flood pps mbps ≡ true
    → IsReaction now dpid port_no pps mbps src s (block_ddos now src s)
unfolding block_ddos log_security_event
flood-IsReaction now dpid port_no pps mbps src s host e =
    let held : has_key src (insert src now s.ddos_blocked_ips) ≡ true =
      (has_key-lookup src (insert src now s.ddos_blocked_ips)).1
        (λ n. absurd (ground (arith, lookup-insert_self src now s.ddos_blocked_ips))) in
    rw e (
      rw (drop_on_all_lem s.datapaths src s) (
        refl,
        lookup-insert_self src now s.ddos_blocked_ips,
        refl,
        λ now' pps' mbps'. check_ddos_blocked now' dpid port_no pps' mbps' src _ host held,
      ))

-- What a reading does to the port of a connected switch whose host is known and not blocked: at or
-- above one of the thresholds, every connected switch is sent, after what was sent before, the rule
-- that drops the host's traffic for 300 seconds; the host is recorded as blocked at this time; the
-- flag is set; and from the new state no further reading of the port changes anything, at any time.
-- Below both thresholds nothing is sent, the host stays unblocked, the flag stays, and later readings
-- find the port as it was.
pub check_ddos_lem :
    (now dpid port_no pps mbps : ℕ) (src : String) (s : SecurityModule)
    → host_ip_for_port dpid port_no ≡ some src
    → has_key src s.ddos_blocked_ips ≡ false
    → member dpid s.datapaths ≡ true
    → IsReaction now dpid port_no pps mbps src s (check_ddos now dpid port_no pps mbps s)
unfolding check_ddos
check_ddos_lem now dpid port_no pps mbps src s host free connected =
    elim (Bool-cases (is_flood pps mbps)) [
      | inl e ↦
          let q : check_ddos now dpid port_no pps mbps s ≡ block_ddos now src s =
            rw (e, host) (rw (free, connected) refl) in
          rw q (flood-IsReaction now dpid port_no pps mbps src s host e)
      | inr e ↦
          rw e (refl, has_key-false src s.ddos_blocked_ips free, refl, λ now' pps' mbps'. refl)
    ]

-- The times of a queue do not fall.
abbrev pub IsRising : List ℕ → Type 0
IsRising [] = Unit
IsRising (t ∷ times) = All (λ u. t ≤ u) times × IsRising times

abbrev pub in_window : ℕ → ℕ → Bool
in_window now t = not (ltb (t + ctrl_flood_window_ms) now)

keep_unchanged :
    (now t : ℕ) (times : List ℕ)
    → ltb (t + ctrl_flood_window_ms) now ≡ false
    → All (λ u. t ≤ u) times
    → keep (in_window now) times ≡ times
keep_unchanged now t [] h a = refl
keep_unchanged now t (u ∷ times) h a =
    let r : ltb (u + ctrl_flood_window_ms) now ≡ false = ground arith in
    rw r (ap (λ (l : List ℕ). u ∷ l) (keep_unchanged now t times h a.1))

drop_old-keep :
    (now : ℕ) (times : List ℕ) → IsRising times → drop_old now times ≡ keep (in_window now) times
unfolding drop_old
drop_old-keep now [] o = refl
drop_old-keep now (t ∷ times) o = elim (Bool-cases (ltb (t + ctrl_flood_window_ms) now)) [
  | inl old ↦ rw (old, drop_old) (drop_old-keep now times o.1)
  | inr new ↦
      rw (new, drop_old) (ap (λ (l : List ℕ). t ∷ l) (sym (keep_unchanged now t times new o.0)))
]

IsRising-append :
    (now : ℕ) (times : List ℕ)
    → IsRising times
    → All (λ t. t ≤ now) times
    → IsRising (times ++ (now ∷ []))
IsRising-append now [] o b = (tt, tt)
IsRising-append now (t ∷ times) o b =
    (All-append (λ u. t ≤ u) times (now ∷ []) o.0 (b.0, tt), IsRising-append now times o.1 b.1)

IsRising-drop : (n : ℕ) (times : List ℕ) → IsRising times → IsRising (drop n times)
IsRising-drop zero times o = o
IsRising-drop (suc n) [] o = o
IsRising-drop (suc n) (t ∷ times) o = IsRising-drop n times o.1

length-drop_old-le : (now : ℕ) (times : List ℕ) → length (drop_old now times) ≤ length times
unfolding drop_old
length-drop_old-le now [] = omega arith
length-drop_old-le now (t ∷ times) = elim (Bool-cases (ltb (t + ctrl_flood_window_ms) now)) [
  | inl old ↦ rw (old, drop_old) (omega (arith, length-drop_old-le now times))
  | inr new ↦ rw (new, drop_old) (omega arith)
]

-- From times that do not fall and are not after `now`: the queue of a switch after one more
-- packet-in holds, of the last 500 packet-ins, exactly those of the last half second, and never
-- more than 500.
pub recent_times-window :
    (now : ℕ) (times : List ℕ)
    → IsRising times
    → All (λ t. t ≤ now) times
    → (recent_times now times ≡ keep (in_window now) (last_n 500 (times ++ (now ∷ []))))
      × (length (recent_times now times) ≤ 500)
unfolding recent_times push last_n
recent_times-window now times o b =
    let all = times ++ (now ∷ []) in
    (
      drop_old-keep now (last_n 500 all) (IsRising-drop _ all (IsRising-append now times o b)),
      omega (arith, length-drop_old-le now (last_n 500 all), length-last_n 500 all),
    )

-- With no address blocked, the flag and the type that a control-plane flood sets outlast every
-- later round of the cleanup: nothing takes them back.
pub ctrl_flood_stays :
    (now later dpid in_port : ℕ) (s : SecurityModule)
    → s.ddos_blocked_ips ≡ []
    → let t = cleanup later (mitigate_ctrl_flood now dpid in_port s) in
      (t.ddos_active ≡ true) × (t.ddos_attack_type ≡ some "ctrl_plane")
unfolding cleanup mitigate_ctrl_flood install_drop log_security_event refresh_ddos unblock_all
    keys_where
ctrl_flood_stays now later dpid in_port s e = rw e (refl, refl)
