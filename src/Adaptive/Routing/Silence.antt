-- ===== src/Adaptive/Routing/Silence.antt =====
-- examples/campus_controller.py: the reroute of a controller whose agent is silent.
use ai_driven_software_defin.Adaptive.Routing.Override.{IsRerouted}
use ai_driven_software_defin.Base.{
  sym, Outcome, returned, raised, then_do, Holds, ℕ, true, false, not, ◌&&◌, ◌||◌, Option, none,
  some, leb, ltb, ◌-◌, ◌≡◌, refl, ap, ◌∙◌, arith, if◌then◌else◌, if-both,
}
use ai_driven_software_defin.Adaptive.State.{
  Thresholds, policy_activated, Fraction, CampusController, at_least, at_most, append_event,
  dqn_decision_timeout, dqn_decision_requested, threshold_update, throughput_congestion_on,
  throughput_congestion_off,
}
use ai_driven_software_defin.Adaptive.Routing.Policy.{
  is_congested, set_reroute_policy, set_policy, bool_beq,
}
use ai_driven_software_defin.Adaptive.Routing.Decisions.{
  Files, trigger_dqn_decision, check_dqn_decision_timeout, apply_manual, read_action,
  apply_ml_action_hook, mark_throughput, answer, ask, evaluate_congestion,
}
use ai_driven_software_defin.Adaptive.Routing.Settings.{
  Settings, read_settings, correct, differs, finish_settings, apply_threshold_settings,
}
use mathlib.Core.Path.{subst}

-- No action file.
abbrev pub IsSilent : Files → Type 0
IsSilent files = files.action ≡ none

-- A change that leaves the reroute and the pending decision as they are.
abbrev IsSame : CampusController → CampusController → Type 0
IsSame s t =
    (t.reroute_active ≡ s.reroute_active)
    × (t.dqn_integration_enabled ≡ s.dqn_integration_enabled)
    × (t.dqn_pending_decision ≡ s.dqn_pending_decision)

finish_settings-IsSame :
    (s : CampusController) (o : Outcome Thresholds) → Holds (IsSame s) (finish_settings s o)
unfolding finish_settings append_event
finish_settings-IsSame s (raised t) = (refl, refl, refl)
finish_settings-IsSame s (returned t) =
    let u = record s { thresholds = correct t } in
    if-both (Holds (IsSame s)) (differs s.thresholds t || differs t (correct t))
      (returned (append_event threshold_update u)) (returned u) (λ e. (refl, refl, refl))
      (λ e. (refl, refl, refl))

manual-IsSame :
    (manual : Option Settings) (s : CampusController) → Holds (IsSame s) (apply_manual manual s)
unfolding apply_manual apply_threshold_settings
manual-IsSame none s = (refl, refl, refl)
manual-IsSame (some p) s = finish_settings-IsSame s (read_settings p s.thresholds)

silent_hook :
    (files : Files) (s : CampusController)
    → IsSilent files
    → apply_ml_action_hook files s ≡ apply_manual files.manual s
unfolding apply_ml_action_hook read_action
silent_hook files s silent = ap (λ a. read_action files a s) silent

mark_throughput-IsSame :
    (mbps : Fraction) (s : CampusController) → IsSame s (mark_throughput mbps s)
unfolding mark_throughput append_event
mark_throughput-IsSame mbps s =
    let on = append_event throughput_congestion_on (record s { throughput_congested = true }) in
    let off = append_event throughput_congestion_off (record s { throughput_congested = false }) in
    let low = s.throughput_congested && at_most mbps s.thresholds.congest_low_mbps in
    if-both (IsSame s) (not s.throughput_congested && at_least mbps s.thresholds.congest_high_mbps)
      on (if low then off else s) (λ e. (refl, refl, refl))
      (λ e. if-both (IsSame s) low off s (λ f. (refl, refl, refl)) (λ f. (refl, refl, refl)))

trigger-pending :
    (now : ℕ) (s : CampusController)
    → IsRerouted s
    → IsRerouted (trigger_dqn_decision now s)
      × ((trigger_dqn_decision now s).dqn_pending_decision ≡ true)
unfolding trigger_dqn_decision append_event
trigger-pending now s h =
    if-both (λ t. IsRerouted t × (t.dqn_pending_decision ≡ true))
      (not s.dqn_integration_enabled || s.dqn_pending_decision) s
      (append_event dqn_decision_requested
        (record s { dqn_pending_decision = true; dqn_last_trigger_ts = now }))
      (λ e. (h, ground (arith, e, h.1))) (λ e. (h, refl))

-- The decision is still pending.
abbrev IsWaiting : CampusController → Type 0
IsWaiting s = IsRerouted s × (s.dqn_pending_decision ≡ true)

answer-keep : (s : CampusController) → IsWaiting s → IsRerouted (answer false s)
unfolding answer
answer-keep s h =
    if-both IsRerouted (not s.dqn_pending_decision && not (bool_beq s.reroute_active false))
      (set_reroute_policy false s) s (λ f. absurd (ground (arith, h.1, f))) (λ f. h.0)

waiting :
    (s : CampusController) (o : Outcome CampusController)
    → IsWaiting s
    → Holds (IsSame s) o
    → Holds IsWaiting o
waiting s (returned t) h k = ((k.0 ∙ h.0.0, k.1 ∙ h.0.1), k.2 ∙ h.1)
waiting s (raised t) h k = ((k.0 ∙ h.0.0, k.1 ∙ h.0.1), k.2 ∙ h.1)

answered :
    (o : Outcome CampusController)
    → Holds IsWaiting o
    → Holds IsRerouted (then_do o (λ t. returned (answer false t)))
unfolding then_do
answered (returned t) h = answer-keep t h
answered (raised t) h = h.0

-- A decision that is asked for and never answered leaves the reroute as it is.
ask-keep :
    (files : Files) (now : ℕ) (s : CampusController)
    → IsSilent files
    → IsRerouted s
    → Holds IsRerouted (ask files now false s)
unfolding ask
ask-keep files now s silent h =
    let t = trigger_dqn_decision now s in
    let hook = apply_ml_action_hook files t in
    let same : Holds (IsSame t) hook =
      subst (Holds (IsSame t)) (sym (silent_hook files t silent)) (manual-IsSame files.manual t) in
    if-both (Holds IsRerouted) s.dqn_integration_enabled
      (then_do hook (λ u. returned (answer false u))) (returned (set_reroute_policy false s))
      (λ e. answered hook (waiting t hook (trigger-pending now s h) same))
      (λ e. absurd (ground (arith, e, h.1)))

pub evaluate_congestion-keep :
    (files : Files) (now : ℕ) (mbps : Fraction) (s : CampusController)
    → IsSilent files
    → IsRerouted s
    → Holds IsRerouted (evaluate_congestion files now mbps s)
unfolding evaluate_congestion
evaluate_congestion-keep files now mbps s silent h =
    let t = mark_throughput mbps s in
    let same = mark_throughput-IsSame mbps s in
    let kept : IsRerouted t = (same.0 ∙ h.0, same.1 ∙ h.1) in
    let low = t.reroute_active && at_most mbps t.thresholds.congest_low_mbps in
    if-both (Holds IsRerouted)
      (not t.reroute_active && at_least mbps t.thresholds.congest_high_mbps) (ask files now true t)
      (if low then ask files now false t else returned t) (λ e. absurd (ground (arith, e, kept.0)))
      (λ e.
        if-both (Holds IsRerouted) low (ask files now false t) (returned t)
          (λ f. ask-keep files now t silent kept) (λ f. kept))

set_reroute_on-keep : (s : CampusController) → IsRerouted s → IsRerouted (set_reroute_policy true s)
unfolding set_reroute_policy
set_reroute_on-keep s h =
    if-both IsRerouted (bool_beq s.reroute_active true) s
      (set_policy true s.datapaths
        (append_event policy_activated (record s { reroute_active = true })))
      (λ e. h) (λ e. absurd (ground (arith, e, h.0)))

pub check_dqn_decision_timeout-keep :
    (timeout now : ℕ) (s : CampusController)
    → IsRerouted s
    → IsRerouted (check_dqn_decision_timeout timeout now s)
unfolding check_dqn_decision_timeout append_event
check_dqn_decision_timeout-keep timeout now s h =
    let fallback = append_event dqn_decision_timeout (record s { dqn_pending_decision = false }) in
    let congested = is_congested s.last_core_primary_mbps fallback in
    if-both IsRerouted
      (not s.dqn_pending_decision
        || leb s.dqn_last_trigger_ts 0
        || ltb (now - s.dqn_last_trigger_ts) timeout)
      s (if congested then set_reroute_policy true fallback else fallback) (λ e. h)
      (λ e.
        if-both IsRerouted congested (set_reroute_policy true fallback) fallback
          (λ f. set_reroute_on-keep fallback h) (λ f. h))
