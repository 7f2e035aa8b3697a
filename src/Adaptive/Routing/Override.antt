-- ===== src/Adaptive/Routing/Override.antt =====
-- examples/campus_controller.py: the safety override of the agent's decisions, and what it does to a
-- reroute that is active.
use ai_driven_software_defin.Base.{
  Outcome, returned, raised, caught, Holds, then_do-Holds, caught-Holds, String, ℕ, Bool, true,
  false, not, ◌&&◌, ◌||◌, Option, none, some, leb, ◌≡◌, refl, ap, ◌∙◌, arith, if◌then◌else◌,
  if-both,
}
use ai_driven_software_defin.Adaptive.State.{
  Thresholds, threshold_update, Fraction, CampusController, append_event,
}
use ai_driven_software_defin.Adaptive.Routing.Policy.{is_congested}
use ai_driven_software_defin.Adaptive.Routing.Decisions.{
  MlAction, Files, requested_choice, resolve_dqn_routing_choice, apply_dqn_routing_decision,
  apply_manual, take_settings, integrate, apply_action, consume, read_action, apply_ml_action_hook,
  force_choice, is_dictionary, note_choice,
}
use ai_driven_software_defin.Adaptive.Routing.Settings.{
  Settings, read_settings, correct, differs, finish_settings, apply_threshold_settings,
}

with_override :
    (congested asked : Bool)
    → ◌≡◌ {A = Bool × Bool}
        (asked || (congested && not asked), congested && not asked)
        (congested || asked, congested && not asked)
with_override true true = refl
with_override true false = refl
with_override false true = refl
with_override false false = refl

-- A decision is to reroute exactly if the network counts as congested or the action asks for it; the
-- override is in force exactly if the network counts as congested and the action asks otherwise.
pub resolve_dqn_routing_choice_lem :
    (action : MlAction) (mbps : Fraction) (s : CampusController)
    → resolve_dqn_routing_choice action mbps s ≡ (
      is_congested mbps s || requested_choice action mbps s,
      is_congested mbps s && not (requested_choice action mbps s),
    )
unfolding resolve_dqn_routing_choice
resolve_dqn_routing_choice_lem action mbps s =
    with_override (is_congested mbps s) (requested_choice action mbps s)

-- The reroute is active, and the agent's integration is on.
abbrev pub IsRerouted : CampusController → Type 0
IsRerouted s = (s.reroute_active ≡ true) × (s.dqn_integration_enabled ≡ true)

finish_settings-keep :
    (s : CampusController) (o : Outcome Thresholds)
    → IsRerouted s
    → Holds IsRerouted (finish_settings s o)
unfolding finish_settings append_event
finish_settings-keep s (raised t) h = h
finish_settings-keep s (returned t) h =
    let u = record s { thresholds = correct t } in
    if-both (Holds IsRerouted) (differs s.thresholds t || differs t (correct t))
      (returned (append_event threshold_update u)) (returned u) (λ e. h) (λ e. h)

settings-keep :
    (p : Settings) (s : CampusController)
    → IsRerouted s
    → Holds IsRerouted (apply_threshold_settings p s)
unfolding apply_threshold_settings
settings-keep p s h = finish_settings-keep s (read_settings p s.thresholds) h

manual-keep :
    (manual : Option Settings) (s : CampusController)
    → IsRerouted s
    → Holds IsRerouted (apply_manual manual s)
unfolding apply_manual
manual-keep none s h = h
manual-keep (some p) s h = settings-keep p s h

rerouted_congested :
    (mbps : Fraction) (s : CampusController) → IsRerouted s → is_congested mbps s ≡ true
unfolding is_congested
rerouted_congested mbps s h = ground (arith, h.0)

decision-keep :
    (action : MlAction) (mbps : Fraction) (s : CampusController)
    → IsRerouted s
    → IsRerouted (apply_dqn_routing_decision action mbps s)
unfolding apply_dqn_routing_decision append_event
decision-keep action mbps s h =
    let e : (resolve_dqn_routing_choice action mbps s).0 ≡ true =
      ap (λ d. d.0) (resolve_dqn_routing_choice_lem action mbps s)
      ∙ rw (rerouted_congested mbps s h) refl in
    rw (e, h.0) (refl, h.1)

take_settings-keep :
    (manual : Option Settings) (settings : Settings) (s : CampusController)
    → IsRerouted s
    → Holds IsRerouted (take_settings manual settings s)
unfolding take_settings
take_settings-keep none settings s h = settings-keep settings s h
take_settings-keep (some manual) settings s h = h

integrate-keep :
    (action : MlAction) (s : CampusController) → IsRerouted s → IsRerouted (integrate action s)
unfolding integrate
integrate-keep action s h =
    let mbps = s.last_core_primary_mbps in
    if-both IsRerouted s.dqn_integration_enabled
      (if is_dictionary action.dqn_action && (s.dqn_pending_decision || is_congested mbps s)
        then apply_dqn_routing_decision action mbps s
        else s)
      (force_choice action.force_reroute s)
      (λ e.
        if-both IsRerouted
          (is_dictionary action.dqn_action && (s.dqn_pending_decision || is_congested mbps s))
          (apply_dqn_routing_decision action mbps s) s (λ f. decision-keep action mbps s h)
          (λ f. h))
      (λ e. absurd (cc))

note_choice-keep :
    (choice : Option String) (s : CampusController)
    → IsRerouted s
    → IsRerouted (note_choice choice s)
unfolding note_choice append_event
note_choice-keep none s h = h
note_choice-keep (some choice) s h = h

consume-keep :
    (files : Files) (action : Option MlAction) (s : CampusController)
    → IsRerouted s
    → Holds IsRerouted (consume files action s)
unfolding consume apply_action
consume-keep files none s h = h
consume-keep files (some action) s h =
    let t = note_choice action.routing_choice s in
    let noted = note_choice-keep action.routing_choice s h in
    then_do-Holds IsRerouted (take_settings files.manual action.settings t)
      (λ u. apply_manual files.manual (integrate action u))
      (take_settings-keep files.manual action.settings t noted)
      (λ u k. manual-keep files.manual (integrate action u) (integrate-keep action u k))

read_action-keep :
    (files : Files) (action : Option (ℕ × Option MlAction)) (s : CampusController)
    → IsRerouted s
    → Holds IsRerouted (read_action files action s)
unfolding read_action
read_action-keep files none s h = manual-keep files.manual s h
read_action-keep files (some (mtime, action)) s h =
    let t : CampusController = record s { ml_action_mtime = mtime } in
    if-both (Holds IsRerouted) (leb mtime s.ml_action_mtime) (caught (apply_manual files.manual s))
      (consume files action t)
      (λ e. caught-Holds IsRerouted (apply_manual files.manual s) (manual-keep files.manual s h))
      (λ e. consume-keep files action t h)

-- With the agent's integration on, the hook never ends an active reroute, whatever the files say.
pub apply_ml_action_hook-IsRerouted :
    (files : Files) (s : CampusController)
    → IsRerouted s
    → Holds IsRerouted (apply_ml_action_hook files s)
unfolding apply_ml_action_hook
apply_ml_action_hook-IsRerouted files s h = read_action-keep files files.action s h
