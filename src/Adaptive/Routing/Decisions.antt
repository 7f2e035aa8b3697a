-- ===== src/Adaptive/Routing/Decisions.antt =====
-- examples/campus_controller.py: `_trigger_dqn_decision`, `_resolve_dqn_routing_choice`,
-- `_apply_dqn_routing_decision`, `_check_dqn_decision_timeout`, `_apply_ml_action_hook` and
-- `_evaluate_congestion`. The texts of the action file are taken trimmed and in lower case. What is
-- only shown on the dashboard (Q values, reward, notes) is left out.
use ai_driven_software_defin.Base.{
  Outcome, returned, then_do, caught, ℕ, ◌-◌, Bool, true, false, not, ◌&&◌, ◌||◌, Option, none,
  some, List, [], ◌∷◌, String, member, or_else, leb, ltb, string_eq, if◌then◌else◌,
}
use ai_driven_software_defin.Adaptive.State.{
  Fraction, at_least, at_most, CampusController, append_event, dqn_decision_requested,
  dqn_decision_applied, dqn_decision_timeout, ml_routing_choice, ml_force_reroute,
  throughput_congestion_on, throughput_congestion_off,
}
use ai_driven_software_defin.Adaptive.Routing.Settings.{Settings, apply_threshold_settings}
use ai_driven_software_defin.Adaptive.Routing.Policy.{is_congested, set_reroute_policy, bool_beq}

unfoldable pub trigger_dqn_decision : ℕ → CampusController → CampusController
unfolding append_event
trigger_dqn_decision now s =
    if not s.dqn_integration_enabled || s.dqn_pending_decision
    then s
    else append_event dqn_decision_requested
        (record s { dqn_pending_decision = true; dqn_last_trigger_ts = now })

pub record MlAction : Type 0 where
  pub routing_choice : Option String
  -- The name of the agent's action, if `dqn` is a dictionary.
  pub dqn_action : Option String
  pub settings : Settings
  pub force_reroute : Option Bool

abbrev pub backup_choices : List String
backup_choices = "backup_path" ∷ "prefer_backup_path" ∷ "reroute_backup" ∷ []

abbrev pub primary_choices : List String
primary_choices = "primary_path" ∷ "prefer_primary_path" ∷ "keep_primary" ∷ []

abbrev pub backup_actions : List String
backup_actions = "prefer_backup_path" ∷ "emergency_throttle" ∷ []

abbrev pub primary_actions : List String
primary_actions = "keep_primary" ∷ "relax_thresholds" ∷ []

-- What the action asks for, before the safety override.
unfoldable pub requested_choice : MlAction → Fraction → CampusController → Bool
unfolding member is_congested
requested_choice action mbps s =
    let choice = or_else action.routing_choice "" in
    let name = or_else action.dqn_action "" in
    if member choice backup_choices
    then true
    else if member choice primary_choices
    then false
    else if member name backup_actions
    then true
    else if member name primary_actions
    then false
    else if member name ("tighten_thresholds" ∷ [])
    then (if is_congested mbps s then true else s.reroute_active)
    else s.reroute_active

-- The decision, and whether it is the safety override's.
unfoldable pub resolve_dqn_routing_choice : MlAction → Fraction → CampusController → Bool × Bool
unfolding requested_choice is_congested
resolve_dqn_routing_choice action mbps s =
    let decision = requested_choice action mbps s in
    let safety_override = is_congested mbps s && not decision in
    (decision || safety_override, safety_override)

unfoldable pub apply_dqn_routing_decision :
    MlAction → Fraction → CampusController → CampusController
unfolding resolve_dqn_routing_choice set_reroute_policy append_event
apply_dqn_routing_decision action mbps s =
    let decided = resolve_dqn_routing_choice action mbps s in
    let s = record s { dqn_pending_decision = false } in
    append_event (dqn_decision_applied decided.0 decided.1)
      (if bool_beq decided.0 s.reroute_active then s else set_reroute_policy decided.0 s)

-- The timeout in microseconds is the setting `dqn_decision_timeout_s`.
unfoldable pub check_dqn_decision_timeout : ℕ → ℕ → CampusController → CampusController
unfolding append_event is_congested set_reroute_policy
check_dqn_decision_timeout timeout now s =
    let fallback = append_event dqn_decision_timeout (record s { dqn_pending_decision = false }) in
    if not s.dqn_pending_decision
      || leb s.dqn_last_trigger_ts 0
      || ltb (now - s.dqn_last_trigger_ts) timeout
    then s
    else if is_congested s.last_core_primary_mbps fallback
    then set_reroute_policy true fallback
    else fallback

-- The files that the hook reads: the manual settings, if they set anything, and the action file
-- with its time of change, whose content may fail to be read.
pub record Files : Type 0 where
  pub manual : Option Settings
  pub action : Option (ℕ × Option MlAction)

unfoldable pub apply_manual : Option Settings → CampusController → Outcome CampusController
unfolding apply_threshold_settings
apply_manual none s = returned s
apply_manual (some p) s = apply_threshold_settings p s

-- The reroute that a routing choice asks for, where it is one of the known ones.
unfoldable pub inferred : String → Option Bool
unfolding member
inferred choice =
    if member choice backup_choices
    then some true
    else if member choice primary_choices
    then some false
    else none

-- The reroute is set as the action file says, which is logged in any case.
unfoldable pub force_reroute : Bool → CampusController → CampusController
unfolding set_reroute_policy append_event
force_reroute force s =
    append_event (ml_force_reroute force)
      (if bool_beq force s.reroute_active then s else set_reroute_policy force s)

-- The reroute is set as a routing choice implies, which is logged if it changes.
unfoldable pub follow_choice : Option Bool → CampusController → CampusController
unfolding set_reroute_policy append_event
follow_choice none s = s
follow_choice (some force) s =
    if bool_beq force s.reroute_active
    then s
    else append_event (ml_force_reroute force) (set_reroute_policy force s)

unfoldable pub infer_last : Option String → Option Bool
unfolding inferred
infer_last none = none
infer_last (some choice) = inferred choice

-- What is done without the integration of the agent.
unfoldable pub force_choice : Option Bool → CampusController → CampusController
unfolding force_reroute follow_choice infer_last
force_choice none s = follow_choice (infer_last s.last_ml_routing_choice) s
force_choice (some force) s = force_reroute force s

-- The routing choice of the action is kept.
unfoldable pub note_choice : Option String → CampusController → CampusController
unfolding append_event
note_choice none s = s
note_choice (some choice) s =
    append_event (ml_routing_choice choice) (record s { last_ml_routing_choice = some choice })

abbrev pub is_dictionary : Option String → Bool
is_dictionary none = false
is_dictionary (some name) = true

-- The thresholds of the action, unless the manual settings are in force.
unfoldable pub take_settings :
    Option Settings → Settings → CampusController → Outcome CampusController
unfolding apply_threshold_settings
take_settings none settings s = apply_threshold_settings settings s
take_settings (some manual) settings s = returned s

-- The reroute that the action leads to.
unfoldable pub integrate : MlAction → CampusController → CampusController
unfolding apply_dqn_routing_decision is_congested force_choice
integrate action s =
    let mbps = s.last_core_primary_mbps in
    if s.dqn_integration_enabled
    then (if is_dictionary action.dqn_action && (s.dqn_pending_decision || is_congested mbps s)
        then apply_dqn_routing_decision action mbps s
        else s)
    else force_choice action.force_reroute s

unfoldable pub apply_action : Files → MlAction → CampusController → Outcome CampusController
unfolding note_choice take_settings integrate apply_manual then_do
apply_action files action s =
    then_do (take_settings files.manual action.settings (note_choice action.routing_choice s))
      (λ s. apply_manual files.manual (integrate action s))

unfoldable pub consume : Files → Option MlAction → CampusController → Outcome CampusController
unfolding apply_action
consume files none s = returned s
consume files (some action) s = apply_action files action s

-- The manual settings are applied within the `try` where the action file is no newer.
unfoldable pub read_action :
    Files → Option (ℕ × Option MlAction) → CampusController → Outcome CampusController
unfolding apply_manual consume caught
read_action files none s = apply_manual files.manual s
read_action files (some (mtime, action)) s =
    if leb mtime s.ml_action_mtime
    then caught (apply_manual files.manual s)
    else consume files action (record s { ml_action_mtime = mtime })

unfoldable pub apply_ml_action_hook : Files → CampusController → Outcome CampusController
unfolding read_action
apply_ml_action_hook files s = read_action files files.action s

unfoldable pub mark_throughput : Fraction → CampusController → CampusController
unfolding at_least at_most append_event
mark_throughput mbps s =
    if not s.throughput_congested && at_least mbps s.thresholds.congest_high_mbps
    then append_event throughput_congestion_on (record s { throughput_congested = true })
    else if s.throughput_congested && at_most mbps s.thresholds.congest_low_mbps
    then append_event throughput_congestion_off (record s { throughput_congested = false })
    else s

-- The reroute is set if the agent has answered and it is not yet as wanted.
unfoldable pub answer : Bool → CampusController → CampusController
unfolding set_reroute_policy
answer enabled t =
    if not t.dqn_pending_decision && not (bool_beq t.reroute_active enabled)
    then set_reroute_policy enabled t
    else t

-- A decision asked of the agent.
unfoldable pub ask : Files → ℕ → Bool → CampusController → Outcome CampusController
unfolding trigger_dqn_decision apply_ml_action_hook set_reroute_policy then_do answer
ask files now enabled s =
    if s.dqn_integration_enabled
    then then_do (apply_ml_action_hook files (trigger_dqn_decision now s))
        (λ t. returned (answer enabled t))
    else returned (set_reroute_policy enabled s)

unfoldable pub evaluate_congestion :
    Files → ℕ → Fraction → CampusController → Outcome CampusController
unfolding mark_throughput at_least at_most ask
evaluate_congestion files now mbps s =
    let s = mark_throughput mbps s in
    if not s.reroute_active && at_least mbps s.thresholds.congest_high_mbps
    then ask files now true s
    else if s.reroute_active && at_most mbps s.thresholds.congest_low_mbps
    then ask files now false s
    else returned s
