-- ===== src/Agent/Loop.antt =====
-- tumba_sdn/ml/dqn_agent.py: ReplayBuffer, `_calculate_reward`, `_build_action_payload` and the rounds of
-- `run`. Latencies are in tenths of a millisecond, utilisations and flags in thousandths, and a reward
-- is a gain and a loss in twentieths. `V` stands for the tensors of the state vectors.
use ai_driven_software_defin.Base.{
  ℕ, ◌+◌, ◌-◌, ◌*◌, max, min, Bool, true, false, ◌&&◌, Option, none, some, List, [], ◌∷◌, ◌++◌,
  String, Dict, lookup, last_n, ltb, member, ◌==◌, nat_eq, string_eq, if◌then◌else◌,
}

-- ACTION_NAMES, each with its index.
abbrev pub action_names : Dict ℕ String
action_names =
    (0, "normal_mode")
    ∷ (1, "throttle_wifi_30pct")
    ∷ (2, "throttle_wifi_70pct")
    ∷ (3, "throttle_wifi_90pct")
    ∷ (4, "boost_staff_lan")
    ∷ (5, "boost_server_zone")
    ∷ (6, "boost_lab_zone")
    ∷ (7, "exam_mode")
    ∷ (8, "peak_hour_mode")
    ∷ (9, "throttle_wifi_boost_staff")
    ∷ (10, "throttle_wifi_boost_server")
    ∷ (11, "throttle_social_boost_academic")
    ∷ (12, "emergency_staff_protection")
    ∷ (13, "emergency_server_protection")
    ∷ (14, "security_isolation_wifi")
    ∷ (15, "load_balance_ds1_ds2")
    ∷ []

pub record Features : Type 0 where
  pub staff_lat : ℕ
  pub server_lat : ℕ
  pub wifi_lat : ℕ
  pub staff_util : ℕ
  pub server_util : ℕ
  pub lab_util : ℕ
  pub exam_flag : ℕ
  pub security_flag : ℕ

pub record RewardParts : Type 0 where
  pub gain : ℕ
  pub loss : ℕ

abbrev pub plus : RewardParts → RewardParts → RewardParts
plus a b = record { gain = a.gain + b.gain; loss = a.loss + b.loss }

abbrev pub gains : ℕ → RewardParts
gains n = record { gain = n; loss = 0 }

abbrev pub loses : ℕ → RewardParts
loses n = record { gain = 0; loss = n }

-- 40 points, or the violation's share of them.
unfoldable pub staff_part : Features → RewardParts
staff_part f =
    if ltb f.staff_lat 200 && ltb f.staff_util 800
    then gains 800
    else loses (min 800 (4 * (f.staff_lat - 200)))

-- 30 points, or the violation's share of them.
unfoldable pub server_part : Features → RewardParts
server_part f =
    if ltb f.server_lat 200 && ltb f.server_util 800
    then gains 600
    else loses (min 600 (3 * (f.server_lat - 200)))

unfoldable pub lab_part : Features → RewardParts
lab_part f = if ltb f.lab_util 900 then gains 300 else loses 300

unfoldable pub wifi_part : Features → RewardParts
wifi_part f =
    if ltb 500 f.exam_flag then (if ltb f.wifi_lat 200 then gains 200 else loses 200) else gains 100

unfoldable pub security_part : Features → RewardParts
security_part f = if ltb 500 f.security_flag then loses 400 else gains 0

unfoldable pub calculate_reward : Features → RewardParts
calculate_reward f =
    plus (staff_part f)
      (plus (server_part f) (plus (lab_part f) (plus (wifi_part f) (security_part f))))

pub data RoutingChoice : Type 0 where
  primary_path backup_path load_balance : RoutingChoice

abbrev pub rerouting_actions : List String
rerouting_actions =
    "throttle_wifi_90pct" ∷ "peak_hour_mode" ∷ "emergency_staff_protection"
    ∷ "emergency_server_protection" ∷ "security_isolation_wifi" ∷ []

-- The routing that an action asks for, and whether it forces a reroute.
unfoldable pub routing_of : String → RoutingChoice × Bool
routing_of name =
    if member name rerouting_actions
    then (backup_path, true)
    else if name == "load_balance_ds1_ds2"
    then (load_balance, true)
    else (primary_path, false)

pub record Payload : Type 0 where
  pub routing_choice : RoutingChoice
  pub force_reroute : Bool
  pub action_index : ℕ
  pub action_name : String
  pub reward : RewardParts
  pub steps : ℕ

-- Nothing for an index without a name, where the source raises.
unfoldable pub build_action_payload : ℕ → Option String → RewardParts → ℕ → Option Payload
build_action_payload action none reward steps = none
build_action_payload action (some name) reward steps = some (record {
  routing_choice = (routing_of name).0;
  force_reroute = (routing_of name).1;
  action_index = action;
  action_name = name;
  reward = reward;
  steps = steps;
})

module _ (V : Type 0) where
  -- `done` is always false.
  pub record Transition : Type 0 where
    pub state : V
    pub action : ℕ
    pub reward : RewardParts
    pub next_state : V

  pub record Agent : Type 0 where
    pub replay : List Transition
    pub prev_state : Option V
    pub prev_action : Option ℕ
    pub steps : ℕ
    pub action_file : Option Payload

  unfoldable pub init : Agent
  init = record {
    replay = [];
    prev_state = none;
    prev_action = none;
    steps = 0;
    action_file = none;
  }

  -- `deque(maxlen=max(128, capacity))`.
  unfoldable pub add_transition : ℕ → Transition → List Transition → List Transition
  add_transition capacity t buf = last_n (max 128 capacity) (buf ++ (t ∷ []))

  unfoldable pub remember :
      ℕ → RewardParts → V → Option V → Option ℕ → List Transition → List Transition
  remember capacity reward v (some p) (some a) buf =
      add_transition capacity (record { state = p; action = a; reward = reward; next_state = v })
        buf
  remember capacity reward v _ _ buf = buf

  -- What a round reads and selects: the state vector, the features and the action.
  pub record Observation : Type 0 where
    pub state_vec : V
    pub features : Features
    pub action : ℕ

  -- A round of `run`, which does nothing where the metrics cannot be read.
  unfoldable pub round : ℕ → Option Observation → Agent → Agent
  round capacity none s = s
  round capacity (some o) s =
      let reward = calculate_reward o.features in
      record {
        replay = remember capacity reward o.state_vec s.prev_state s.prev_action s.replay;
        prev_state = some o.state_vec;
        prev_action = some o.action;
        steps = s.steps + 1;
        action_file =
            build_action_payload o.action (lookup o.action action_names) reward (s.steps + 1);
      }

  unfoldable pub rounds : ℕ → List (Option Observation) → Agent → Agent
  rounds capacity [] s = s
  rounds capacity (o ∷ os) s = rounds capacity os (round capacity o s)
