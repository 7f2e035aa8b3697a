-- ===== src/Agent/Reward.antt =====
-- tumba_sdn/ml/dqn_agent.py: the bounds of the reward and when it is highest.
use ai_driven_software_defin.Base.{◌≤◌, ◌≡◌, ◌↔◌, Bool, true, ◌&&◌, not, ltb, arith}
use ai_driven_software_defin.Agent.Loop.{
  Features, staff_part, server_part, lab_part, wifi_part, security_part, calculate_reward,
}

-- A reward gains at most 95 points and loses at most 115, in twentieths; whatever the features.
pub calculate_reward_bounds :
    (f : Features) → ((calculate_reward f).gain ≤ 1900) × ((calculate_reward f).loss ≤ 2300)
unfolding calculate_reward staff_part server_part lab_part wifi_part security_part
calculate_reward_bounds f = (ground arith, ground arith)

-- Every target of the network is kept during an exam, and no attack is reported.
abbrev pub is_best : Features → Bool
is_best f =
    ltb f.staff_lat 200
    && ltb f.staff_util 800
    && ltb f.server_lat 200
    && ltb f.server_util 800
    && ltb f.lab_util 900
    && ltb 500 f.exam_flag
    && ltb f.wifi_lat 200
    && not (ltb 500 f.security_flag)

-- The full 95 points without a loss are given exactly if all targets are kept, an exam is on and no
-- attack is reported.
pub calculate_reward_best :
    (f : Features)
    → (((calculate_reward f).gain ≡ 1900) × ((calculate_reward f).loss ≡ 0)) ↔ (is_best f ≡ true)
unfolding calculate_reward staff_part server_part lab_part wifi_part security_part
calculate_reward_best f = ground arith
