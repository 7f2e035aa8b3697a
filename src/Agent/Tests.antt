-- ===== src/Agent/Tests.antt =====
-- tumba_sdn/ml/dqn_agent.py: runs of the reward and of the loop, over numbers as state vectors.
use ai_driven_software_defin.Agent.Run.{run, observations, run_lem}
use ai_driven_software_defin.Base.{
  ◌≡◌, ltb, if◌then◌else◌, arith, ℕ, Option, none, some, List, [], ◌∷◌,
}
use ai_driven_software_defin.Agent.Loop.{Features, Observation, init, rounds}
use ai_driven_software_defin.Agent.Replay.{IsValid, rounds-IsValid}

abbrev quiet_exam : Features
quiet_exam = record {
  staff_lat = 90;
  server_lat = 65;
  wifi_lat = 140;
  staff_util = 100;
  server_util = 50;
  lab_util = 20;
  exam_flag = 1000;
  security_flag = 0;
}

abbrev seen : List (Option (Observation ℕ))
seen =
    some (record { state_vec = 1; features = quiet_exam; action = 7 })
    ∷ none
    ∷ some (record { state_vec = 2; features = quiet_exam; action = 0 })
    ∷ some (record { state_vec = 3; features = quiet_exam; action = 3 })
    ∷ []

rounds-IsValid_example : IsValid ℕ 64 (rounds ℕ 64 seen (init ℕ))
rounds-IsValid_example = rounds-IsValid ℕ 64 seen

-- Two rounds, the first with metrics that cannot be read.
abbrev observed : ℕ → Option (Observation ℕ)
observed loops =
    if ltb loops 2
    then none
    else some (record { state_vec = loops; features = quiet_exam; action = 7 })

run_lem_example :
    run ℕ 64 2 observed 5 0 (init ℕ)
    ≡ some (rounds ℕ 64 (observations ℕ 64 2 observed 0 2) (init ℕ))
run_lem_example = run_lem ℕ 64 2 observed 5 (init ℕ) (omega arith) (omega arith)
