-- ===== src/Activity/Manager.antt =====
-- tumba_sdn/simulation/pc_activity_manager.py: PCActivityManager's state and methods. A thread and
-- its stop event share a number, given out in order. Traffic is in hundredths of Mbit/s, time in
-- milliseconds.
use ai_driven_software_defin.Base.{
  ℕ, ◌+◌, Bool, true, false, not, Option, none, some, List, [], ◌∷◌, String, Dict, lookup, insert,
  has_key, keys, all, keep, length, or_else, if◌then◌else◌, ◌==◌, ◌>>=◌, nat_eq, string_eq,
}
use ai_driven_software_defin.Activity.Profiles.{activity_profiles, priority_labels}
use ai_driven_software_defin.Activity.Pcs.{Pc, user_pcs, demo_scenarios}

-- Where `_traffic_loop` stands: before the loop's test, before the check of the activity, in a run
-- of iperf3, before the result is recorded, behind the loop, and at its end.
pub data Phase : Type 0 where
  looping checking measuring leaving finished : Phase
  recording : ℕ → Phase

pub record Thread : Type 0 where
  pub host : String
  pub activity : String
  pub phase : Phase

-- One PC in the snapshot of `get_state`.
pub record PcState : Type 0 where
  pub pc : Pc
  pub activity : String
  pub activity_label : String
  pub priority : ℕ
  pub priority_label : String
  pub dscp : ℕ
  pub traffic : ℕ
  pub since_ts : ℕ
  pub color : String
  pub icon : String
  pub bw_target : ℕ

pub record Baseline : Type 0 where
  pub captured_ts : ℕ
  pub active_pcs : ℕ
  -- What the metrics file holds, if it can be read.
  pub metrics : Option String
  pub activities : Dict String String

pub record State : Type 0 where
  pub running : Bool
  pub activity : Dict String String
  pub since_ts : Dict String ℕ
  pub traffic : Dict String ℕ
  pub pkts_sent : Dict String ℕ
  pub stop_events : Dict String ℕ
  pub threads : Dict String (Option ℕ)
  -- The events that are set, the threads that were started, and the next number.
  pub set_events : List ℕ
  pub pool : Dict ℕ Thread
  pub next_event : ℕ
  pub state_file : Option (List (String × PcState))
  pub baseline_file : Option Baseline

pub data Result : Type 0 where
  unknown_host unknown_activity : String → Result
  set : String → String → Bool → Result

abbrev pub is_ok : Result → Bool
is_ok (unknown_host h) = false
is_ok (unknown_activity a) = false
is_ok (set h a changed) = true

abbrev pub for_pcs {ℓ} : {V : Type ℓ} → V → Dict String Pc → List (String × V)
for_pcs v [] = []
for_pcs v ((h, p) ∷ m) = (h, v) ∷ for_pcs v m

-- Events numbered from `n`.
abbrev pub number_pcs : ℕ → Dict String Pc → Dict String ℕ
number_pcs n [] = []
number_pcs n ((h, p) ∷ m) = (h, n) ∷ number_pcs (n + 1) m

unfoldable pub init : ℕ → State
init now = record {
  running = true;
  activity = for_pcs "idle" user_pcs;
  since_ts = for_pcs now user_pcs;
  traffic = for_pcs 0 user_pcs;
  pkts_sent = for_pcs 0 user_pcs;
  stop_events = number_pcs 0 user_pcs;
  threads = for_pcs none user_pcs;
  set_events = [];
  pool = [];
  next_event = length user_pcs;
  state_file = none;
  baseline_file = none;
}

-- `d.get(k) == v`.
abbrev pub is_value : Option String → String → Bool
is_value none b = false
is_value (some a) b = a == b

abbrev pub count_or_zero : Option ℕ → ℕ
count_or_zero n = or_else n 0

abbrev pub set_event : Option ℕ → List ℕ → List ℕ
set_event none es = es
set_event (some e) es = e ∷ es

-- One PC's part of `get_state`; nothing where a table has no such key.
unfoldable pub pc_state : String → Pc → State → Option PcState
pc_state h pc s = do
  act ← lookup h s.activity
  profile ← lookup act activity_profiles
  label ← lookup profile.priority priority_labels
  traffic ← lookup h s.traffic
  since ← lookup h s.since_ts
  some (record {
    pc = pc;
    activity = act;
    activity_label = profile.label;
    priority = profile.priority;
    priority_label = label;
    dscp = profile.dscp;
    traffic = traffic;
    since_ts = since;
    color = profile.color;
    icon = profile.icon;
    bw_target = profile.bandwidth_kbps;
  })

unfoldable pub pc_states : Dict String Pc → State → Option (List (String × PcState))
pc_states [] s = some []
pc_states ((h, pc) ∷ m) s = do p ← pc_state h pc s; ps ← pc_states m s; some ((h, p) ∷ ps)

-- The PCs' part of `get_state`.
unfoldable pub get_state : State → Option (List (String × PcState))
get_state s = pc_states user_pcs s

-- `_write_state`, where the file can be written.
unfoldable pub write_state : State → State
write_state s = record s { state_file = get_state s }

abbrev pub is_idle : String → Bool
is_idle a = a == "idle"

-- The thread that `set_activity` starts, unless the PC goes idle.
abbrev pub start_thread : ℕ → String → String → Dict ℕ Thread → Dict ℕ Thread
start_thread e h a pool =
    if is_idle a then pool else insert e (record { host = h; activity = a; phase = looping }) pool

-- `set_activity` under the lock, for a new activity.
unfoldable pub switch_to : ℕ → String → String → State → State
switch_to now h a s =
    let e = s.next_event in
    record s {
      set_events = set_event (lookup h s.stop_events) s.set_events;
      activity = insert h a s.activity;
      since_ts = insert h now s.since_ts;
      traffic = insert h 0 s.traffic;
      stop_events = insert h e s.stop_events;
      next_event = e + 1;
      pool = start_thread e h a s.pool;
      threads = insert h (if is_idle a then none else some e) s.threads;
    }

unfoldable pub set_activity : ℕ → String → String → State → Result × State
set_activity now h a s =
    if not (has_key h user_pcs)
    then (unknown_host h, s)
    else if not (has_key a activity_profiles)
    then (unknown_activity a, s)
    else if is_value (lookup h s.activity) a
    then (set h a false, s)
    else (set h a true, write_state (switch_to now h a s))

-- The calls of `set_activity` that `/set_scenario` makes, with the results.
unfoldable pub set_activities : ℕ → List (String × String) → State → List Result × State
set_activities now [] s = ([], s)
set_activities now ((h, a) ∷ rest) s =
    let first = set_activity now h a s in
    let others = set_activities now rest first.1 in (first.0 ∷ others.0, others.1)

unfoldable pub idle_all : ℕ → List String → State → State
idle_all now [] s = s
idle_all now (h ∷ hs) s = idle_all now hs (set_activity now h "idle" s).1

-- `reset_all`, with the number of PCs it answers.
unfoldable pub reset_all : ℕ → State → ℕ × State
reset_all now s = (length user_pcs, idle_all now (keys user_pcs) s)

abbrev pub is_active : String × String → Bool
is_active (h, a) = not (is_idle a)

-- `capture_baseline`: what the metrics file holds and whether the baseline can be written are given.
unfoldable pub capture_baseline : ℕ → Option String → Bool → State → Bool × State
capture_baseline now metrics can_write s =
    let active = keep is_active s.activity in
    if can_write
    then (
      true,
      record s {
        baseline_file = some (record {
          captured_ts = now;
          active_pcs = length active;
          metrics = metrics;
          activities = active;
        });
      },
    )
    else (false, s)

unfoldable pub stop_threads : List String → State → State
stop_threads [] s = s
stop_threads (h ∷ hs) s =
    stop_threads hs (record s { set_events = set_event (lookup h s.stop_events) s.set_events })

unfoldable pub stop : State → State
unfolding stop_threads
stop s = stop_threads (keys user_pcs) (record s { running = false })

-- The assignments of `/set_scenario`: those of a known scenario, or else the request's own.
abbrev pub assignments_of :
    Option (List (String × String)) → List (String × String) → List (String × String)
assignments_of none given = given
assignments_of (some known) given = known

unfoldable pub set_scenario :
    ℕ → String → List (String × String) → State → (Bool × List Result) × State
set_scenario now name given s =
    let r = set_activities now (assignments_of (lookup name demo_scenarios) given) s in
    ((all is_ok r.0, r.0), r.1)
