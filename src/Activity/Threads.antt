-- ===== src/Activity/Threads.antt =====
-- tumba_sdn/simulation/pc_activity_manager.py: `_traffic_loop`, one step between two points where
-- other threads run, and the sequences of steps and calls that reach a state.
use ai_driven_software_defin.Base.{
  ℕ, ◌+◌, Bool, Option, none, some, List, String, lookup, insert, member, if◌then◌else◌, nat_eq,
  string_eq,
}
use ai_driven_software_defin.Activity.Manager.{
  Phase, looping, checking, measuring, leaving, finished, recording, Thread, State, is_value,
  count_or_zero, set_activity, write_state, set_scenario, reset_all, capture_baseline, stop, init,
}

abbrev pub at_phase : ℕ → Thread → Phase → State → State
at_phase e t p s = record s { pool = insert e (record t { phase = p }) s.pool }

-- `self._traffic_mbps[host] = measured` and `self._pkts_sent[host] += 1`.
abbrev pub record_traffic : String → ℕ → State → State
record_traffic h m s = record s {
  traffic = insert h m s.traffic;
  pkts_sent = insert h (count_or_zero (lookup h s.pkts_sent) + 1) s.pkts_sent;
}

-- One step of the thread `t` with the number `e`. A run of iperf3 measures `m`.
unfoldable pub advance : ℕ → ℕ → Thread → Phase → State → State
advance m e t looping s = at_phase e t (if member e s.set_events then leaving else checking) s
advance m e t checking s =
    at_phase e t (if is_value (lookup t.host s.activity) t.activity then measuring else leaving) s
advance m e t measuring s = at_phase e t (recording m) s
advance m e t (recording r) s =
    at_phase e t looping
      (if is_value (lookup t.host s.activity) t.activity then record_traffic t.host r s else s)
advance m e t leaving s = at_phase e t finished (
    if is_value (lookup t.host s.activity) "idle"
    then record s { traffic = insert t.host 0 s.traffic }
    else s)
advance m e t finished s = s

unfoldable pub step_found : ℕ → ℕ → Option Thread → State → State
step_found m e none s = s
step_found m e (some t) s = advance m e t t.phase s

-- A step of the thread with the number `e`.
unfoldable pub step_thread : ℕ → ℕ → State → State
unfolding step_found
step_thread m e s = step_found m e (lookup e s.pool) s

-- The states that calls and steps of the threads reach, in any order.
pub data Reach : State → Type 0 where
  start : (now : ℕ) → Reach (init now)
  step : (m e : ℕ) (s : State) → Reach s → Reach (step_thread m e s)
  activity : (now : ℕ) (h a : String) (s : State) → Reach s → Reach (set_activity now h a s).1
  scenario :
      (now : ℕ) (name : String) (given : List (String × String)) (s : State)
      → Reach s
      → Reach (set_scenario now name given s).1
  reset : (now : ℕ) (s : State) → Reach s → Reach (reset_all now s).1
  baseline :
      (now : ℕ) (metrics : Option String) (can_write : Bool) (s : State)
      → Reach s
      → Reach (capture_baseline now metrics can_write s).1
  stopped : (s : State) → Reach s → Reach (stop s)
  written : (s : State) → Reach s → Reach (write_state s)
