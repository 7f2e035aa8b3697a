-- ===== src/Activity/Tests.antt =====
-- tumba_sdn/simulation/pc_activity_manager.py: runs of the requests and of a thread.
use ai_driven_software_defin.Base.{
  ◌≡◌, refl, some, [], ◌∷◌, lookup, has_key, all, member, insert, nat_eq, string_eq,
}
use ai_driven_software_defin.Activity.Pcs.{demo_scenarios}
use ai_driven_software_defin.Activity.Manager.{
  State, init, assignments_of, set_activity, switch_to, write_state, reset_all, set_scenario,
}
use ai_driven_software_defin.Activity.Threads.{
  Reach, start, step, activity, reset, step_thread, step_found, advance,
}
use ai_driven_software_defin.Activity.Invariant.{IsValid}
use ai_driven_software_defin.Activity.Reachable.{calls_and_steps-IsValid}
use ai_driven_software_defin.Activity.Requests.{is_known, reset_all_lem, set_scenario_ok}

-- h_wifi1 takes an exam, and its thread, number 20, takes four steps.
abbrev exam : State
exam = (set_activity 5 "h_wifi1" "exam" (init 0)).1

abbrev measured : State
measured = step_thread 497 20 (step_thread 497 20 (step_thread 497 20 (step_thread 497 20 exam)))

abbrev measured_Reach : Reach measured
measured_Reach =
    step 497 20 _ (
      step 497 20 _
        (step 497 20 _ (step 497 20 _ (activity 5 "h_wifi1" "exam" (init 0) (start 0)))))

-- The thread has recorded what it measured.
measured_traffic : lookup "h_wifi1" measured.traffic ≡ some 497
unfolding lookup insert member has_key init set_activity switch_to write_state step_thread
    step_found advance
measured_traffic = refl

calls_and_steps-IsValid_example : IsValid (reset_all 9 measured).1
calls_and_steps-IsValid_example =
    calls_and_steps-IsValid (reset_all 9 measured).1 (reset 9 measured measured_Reach)

reset_all_lem_example :
    (lookup "h_wifi1" (reset_all 9 measured).1.activity ≡ some "idle")
    × (lookup "h_wifi1" (reset_all 9 measured).1.traffic ≡ some 0)
unfolding has_key
reset_all_lem_example = reset_all_lem 9 "h_wifi1" measured measured_Reach refl

set_scenario_ok_example :
    (set_scenario 5 "mine" (("h_wifi1", "exam") ∷ ("printer", "exam") ∷ []) measured).0.0
    ≡ all is_known (
        assignments_of
          (lookup "mine" demo_scenarios)
          (("h_wifi1", "exam") ∷ ("printer", "exam") ∷ []))
set_scenario_ok_example =
    set_scenario_ok 5 "mine" (("h_wifi1", "exam") ∷ ("printer", "exam") ∷ []) measured
