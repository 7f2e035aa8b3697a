-- ===== src/Activity/Reachable.antt =====
-- tumba_sdn/simulation/pc_activity_manager.py: the calls keep the invariant of `Activity.Invariant`, so
-- it holds in every state reached.
use ai_driven_software_defin.Base.{
  ℕ, ◌+◌, ◌<◌, ◌≡◌, inl, inr, refl, Bool, true, false, Option, none, some, List, [], ◌∷◌, String,
  Dict, lookup, insert, has_key, member, keys, length, ◌==◌, Bool-cases, lookup-insert, arith,
  nat_eq, string_eq,
}
use ai_driven_software_defin.Activity.Profiles.{activity_profiles}
use ai_driven_software_defin.Activity.Pcs.{Pc, user_pcs, demo_scenarios}
use ai_driven_software_defin.Activity.Manager.{
  looping, Thread, State, is_idle, is_value, set_event, start_thread, switch_to, set_activity,
  set_activities, idle_all, reset_all, set_scenario, assignments_of, capture_baseline, stop,
  stop_threads, write_state, init, for_pcs, number_pcs,
}
use ai_driven_software_defin.Activity.Threads.{
  Reach, start, step, activity, scenario, reset, baseline, stopped, written,
}
use ai_driven_software_defin.Activity.Invariant.{
  ThreadIsValid, ThreadsAreValid, IsValid, insert-ThreadsAreValid, step_thread-IsValid,
}

-- A thread stays valid when its PC's activity changes, since it is then told to stop.
switch-ThreadIsValid :
    (n : ℕ) (es : List ℕ) (acts : Dict String String) (stops : Dict String ℕ) (h a : String) (e : ℕ)
    (t : Thread)
    → ThreadIsValid n es acts stops e t
    → ThreadIsValid (n + 1) (set_event (lookup h stops) es) (insert h a acts) (insert h n stops) e t
unfolding member
switch-ThreadIsValid n es acts stops h a e t v = record {
  not_idle = v.not_idle;
  numbered = ground (arith, v.numbered);
  told_or_current = elim v.told_or_current [
    | inl told ↦ inl (set_event-member (lookup h stops) told)
    | inr current ↦ elim (Bool-cases (h == t.host)) [
      | inl same ↦ inl (rw (owner same current.1) (ground (arith, nat_eq.same_iff e e)))
      | inr other ↦ inr (
        ground (arith, lookup-insert h t.host a acts, current.0),
        ground (arith, lookup-insert h t.host n stops, current.1),
      )
    ]
  ];
}
  where
    set_event-member : (o : Option ℕ) → member e es ≡ true → member e (set_event o es) ≡ true
    set_event-member none m = m
    set_event-member (some x) m = ground (arith, m)

    owner : (h == t.host) ≡ true → lookup t.host stops ≡ some e → lookup h stops ≡ some e
    owner same found = ground (arith, string_eq.same_iff h t.host, found)

start_thread-ThreadsAreValid :
    (n : ℕ) (es : List ℕ) (acts : Dict String String) (stops : Dict String ℕ) (h a : String)
    (pool : Dict ℕ Thread)
    → lookup h acts ≡ some a
    → lookup h stops ≡ some n
    → ThreadsAreValid (n + 1) es acts stops pool
    → ThreadsAreValid (n + 1) es acts stops (start_thread n h a pool)
start_thread-ThreadsAreValid n es acts stops h a pool current newest v =
    elim (Bool-cases (is_idle a)) [
      | inl idle ↦ rw idle v
      | inr busy ↦ rw busy (
          insert-ThreadsAreValid (n + 1) es acts stops n
            (record { host = h; activity = a; phase = looping }) pool
            (record {
              not_idle = ground (arith, string_eq.same_iff a "idle");
              numbered = omega arith;
              told_or_current = inr (current, newest);
            })
            v)
    ]

switch_to-IsValid :
    (now : ℕ) (h a : String) (s : State)
    → has_key a activity_profiles ≡ true
    → IsValid s
    → IsValid (switch_to now h a s)
unfolding switch_to
switch_to-IsValid now h a s profiled v = record {
  known = λ k b found. ground (arith, lookup-insert h k a s.activity, v.known k b, profiled, found);
  silent = λ k idle.
      ground
        (arith, lookup-insert h k a s.activity, lookup-insert h k 0 s.traffic, v.silent k, idle);
  events_numbered = λ k e found.
      ground (arith, lookup-insert h k s.next_event s.stop_events, v.events_numbered k e, found);
  threads_valid =
      start_thread-ThreadsAreValid s.next_event (set_event (lookup h s.stop_events) s.set_events)
        (insert h a s.activity) (insert h s.next_event s.stop_events) h a s.pool
        (ground (arith, lookup-insert h h a s.activity, string_eq.same_iff h h))
        (ground (arith, lookup-insert h h s.next_event s.stop_events, string_eq.same_iff h h))
        (λ e t found.
          switch-ThreadIsValid s.next_event s.set_events s.activity s.stop_events h a e t
            (v.threads_valid e t found));
}

write_state-IsValid : (s : State) → IsValid s → IsValid (write_state s)
unfolding write_state
write_state-IsValid s v = record {
  known = v.known;
  silent = v.silent;
  events_numbered = v.events_numbered;
  threads_valid = v.threads_valid;
}

set_activity-IsValid :
    (now : ℕ) (h a : String) (s : State) → IsValid s → IsValid (set_activity now h a s).1
unfolding set_activity
set_activity-IsValid now h a s v = elim (Bool-cases (has_key h user_pcs)) [
  | inr unknown ↦ rw unknown v
  | inl host ↦ elim (Bool-cases (has_key a activity_profiles)) [
    | inr unknown ↦ rw (host, unknown) v
    | inl profiled ↦ elim (Bool-cases (is_value (lookup h s.activity) a)) [
      | inl same ↦ rw (host, profiled, same) v
      | inr other ↦
          rw (host, profiled, other)
            (write_state-IsValid (switch_to now h a s) (switch_to-IsValid now h a s profiled v))
    ]
  ]
]

set_activities-IsValid :
    (now : ℕ) (given : List (String × String)) (s : State)
    → IsValid s
    → IsValid (set_activities now given s).1
unfolding set_activities
set_activities-IsValid now [] s v = v
set_activities-IsValid now ((h, a) ∷ given) s v =
    set_activities-IsValid now given (set_activity now h a s).1 (set_activity-IsValid now h a s v)

idle_all-IsValid :
    (now : ℕ) (hs : List String) (s : State) → IsValid s → IsValid (idle_all now hs s)
unfolding idle_all
idle_all-IsValid now [] s v = v
idle_all-IsValid now (h ∷ hs) s v =
    idle_all-IsValid now hs (set_activity now h "idle" s).1 (set_activity-IsValid now h "idle" s v)

set_event-ThreadsAreValid :
    (n : ℕ) (o : Option ℕ) (es : List ℕ) (acts : Dict String String) (stops : Dict String ℕ)
    (pool : Dict ℕ Thread)
    → ThreadsAreValid n es acts stops pool
    → ThreadsAreValid n (set_event o es) acts stops pool
unfolding member
set_event-ThreadsAreValid n none es acts stops pool v = v
set_event-ThreadsAreValid n (some x) es acts stops pool v = λ e t found. record {
  not_idle = (v e t found).not_idle;
  numbered = (v e t found).numbered;
  told_or_current = elim (v e t found).told_or_current [
    | inl told ↦ inl (ground (arith, told))
    | inr current ↦ inr current
  ];
}

stop_threads-IsValid : (hs : List String) (s : State) → IsValid s → IsValid (stop_threads hs s)
unfolding stop_threads
stop_threads-IsValid [] s v = v
stop_threads-IsValid (h ∷ hs) s v =
    stop_threads-IsValid hs
      (record s { set_events = set_event (lookup h s.stop_events) s.set_events })
      (record {
        known = v.known;
        silent = v.silent;
        events_numbered = v.events_numbered;
        threads_valid =
            set_event-ThreadsAreValid s.next_event (lookup h s.stop_events) s.set_events s.activity
              s.stop_events s.pool v.threads_valid;
      })

stop-IsValid : (s : State) → IsValid s → IsValid (stop s)
unfolding stop
stop-IsValid s v =
    stop_threads-IsValid (keys user_pcs) (record s { running = false })
      (record {
        known = v.known;
        silent = v.silent;
        events_numbered = v.events_numbered;
        threads_valid = v.threads_valid;
      })

capture_baseline-IsValid :
    (now : ℕ) (metrics : Option String) (can_write : Bool) (s : State)
    → IsValid s
    → IsValid (capture_baseline now metrics can_write s).1
unfolding capture_baseline
capture_baseline-IsValid now metrics false s v = v
capture_baseline-IsValid now metrics true s v = record {
  known = v.known;
  silent = v.silent;
  events_numbered = v.events_numbered;
  threads_valid = v.threads_valid;
}

lookup-for_pcs : (h v w : String) (m : Dict String Pc) → lookup h (for_pcs v m) ≡ some w → v ≡ w
unfolding lookup
lookup-for_pcs h v w [] found = absurd (cc)
lookup-for_pcs h v w ((k, p) ∷ m) found = elim (Bool-cases (k == h)) [
  | inl same ↦ ground (arith, found)
  | inr other ↦ lookup-for_pcs h v w m (ground (arith, found))
]

for_pcs-found :
    (h : String) (a : String) (n : ℕ) (m : Dict String Pc)
    → lookup h (for_pcs "idle" m) ≡ some a
    → lookup h (for_pcs n m) ≡ some n
unfolding lookup
for_pcs-found h a n [] found = absurd (cc)
for_pcs-found h a n ((k, p) ∷ m) found = ground (arith, for_pcs-found h a n m, found)

number_pcs-lt :
    (h : String) (e n : ℕ) (m : Dict String Pc)
    → lookup h (number_pcs n m) ≡ some e
    → e < n + length m
unfolding lookup
number_pcs-lt h e n [] found = absurd (cc)
number_pcs-lt h e n ((k, p) ∷ m) found = ground (arith, number_pcs-lt h e (n + 1) m, found)

init-IsValid : (now : ℕ) → IsValid (init now)
unfolding init has_key lookup
init-IsValid now = record {
  known = λ h a found. rw (← lookup-for_pcs h "idle" a user_pcs found) refl;
  silent = λ h idle. for_pcs-found h "idle" 0 user_pcs idle;
  events_numbered = λ h e found. number_pcs-lt h e 0 user_pcs found;
  threads_valid = λ e t found. absurd (cc);
}

-- In every state reached: each PC's activity has a profile; an idle PC shows no traffic; and a
-- thread makes traffic for an activity other than idle and is either told to stop or is its PC's
-- newest thread and runs the PC's current activity.
pub calls_and_steps-IsValid : (s : State) → Reach s → IsValid s
unfolding reset_all set_scenario
calls_and_steps-IsValid _ (start now) = init-IsValid now
calls_and_steps-IsValid _ (step m e s r) = step_thread-IsValid m e s (calls_and_steps-IsValid s r)
calls_and_steps-IsValid _ (activity now h a s r) =
    set_activity-IsValid now h a s (calls_and_steps-IsValid s r)
calls_and_steps-IsValid _ (scenario now name given s r) =
    set_activities-IsValid now (assignments_of (lookup name demo_scenarios) given) s
      (calls_and_steps-IsValid s r)
calls_and_steps-IsValid _ (reset now s r) =
    idle_all-IsValid now (keys user_pcs) s (calls_and_steps-IsValid s r)
calls_and_steps-IsValid _ (baseline now metrics can_write s r) =
    capture_baseline-IsValid now metrics can_write s (calls_and_steps-IsValid s r)
calls_and_steps-IsValid _ (stopped s r) = stop-IsValid s (calls_and_steps-IsValid s r)
calls_and_steps-IsValid _ (written s r) = write_state-IsValid s (calls_and_steps-IsValid s r)
