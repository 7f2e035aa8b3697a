-- ===== src/Activity/Invariant.antt =====
-- tumba_sdn/simulation/pc_activity_manager.py: what holds of the activities, the traffic and the
-- threads in every state that calls and steps of the threads reach.
use mathlib.Core.Path.{subst}
use ai_driven_software_defin.Base.{
  ℕ, ◌<◌, ◌≡◌, ◌≢◌, ◌⊎◌, inl, inr, true, Option, none, some, List, String, Dict, lookup, insert,
  has_key, member, if◌then◌else◌, ◌==◌, Bool-cases, Option-cases, lookup-insert, arith, nat_eq,
  string_eq,
}
use ai_driven_software_defin.Activity.Profiles.{activity_profiles}
use ai_driven_software_defin.Activity.Manager.{
  Phase, looping, checking, measuring, leaving, finished, recording, Thread, State, is_value,
}
use ai_driven_software_defin.Activity.Threads.{at_phase, record_traffic, advance, step_thread}

-- A thread makes traffic for an activity other than idle, and either it is told to stop, or it is
-- its PC's newest thread and runs the PC's activity. The arguments are the next number, the events
-- that are set, the activities and the PCs' events.
pub record ThreadIsValid (n : ℕ) (set_events : List ℕ) (acts : Dict String String)
    (stops : Dict String ℕ) (e : ℕ) (t : Thread) : Type 0 where
  pub not_idle : t.activity ≢ "idle"
  pub numbered : e < n
  pub told_or_current :
      (member e set_events ≡ true)
      ⊎ ((lookup t.host acts ≡ some t.activity) × (lookup t.host stops ≡ some e))

abbrev pub ThreadsAreValid :
    ℕ → List ℕ → Dict String String → Dict String ℕ → Dict ℕ Thread → Type 0
ThreadsAreValid n set_events acts stops pool =
    (e : ℕ) (t : Thread) → lookup e pool ≡ some t → ThreadIsValid n set_events acts stops e t

pub record IsValid (s : State) : Type 0 where
  pub known : (h a : String) → lookup h s.activity ≡ some a → has_key a activity_profiles ≡ true
  pub silent : (h : String) → lookup h s.activity ≡ some "idle" → lookup h s.traffic ≡ some 0
  pub events_numbered : (h : String) (e : ℕ) → lookup h s.stop_events ≡ some e → e < s.next_event
  pub threads_valid : ThreadsAreValid s.next_event s.set_events s.activity s.stop_events s.pool

pub is_value-eq : (o : Option String) (a : String) → is_value o a ≡ true → o ≡ some a
is_value-eq none a h = absurd (cc)
is_value-eq (some b) a h = ground (arith, string_eq.same_iff b a)

is_value_of : (o : Option String) (a : String) → o ≡ some a → is_value o a ≡ true
is_value_of none a h = absurd (cc)
is_value_of (some b) a h = ground (arith, string_eq.same_iff b a)

-- A thread put into the pool in place of another, or as a new one.
pub insert-ThreadsAreValid :
    (n : ℕ) (es : List ℕ) (acts : Dict String String) (stops : Dict String ℕ) (e : ℕ) (t : Thread)
    (pool : Dict ℕ Thread)
    → ThreadIsValid n es acts stops e t
    → ThreadsAreValid n es acts stops pool
    → ThreadsAreValid n es acts stops (insert e t pool)
insert-ThreadsAreValid n es acts stops e t pool tv v e' t' found = elim (Bool-cases (e == e')) [
  | inl same ↦
      let q : e ≡ e' = ground (arith, nat_eq.same_iff e e') in
      let r : t ≡ t' = ground (arith, lookup-insert e e' t pool) in
      subst (λ x. ThreadIsValid n es acts stops x t') q
        (subst (ThreadIsValid n es acts stops e) r tv)
  | inr other ↦ v e' t' (ground (arith, lookup-insert e e' t pool))
]

-- A new phase of a thread keeps the invariant.
at_phase-IsValid :
    (e : ℕ) (t : Thread) (p : Phase) (s : State)
    → ThreadIsValid s.next_event s.set_events s.activity s.stop_events e t
    → IsValid s
    → IsValid (at_phase e t p s)
at_phase-IsValid e t p s tv v = record {
  known = v.known;
  silent = v.silent;
  events_numbered = v.events_numbered;
  threads_valid =
      insert-ThreadsAreValid s.next_event s.set_events s.activity s.stop_events e
        (record t { phase = p }) s.pool
        (record {
          not_idle = tv.not_idle;
          numbered = tv.numbered;
          told_or_current = tv.told_or_current;
        })
        v.threads_valid;
}

-- A thread records traffic for a PC that is not idle.
record_traffic-IsValid :
    (h a : String) (m : ℕ) (s : State)
    → lookup h s.activity ≡ some a
    → a ≢ "idle"
    → IsValid s
    → IsValid (record_traffic h m s)
record_traffic-IsValid h a m s current busy v = record {
  known = v.known;
  silent = λ k idle.
      ground (arith, lookup-insert h k m s.traffic, string_eq.same_iff h k, v.silent k idle);
  events_numbered = v.events_numbered;
  threads_valid = v.threads_valid;
}

quiet-IsValid :
    (h : String) (s : State) → IsValid s → IsValid (record s { traffic = insert h 0 s.traffic })
quiet-IsValid h s v = record {
  known = v.known;
  silent = λ k idle. ground (arith, lookup-insert h k 0 s.traffic, v.silent k idle);
  events_numbered = v.events_numbered;
  threads_valid = v.threads_valid;
}

recording-IsValid :
    (e : ℕ) (t : Thread) (r : ℕ) (s : State)
    → ThreadIsValid s.next_event s.set_events s.activity s.stop_events e t
    → IsValid s
    → IsValid (
        at_phase e t looping
          (if is_value (lookup t.host s.activity) t.activity then record_traffic t.host r s else s))
recording-IsValid e t r s tv v =
    elim (Bool-cases (is_value (lookup t.host s.activity) t.activity)) [
      | inl current ↦ rw current (
          at_phase-IsValid e t looping (record_traffic t.host r s) tv (
            record_traffic-IsValid t.host t.activity r s
              (is_value-eq (lookup t.host s.activity) t.activity current) tv.not_idle v))
      | inr other ↦ rw other (at_phase-IsValid e t looping s tv v)
    ]

leaving-IsValid :
    (e : ℕ) (t : Thread) (s : State)
    → ThreadIsValid s.next_event s.set_events s.activity s.stop_events e t
    → IsValid s
    → IsValid (
        at_phase e t finished (
          if is_value (lookup t.host s.activity) "idle"
          then record s { traffic = insert t.host 0 s.traffic }
          else s))
leaving-IsValid e t s tv v = elim (Bool-cases (is_value (lookup t.host s.activity) "idle")) [
  | inl idle ↦ rw idle (
      at_phase-IsValid e t finished (record s { traffic = insert t.host 0 s.traffic }) tv
        (quiet-IsValid t.host s v))
  | inr other ↦ rw other (at_phase-IsValid e t finished s tv v)
]

advance-IsValid :
    (m e : ℕ) (t : Thread) (p : Phase) (s : State)
    → ThreadIsValid s.next_event s.set_events s.activity s.stop_events e t
    → IsValid s
    → IsValid (advance m e t p s)
unfolding advance
advance-IsValid m e t looping s tv v = at_phase-IsValid e t _ s tv v
advance-IsValid m e t checking s tv v = at_phase-IsValid e t _ s tv v
advance-IsValid m e t measuring s tv v = at_phase-IsValid e t (recording m) s tv v
advance-IsValid m e t (recording r) s tv v = recording-IsValid e t r s tv v
advance-IsValid m e t leaving s tv v = leaving-IsValid e t s tv v
advance-IsValid m e t finished s tv v = v

pub step_thread-IsValid : (m e : ℕ) (s : State) → IsValid s → IsValid (step_thread m e s)
unfolding step_thread
step_thread-IsValid m e s v = elim (Option-cases (lookup e s.pool)) [
  | inl missing ↦ rw missing v
  | inr (t, found) ↦ rw found (advance-IsValid m e t t.phase s (v.threads_valid e t found) v)
]
