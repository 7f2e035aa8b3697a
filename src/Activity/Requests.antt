-- ===== src/Activity/Requests.antt =====
-- tumba_sdn/simulation/pc_activity_manager.py: what the requests `/set_activity`, `/reset_all` and
-- `/set_scenario` answer and what they make of the activities.
use mathlib.Core.Path.{subst}
use ai_driven_software_defin.Base.{
  sym, ap, ◌∙◌, ℕ, ◌≡◌, ◌⊎◌, inl, inr, refl, Bool, true, ◌&&◌, some, List, [], ◌∷◌, String, Dict,
  lookup, has_key, member, keys, all, All, if◌then◌else◌, ◌==◌, Bool-cases, lookup-insert, arith,
  string_eq,
}
use ai_driven_software_defin.Activity.Profiles.{activity_profiles}
use ai_driven_software_defin.Activity.Pcs.{user_pcs, demo_scenarios}
use ai_driven_software_defin.Activity.Manager.{
  State, is_ok, is_value, switch_to, set_activity, set_activities, idle_all, reset_all,
  set_scenario, assignments_of, write_state,
}
use ai_driven_software_defin.Activity.Invariant.{is_value-eq}
use ai_driven_software_defin.Activity.Threads.{Reach, reset}
use ai_driven_software_defin.Activity.Reachable.{calls_and_steps-IsValid}

abbrev pub is_known : String × String → Bool
is_known (h, a) = has_key h user_pcs && has_key a activity_profiles

-- `/set_activity` succeeds exactly for a known PC and a known activity. It then gives the PC this
-- activity; every other PC, and on an error every PC, keeps its own.
pub set_activity_lem :
    (now : ℕ) (h a : String) (s : State)
    → (is_ok (set_activity now h a s).0 ≡ is_known (h, a))
      × ((k : String)
          → lookup k (set_activity now h a s).1.activity
            ≡ (if is_known (h, a) && (h == k) then some a else lookup k s.activity))
unfolding set_activity switch_to write_state
set_activity_lem now h a s = elim (Bool-cases (has_key h user_pcs)) [
  | inr unknown ↦ rw unknown (refl, λ k. refl)
  | inl host ↦ elim (Bool-cases (has_key a activity_profiles)) [
    | inr unknown ↦ rw (host, unknown) (refl, λ k. refl)
    | inl profiled ↦ elim (Bool-cases (is_value (lookup h s.activity) a)) [
      | inl same ↦
          rw (host, profiled, same)
            (
              refl,
              λ k. ground (arith, string_eq.same_iff h k, is_value-eq (lookup h s.activity) a same),
            )
      | inr other ↦ rw (host, profiled, other) (refl, λ k. lookup-insert h k a s.activity)
    ]
  ]
]

idle_has_profile : has_key "idle" activity_profiles ≡ true
unfolding has_key
idle_has_profile = refl

became_idle :
    (now : ℕ) (k : String) (s : State)
    → has_key k user_pcs ≡ true
    → lookup k (set_activity now k "idle" s).1.activity ≡ some "idle"
became_idle now k s known =
    ground (
      arith,
      (set_activity_lem now k "idle" s).1 k,
      idle_has_profile,
      known,
      string_eq.same_iff k k,
    )

idle_all_lem :
    (now : ℕ) (hs : List String) (k : String) (s : State)
    → has_key k user_pcs ≡ true
    → (member k hs ≡ true) ⊎ (lookup k s.activity ≡ some "idle")
    → lookup k (idle_all now hs s).activity ≡ some "idle"
unfolding idle_all member
idle_all_lem now [] k s known (inl m) = absurd (cc)
idle_all_lem now [] k s known (inr idle) = idle
idle_all_lem now (h ∷ hs) k s known (inr idle) =
    idle_all_lem now hs k (set_activity now h "idle" s).1 known
      (inr (ground (arith, (set_activity_lem now h "idle" s).1 k, idle)))
idle_all_lem now (h ∷ hs) k s known (inl m) = elim (Bool-cases (h == k)) [
  | inl same ↦
      let q : h ≡ k = ground (arith, string_eq.same_iff h k) in
      idle_all_lem now hs k (set_activity now h "idle" s).1 known (
        inr (
          subst (λ j. lookup k (set_activity now j "idle" s).1.activity ≡ some "idle") (sym q)
            (became_idle now k s known)))
  | inr other ↦
      idle_all_lem now hs k (set_activity now h "idle" s).1 known (inl (ground (arith, m, other)))
]

keys-member :
    {V : Type 0} (k : String) (m : Dict String V) → has_key k m ≡ true → member k (keys m) ≡ true
unfolding has_key member
keys-member k [] h = h
keys-member k ((j, v) ∷ m) h = ground (arith, keys-member k m, h)

-- After `/reset_all`, in every state reached, every PC is idle and shows no traffic.
pub reset_all_lem :
    (now : ℕ) (k : String) (s : State)
    → Reach s
    → has_key k user_pcs ≡ true
    → (lookup k (reset_all now s).1.activity ≡ some "idle")
      × (lookup k (reset_all now s).1.traffic ≡ some 0)
unfolding reset_all
reset_all_lem now k s r known =
    let idle = idle_all_lem now (keys user_pcs) k s known (inl (keys-member k user_pcs known)) in
    (idle, (calls_and_steps-IsValid (reset_all now s).1 (reset now s r)).silent k idle)

-- The assignments of a request succeed exactly if each names a known PC and a known activity.
set_activities_ok :
    (now : ℕ) (given : List (String × String)) (s : State)
    → all is_ok (set_activities now given s).0 ≡ all is_known given
unfolding set_activities
set_activities_ok now [] s = refl
set_activities_ok now ((h, a) ∷ given) s =
    rw ((set_activity_lem now h a s).0, set_activities_ok now given (set_activity now h a s).1) refl

lookup-All :
    {V : Type 0} (P : V → Type 0) (k : String) (v : V) (m : Dict String V)
    → All (λ e. P e.1) m
    → lookup k m ≡ some v
    → P v
unfolding lookup
lookup-All P k v [] h found = absurd (cc)
lookup-All P k v ((j, w) ∷ m) h found = elim (Bool-cases (j == k)) [
  | inl same ↦ let q : w ≡ v = ground (arith, found) in subst P q h.0
  | inr other ↦ lookup-All P k v m h.1 (ground (arith, found))
]

-- `/set_scenario` succeeds exactly if every assignment, of the named scenario or else of the request,
-- names a known PC and a known activity.
pub set_scenario_ok :
    (now : ℕ) (name : String) (given : List (String × String)) (s : State)
    → (set_scenario now name given s).0.0
      ≡ all is_known (assignments_of (lookup name demo_scenarios) given)
unfolding set_scenario
set_scenario_ok now name given s =
    set_activities_ok now (assignments_of (lookup name demo_scenarios) given) s

demo_scenario_known :
    (name : String) (steps : List (String × String))
    → lookup name demo_scenarios ≡ some steps
    → all is_known steps ≡ true
unfolding has_key
demo_scenario_known name steps found =
    lookup-All (λ v. all is_known v ≡ true) name steps demo_scenarios
      (refl, (refl, (refl, (refl, tt)))) found

-- A demonstration scenario succeeds in every state: its PCs and activities are all known.
pub demo_scenario_succeeds :
    (now : ℕ) (name : String) (steps given : List (String × String)) (s : State)
    → lookup name demo_scenarios ≡ some steps
    → (set_scenario now name given s).0.0 ≡ true
demo_scenario_succeeds now name steps given s found =
    set_scenario_ok now name given s
    ∙ ap (λ o. all is_known (assignments_of o given)) found
    ∙ demo_scenario_known name steps found
