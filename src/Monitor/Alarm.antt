-- ===== src/Monitor/Alarm.antt =====
-- tumba_sdn/controller/traffic_monitor.py: `_check_congestion` against the abstract alarm, which
-- counts the high readings in a row of each port.
use ai_driven_software_defin.Base.{
  member-add, member-discard, ℕ, ◌+◌, Bool, true, false, List, [], ◌∷◌, ◌++◌, lookup, or_else,
  member, last_n, leb, ◌≡◌, refl, sym, ap, ◌∙◌, arith, Bool-cases, inl, inr, if◌then◌else◌,
  lookup-insert, pair_beq, pair_beq_iff, pair_eq,
}
use ai_driven_software_defin.Monitor.State.{Port, Rate, TrafficMonitor, new_monitor}
use ai_driven_software_defin.Monitor.Stats.{
  is_high, all_recent, append_history, set_congested, check_congestion,
}
use ai_driven_software_defin.Monitor.Streak.{
  streak, last_n-snoc, all_recent-streak, all_recent-last_n,
}

-- After the update the port is marked as it was found to be, and no other mark changes.
pub set_congested-member :
    (key k : Port) (found : Bool) (s : TrafficMonitor)
    → member k (set_congested key found s).congested_ports
      ≡ (if pair_beq key k then found else member k s.congested_ports)
unfolding set_congested
set_congested-member key k found s = ground (
  arith,
  pair_beq_iff key k,
  member-add k key s.congested_ports,
  member-discard k key s.congested_ports,
)

-- Nothing but the marks and the log changes.
pub set_congested_frame :
    (key : Port) (found : Bool) (s : TrafficMonitor)
    → set_congested key found s ≡ record s {
      congested_ports = (set_congested key found s).congested_ports;
      events_file = (set_congested key found s).events_file;
    }
unfolding set_congested
set_congested_frame key true s = elim (Bool-cases (member key s.congested_ports)) [
  | inl e ↦ rw e refl
  | inr e ↦ rw e refl
]
set_congested_frame key false s = elim (Bool-cases (member key s.congested_ports)) [
  | inl e ↦ rw e refl
  | inr e ↦ rw e refl
]

-- The history of a port, without those of the others.
abbrev pub history_of : Port → TrafficMonitor → List Bool
history_of key s = or_else (lookup key s.congestion_history) []

append_history_lem :
    (key k : Port) (high : Bool) (s : TrafficMonitor)
    → history_of k (append_history key high s)
      ≡ (if pair_beq key k then last_n 10 (history_of key s ++ (high ∷ [])) else history_of k s)
unfolding append_history
append_history_lem key k high s =
    ground (
      arith,
      lookup-insert key k (last_n 10 (history_of key s ++ (high ∷ []))) s.congestion_history,
    )

check_congestion_lem :
    (key : Port) (r : Rate) (capacity : ℕ) (s : TrafficMonitor)
    → check_congestion key r capacity s
      ≡ set_congested key
          (all_recent (history_of key (append_history key (is_high r capacity) s)))
          (append_history key (is_high r capacity) s)
unfolding check_congestion
check_congestion_lem key r capacity s = refl

pub check_congestion-history :
    (key k : Port) (r : Rate) (capacity : ℕ) (s : TrafficMonitor)
    → history_of k (check_congestion key r capacity s) ≡ (
        if pair_beq key k
        then last_n 10 (history_of key s ++ (is_high r capacity ∷ []))
        else history_of k s)
unfolding check_congestion
check_congestion-history key k r capacity s =
    let t = append_history key (is_high r capacity) s in
    ap (history_of k) (set_congested_frame key (all_recent (history_of key t)) t)
    ∙ append_history_lem key k (is_high r capacity) s

-- The mark of the port is the test on its new history.
pub check_congestion-member :
    (key k : Port) (r : Rate) (capacity : ℕ) (s : TrafficMonitor)
    → member k (check_congestion key r capacity s).congested_ports ≡ (
        if pair_beq key k
        then all_recent (history_of key (check_congestion key r capacity s))
        else member k s.congested_ports)
unfolding append_history
check_congestion-member key k r capacity s =
    let t = append_history key (is_high r capacity) s in
    ap (λ u. member k u.congested_ports) (check_congestion_lem key r capacity s)
    ∙ set_congested-member key k (all_recent (history_of key t)) t
    ∙ ap (λ u. if pair_beq key k then all_recent u else member k s.congested_ports)
        (sym (
          ap (history_of key) (check_congestion_lem key r capacity s)
          ∙ ap (history_of key) (set_congested_frame key (all_recent (history_of key t)) t)))

-- One utilisation reading of a port.
pub record Reading : Type 0 where
  pub key : Port
  pub rate : Rate
  pub capacity : ℕ

unfoldable pub check_all : List Reading → TrafficMonitor → TrafficMonitor
unfolding check_congestion
check_all [] s = s
check_all (r ∷ readings) s = check_all readings (check_congestion r.key r.rate r.capacity s)

-- The abstract alarm: for each port, the number of high readings in a row so far.
abbrev pub observe : Reading → (Port → ℕ) → Port → ℕ
observe r alarm k =
    if pair_beq r.key k then (if is_high r.rate r.capacity then alarm k + 1 else 0) else alarm k

unfoldable pub observe_all : List Reading → (Port → ℕ) → Port → ℕ
observe_all [] alarm = alarm
observe_all (r ∷ readings) alarm = observe_all readings (observe r alarm)

-- The monitor stands for the alarm: each history is the end of all readings of its port, the
-- counter counts them, and the mark is set from three on.
abbrev Refines : (Port → ℕ) → TrafficMonitor → Type 0
Refines alarm s =
    (k : Port)
    → (readings : List Bool) × (history_of k s ≡ last_n 10 readings)
      × (streak 0 readings ≡ alarm k)
      × (member k s.congested_ports ≡ leb 3 (alarm k))

streak-snoc :
    (n : ℕ) (high : Bool) (readings : List Bool)
    → streak n (readings ++ (high ∷ [])) ≡ (if high then streak n readings + 1 else 0)
unfolding streak
streak-snoc n high [] = refl
streak-snoc n high (r ∷ readings) = streak-snoc (if r then n + 1 else 0) high readings

check_congestion-Refines :
    (r : Reading) (alarm : Port → ℕ) (s : TrafficMonitor)
    → Refines alarm s
    → Refines (observe r alarm) (check_congestion r.key r.rate r.capacity s)
check_congestion-Refines r alarm s h k = elim (Bool-cases (pair_beq r.key k)) [
  | inl e ↦
      let high = is_high r.rate r.capacity in
      let more : List Bool = (h k).0 ++ (high ∷ []) in
      let t = check_congestion r.key r.rate r.capacity s in
      let same : r.key ≡ k = (pair_beq_iff r.key k).0 e in
      let history : history_of k t ≡ last_n 10 more =
        check_congestion-history r.key k r.rate r.capacity s
        ∙ rw e (
            ap (λ j. last_n 10 (history_of j s ++ (high ∷ []))) same
            ∙ ap (λ l. last_n 10 (l ++ (high ∷ []))) (h k).1
            ∙ last_n-snoc 10 (h k).0 high) in
      let counted : streak 0 more ≡ observe r alarm k =
        streak-snoc 0 high (h k).0 ∙ rw e (ap (λ n. if high then n + 1 else 0) (h k).2) in
      let marked : member k t.congested_ports ≡ all_recent (history_of r.key t) =
        check_congestion-member r.key k r.rate r.capacity s ∙ rw e refl in
      (
        more,
        history,
        counted,
        marked
            ∙ ap (λ j. all_recent (history_of j t)) same
            ∙ ap all_recent history
            ∙ all_recent-last_n more
            ∙ all_recent-streak more
            ∙ ap (leb 3) counted,
      )
  | inr e ↦ (
    (h k).0,
    check_congestion-history r.key k r.rate r.capacity s ∙ rw e (h k).1,
    rw e (h k).2,
    check_congestion-member r.key k r.rate r.capacity s ∙ rw e (h k).3,
  )
]

check_all-Refines :
    (readings : List Reading) (alarm : Port → ℕ) (s : TrafficMonitor)
    → Refines alarm s
    → Refines (observe_all readings alarm) (check_all readings s)
unfolding check_all observe_all
check_all-Refines [] alarm s h = h
check_all-Refines (r ∷ readings) alarm s h =
    check_all-Refines readings (observe r alarm) (check_congestion r.key r.rate r.capacity s)
      (check_congestion-Refines r alarm s h)

new_monitor-Refines : Refines (λ k. 0) new_monitor
unfolding member lookup streak last_n
new_monitor-Refines k = ([], refl, refl, refl)

-- After any sequence of readings, of any ports in any order, a new monitor has a port marked as
-- congested exactly if the abstract alarm has counted three or more high readings of that port
-- since its last reading that was not high.
pub congested_ports_lem :
    (readings : List Reading) (k : Port)
    → member k (check_all readings new_monitor).congested_ports
      ≡ leb 3 (observe_all readings (λ j. 0) k)
congested_ports_lem readings k =
    (check_all-Refines readings (λ j. 0) new_monitor new_monitor-Refines k).3
