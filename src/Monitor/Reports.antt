-- ===== src/Monitor/Reports.antt =====
-- tumba_sdn/controller/traffic_monitor.py: what `_update_zone_metrics` reports of a zone, and which
-- readings of a distribution switch count as high.
use ai_driven_software_defin.Base.{
  ℕ, last_n, ◌==◌, Bool, true, false, List, [], ◌∷◌, Dict, String, lookup, insert, member, has_key,
  keys, keep, any, ◌≡◌, ◌↔◌, refl, sym, ap, ◌∙◌, arith, Bool-cases, inl, inr, if◌then◌else◌,
  lookup-insert, nat_beq, nat_beq_iff, pair_beq_iff, pair_eq, string_eq, In, All, All-In,
  member_iff, holds,
}
use ai_driven_software_defin.Monitor.State.{Port, PortStat, TrafficMonitor, ZoneMetrics, zone_dpids}
use ai_driven_software_defin.Monitor.Stats.{port_stats_reply_handler, read_ports, all_recent}
use ai_driven_software_defin.Monitor.Zones.{
  zone_ports, metrics_of, update_zones, update_zone_metrics,
}
use ai_driven_software_defin.Monitor.Invariant.{
  Reach, IsValid, read_ports-IsValid, monitor_Reach-IsValid,
}

any-keep :
    {A : Type 0} (p q : A → Bool) (xs : List A)
    → (any p (keep q xs) ≡ true) ↔ ((x : A) × In x xs × (q x ≡ true) × (p x ≡ true))
any-keep p q [] = (λ h. absurd (cc), λ h. absurd h.1)
any-keep {A} p q (x ∷ xs) =
    let ih = any-keep p q xs in
    let later : ((y : A) × In y xs × (q y ≡ true) × (p y ≡ true)) → any p (keep q (x ∷ xs)) ≡ true =
      λ h. ground (arith, ih.1 h) in
    (
      λ h. elim (Bool-cases (q x)) [
        | inl a ↦ elim (Bool-cases (p x)) [
          | inl b ↦ (x, inl refl, a, b)
          | inr b ↦ let r = ih.0 (ground (arith, h, a, b)) in (r.0, inr r.1, r.2, r.3)
        ]
        | inr a ↦ let r = ih.0 (ground (arith, h, a)) in (r.0, inr r.1, r.2, r.3)
      ],
      λ (y, m, a, b). elim m [
        | inl e ↦ let f = ap q e in let g = ap p e in ground (arith, f, g, a, b)
        | inr m ↦ later (y, m, a, b)
      ],
    )

has_key-keys : (k : Port) (m : Dict Port ℕ) → has_key k m ≡ true → In k (keys m)
unfolding has_key
has_key-keys k [] h = absurd (cc)
has_key-keys k ((j, v) ∷ m) h = elim (Bool-cases (has_key k m)) [
  | inl e ↦ inr (has_key-keys k m e)
  | inr e ↦ inl (ground (arith, pair_beq_iff j k))
]

-- A port that is marked as congested has a rate.
congested_measured :
    (k : Port) (s : TrafficMonitor)
    → IsValid s
    → member k s.congested_ports ≡ true
    → has_key k s.port_mbps ≡ true
unfolding all_recent last_n
congested_measured k s v h = elim (Bool-cases (has_key k s.port_mbps)) [
  | inl e ↦ e
  | inr e ↦
      let bad : true ≡ false = sym h ∙ v.marked k ∙ ap all_recent (v.measured k e) in absurd (cc)
]

metrics_of-congested :
    (zone_dpid : ℕ) (s : TrafficMonitor)
    → IsValid s
    → ((metrics_of zone_dpid s).congested ≡ true)
      ↔ ((port : ℕ) × In (zone_dpid, port) s.congested_ports)
unfolding metrics_of zone_ports
metrics_of-congested zone_dpid s v =
    let found =
      any-keep (λ k. member k s.congested_ports) (λ k. nat_beq k.0 zone_dpid) (keys s.port_mbps) in
    (
      λ h.
          let r = found.0 h in
          (
            r.0.1,
            (member_iff (zone_dpid, r.0.1) s.congested_ports).0 (
                ap (λ d. member (d, r.0.1) s.congested_ports)
                  (sym ((nat_beq_iff r.0.0 zone_dpid).0 r.2))
                ∙ r.3),
          ),
      λ (port, m).
          let marked = (member_iff (zone_dpid, port) s.congested_ports).1 m in
          found.1 (
            (zone_dpid, port),
            has_key-keys (zone_dpid, port) s.port_mbps
                (congested_measured (zone_dpid, port) s v marked),
            (nat_beq_iff zone_dpid zone_dpid).1 refl,
            marked,
          ),
    )

-- The congestion flag of a zone in the metrics.
abbrev pub zone_flag : String → TrafficMonitor → Bool
zone_flag name s = holds (λ m. m.congested) (lookup name s.zone_metrics)

-- A zone's metrics written to the table.
abbrev set_zone : String → ZoneMetrics → TrafficMonitor → TrafficMonitor
set_zone name metrics s = record s { zone_metrics = insert name metrics s.zone_metrics }

set_zone-flag :
    (name other : String) (metrics : ZoneMetrics) (s : TrafficMonitor)
    → zone_flag other (set_zone name metrics s)
      ≡ (if name == other then metrics.congested else zone_flag other s)
set_zone-flag name other metrics s =
    ap (holds (λ m. m.congested)) (lookup-insert name other metrics s.zone_metrics)
    ∙ elim (Bool-cases (name == other)) [ inl e ↦ rw e refl | inr e ↦ rw e refl ]

zone_flags :
    (s : TrafficMonitor)
    → All
        (λ zone. zone_flag zone.0 (update_zone_metrics s) ≡ (metrics_of zone.1 s).congested)
        zone_dpids
unfolding update_zone_metrics update_zones metrics_of zone_ports
zone_flags s =
    let a = set_zone "staff_lan" (metrics_of 4 s) s in
    let b = set_zone "server_zone" (metrics_of 5 a) a in
    let c = set_zone "it_lab" (metrics_of 6 b) b in
    let wifi = λ (name : String). set_zone-flag "student_wifi" name (metrics_of 7 c) c in
    let lab = λ (name : String). set_zone-flag "it_lab" name (metrics_of 6 b) b in
    let server = λ (name : String). set_zone-flag "server_zone" name (metrics_of 5 a) a in
    let staff = λ (name : String). set_zone-flag "staff_lan" name (metrics_of 4 s) s in
    (
      wifi "staff_lan" ∙ lab "staff_lan" ∙ server "staff_lan" ∙ staff "staff_lan",
      (
        wifi "server_zone" ∙ lab "server_zone" ∙ server "server_zone",
        (wifi "it_lab" ∙ lab "it_lab", (wifi "student_wifi", tt)),
      ),
    )

reply_ports :
    (now dpid : ℕ) (body : List PortStat) (s : TrafficMonitor)
    → (port_stats_reply_handler now dpid body s).congested_ports
      ≡ (read_ports now dpid body s).congested_ports
unfolding port_stats_reply_handler update_zone_metrics update_zones
reply_ports now dpid body s = refl

-- After a statistics reply in a state that the monitor reaches, the metrics of a zone say that it
-- is congested exactly if some port of the zone's switch is marked as congested.
pub zone_congested_lem :
    (now dpid : ℕ) (body : List PortStat) (s : TrafficMonitor) (zone : String × ℕ)
    → Reach s
    → In zone zone_dpids
    → (zone_flag zone.0 (port_stats_reply_handler now dpid body s) ≡ true)
      ↔ ((port : ℕ) × In (zone.1, port) (port_stats_reply_handler now dpid body s).congested_ports)
unfolding port_stats_reply_handler update_zone_metrics update_zones
zone_congested_lem now dpid body s zone h m =
    let t = read_ports now dpid body s in
    let v = read_ports-IsValid now dpid body s (monitor_Reach-IsValid s h) in
    let flag =
      All-In (λ z. zone_flag z.0 (update_zone_metrics t) ≡ (metrics_of z.1 t).congested) zone_dpids
        (zone_flags t) m in
    let metrics = metrics_of-congested zone.1 t v in
    (λ f. metrics.0 (sym flag ∙ f), λ p. flag ∙ metrics.1 p)
