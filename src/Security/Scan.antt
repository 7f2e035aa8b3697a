-- ===== src/Security/Scan.antt =====
-- tumba_sdn/controller/security_module.py, `_check_port_scan`: the window of connections and the
-- set of ports that it counts.
use ai_driven_software_defin.Base.{
  ℕ, ◌+◌, ◌≤◌, ◌≡◌, refl, ap, sym, ◌∙◌, Bool, false, not, ◌||◌, List, [], ◌∷◌, ◌++◌, map, member,
  add, keep, All, All-append, ltb, nat_eq, nat_beq, nat_beq_iff, arith, Bool-cases, inl, inr,
}
use ai_driven_software_defin.Security.Zones.{portscan_window_ms}
use ai_driven_software_defin.Security.Module.{ScanState, port_set, clean_scan, scan_after, no_scan}

-- A list that stands for a set.
abbrev pub Distinct : List ℕ → Type 0
Distinct [] = Unit
Distinct (x ∷ xs) = (member x xs ≡ false) × Distinct xs

member-append_one :
    (q p : ℕ) (xs : List ℕ) → member q (xs ++ (p ∷ [])) ≡ (member q xs || nat_beq p q)
unfolding member
member-append_one q p [] = ground arith
member-append_one q p (x ∷ xs) = ground (arith, member-append_one q p xs)

member-add : (q p : ℕ) (xs : List ℕ) → member q (add p xs) ≡ (nat_beq p q || member q xs)
unfolding add
member-add q p xs = elim (Bool-cases (member p xs)) [
  | inl h ↦ rw h (elim (Bool-cases (nat_beq p q)) [
    | inl e ↦ rw (e, ← (nat_beq_iff p q).0 e) h
    | inr n ↦ rw n refl
  ])
  | inr h ↦ rw (h, member-append_one q p xs) (ground arith)
]

Distinct-append_one :
    (p : ℕ) (xs : List ℕ) → member p xs ≡ false → Distinct xs → Distinct (xs ++ (p ∷ []))
unfolding member
Distinct-append_one p [] h d = (refl, tt)
Distinct-append_one p (x ∷ xs) h d =
    (ground (arith, member-append_one x p xs), Distinct-append_one p xs (ground arith) d.1)

add-Distinct : (p : ℕ) (xs : List ℕ) → Distinct xs → Distinct (add p xs)
unfolding add
add-Distinct p xs d = elim (Bool-cases (member p xs)) [
  | inl h ↦ rw h d
  | inr h ↦ rw h (Distinct-append_one p xs h d)
]

abbrev pub first : ℕ × ℕ → ℕ
first e = e.0

-- The ports of a deque, with repetitions.
abbrev pub ports_of : List (ℕ × ℕ) → List ℕ
ports_of = map first

member-port_set :
    (q : ℕ) (deque : List (ℕ × ℕ)) → member q (port_set deque) ≡ member q (ports_of deque)
unfolding port_set member
member-port_set q [] = refl
member-port_set q ((p, t) ∷ deque) =
    rw (member-add q p (port_set deque)) (rw (member-port_set q deque))

port_set-Distinct : (deque : List (ℕ × ℕ)) → Distinct (port_set deque)
unfolding port_set
port_set-Distinct [] = tt
port_set-Distinct ((p, t) ∷ deque) = add-Distinct p (port_set deque) (port_set-Distinct deque)

-- The set is that of the deque's ports.
pub record ScanIsValid (c : ScanState) : Type 0 where
  pub members : (q : ℕ) → member q c.ports ≡ member q (ports_of c.ts_deque)
  pub distinct : Distinct c.ports

pub no_scan-IsValid : ScanIsValid no_scan
unfolding member
no_scan-IsValid = record { members = λ q. refl; distinct = tt }

clean_scan-IsValid :
    (now : ℕ) (deque : List (ℕ × ℕ)) (ports : List ℕ) (alerted : Bool)
    → ScanIsValid (record { ports = ports; ts_deque = deque; alerted = alerted })
    → ScanIsValid (clean_scan now deque ports alerted)
unfolding clean_scan
clean_scan-IsValid now [] ports alerted v = record { members = v.members; distinct = v.distinct }
clean_scan-IsValid now ((p, t) ∷ deque) ports alerted v =
    elim (Bool-cases (ltb (t + portscan_window_ms) now)) [
      | inl old ↦
          rw (old, clean_scan)
            (clean_scan-IsValid now deque (port_set deque) alerted (record {
              members = λ q. member-port_set q deque;
              distinct = port_set-Distinct deque;
            }))
      | inr new ↦ rw (new, clean_scan) (record { members = v.members; distinct = v.distinct })
    ]

ports_of-append_one :
    (deque : List (ℕ × ℕ)) (p t : ℕ)
    → ports_of (deque ++ ((p, t) ∷ [])) ≡ ports_of deque ++ (p ∷ [])
ports_of-append_one [] p t = refl
ports_of-append_one (e ∷ deque) p t = rw (ports_of-append_one deque p t)

-- After one more connection the counted ports are again, each once, those of the window.
pub scan_after-IsValid :
    (now dst_port : ℕ) (c : ScanState) → ScanIsValid c → ScanIsValid (scan_after now dst_port c)
unfolding scan_after
scan_after-IsValid now dst_port c v =
    clean_scan-IsValid now (c.ts_deque ++ ((dst_port, now) ∷ [])) (add dst_port c.ports) c.alerted
      (record {
        members = λ q.
            member-add q dst_port c.ports
            ∙ (rw (ports_of-append_one c.ts_deque dst_port now) (
                rw (member-append_one q dst_port (ports_of c.ts_deque), v.members q)
                  (ground arith)));
        distinct = add-Distinct dst_port c.ports v.distinct;
      })

clean_alerted :
    (now : ℕ) (deque : List (ℕ × ℕ)) (ports : List ℕ) (alerted : Bool)
    → (clean_scan now deque ports alerted).alerted ≡ alerted
unfolding clean_scan
clean_alerted now [] ports alerted = refl
clean_alerted now ((p, t) ∷ deque) ports alerted =
    elim (Bool-cases (ltb (t + portscan_window_ms) now)) [
      | inl old ↦ rw (old, clean_scan) (clean_alerted now deque (port_set deque) alerted)
      | inr new ↦ rw (new, clean_scan) refl
    ]

pub scan_after_alerted :
    (now dst_port : ℕ) (c : ScanState) → (scan_after now dst_port c).alerted ≡ c.alerted
unfolding scan_after
scan_after_alerted now dst_port c =
    clean_alerted now (c.ts_deque ++ ((dst_port, now) ∷ [])) (add dst_port c.ports) c.alerted

-- The times of a deque do not fall, and none is after `now`.
abbrev pub IsOrdered : ℕ → List (ℕ × ℕ) → Type 0
IsOrdered now [] = Unit
IsOrdered now (e ∷ deque) = (e.1 ≤ now) × All (λ (f : ℕ × ℕ). e.1 ≤ f.1) deque × IsOrdered now deque

-- A connection of the last ten seconds.
abbrev pub is_recent : ℕ → ℕ × ℕ → Bool
is_recent now e = not (ltb (e.1 + portscan_window_ms) now)

keep_unchanged :
    (now t : ℕ) (deque : List (ℕ × ℕ))
    → ltb (t + portscan_window_ms) now ≡ false
    → All (λ (f : ℕ × ℕ). t ≤ f.1) deque
    → keep (is_recent now) deque ≡ deque
keep_unchanged now t [] h a = refl
keep_unchanged now t ((p, u) ∷ deque) h a =
    let r : ltb (u + portscan_window_ms) now ≡ false = ground arith in
    rw r (ap (λ (l : List (ℕ × ℕ)). (p, u) ∷ l) (keep_unchanged now t deque h a.1))

clean_scan-keep :
    (now : ℕ) (deque : List (ℕ × ℕ)) (ports : List ℕ) (alerted : Bool)
    → IsOrdered now deque
    → (clean_scan now deque ports alerted).ts_deque ≡ keep (is_recent now) deque
unfolding clean_scan
clean_scan-keep now [] ports alerted o = refl
clean_scan-keep now ((p, t) ∷ deque) ports alerted o =
    elim (Bool-cases (ltb (t + portscan_window_ms) now)) [
      | inl old ↦ rw (old, clean_scan) (clean_scan-keep now deque (port_set deque) alerted o.2)
      | inr new ↦
          rw (new, clean_scan)
            (ap (λ (l : List (ℕ × ℕ)). (p, t) ∷ l) (sym (keep_unchanged now t deque new o.1)))
    ]

IsOrdered-append :
    (now p t : ℕ) (deque : List (ℕ × ℕ))
    → t ≤ now
    → IsOrdered t deque
    → IsOrdered now (deque ++ ((p, t) ∷ []))
IsOrdered-append now p t [] h o = (h, tt, tt)
IsOrdered-append now p t (e ∷ deque) h o = (
  omega arith,
  All-append (λ (f : ℕ × ℕ). e.1 ≤ f.1) deque ((p, t) ∷ []) o.1 (o.0, tt),
  IsOrdered-append now p t deque h o.2,
)

deque_kept :
    (now dst_port : ℕ) (c : ScanState)
    → IsOrdered now c.ts_deque
    → (scan_after now dst_port c).ts_deque
      ≡ keep (is_recent now) (c.ts_deque ++ ((dst_port, now) ∷ []))
unfolding scan_after
deque_kept now dst_port c o =
    clean_scan-keep now (c.ts_deque ++ ((dst_port, now) ∷ [])) (add dst_port c.ports) c.alerted
      (IsOrdered-append now dst_port now c.ts_deque (omega arith) o)

-- On an entry whose ports are those of its deque, with times in order and up to `now`: popping old
-- connections from the front keeps exactly those of the last ten seconds, the new one among them,
-- and a port is counted exactly if one of these connections went to it, once each.
pub scan_after-window :
    (now dst_port : ℕ) (c : ScanState)
    → ScanIsValid c
    → IsOrdered now c.ts_deque
    → let kept = keep (is_recent now) (c.ts_deque ++ ((dst_port, now) ∷ [])) in
      ((scan_after now dst_port c).ts_deque ≡ kept)
      × ((q : ℕ) → member q (scan_after now dst_port c).ports ≡ member q (ports_of kept))
      × Distinct (scan_after now dst_port c).ports
scan_after-window now dst_port c v o =
    let e = deque_kept now dst_port c o in
    let v' = scan_after-IsValid now dst_port c v in
    (e, λ q. v'.members q ∙ ap (λ (l : List (ℕ × ℕ)). member q (ports_of l)) e, v'.distinct)
