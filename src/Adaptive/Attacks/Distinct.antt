-- ===== src/Adaptive/Attacks/Distinct.antt =====
-- examples/campus_controller.py: which contacts `_check_port_scan` takes for a scan.
use ai_driven_software_defin.Base.{
  leb→le, leb_false→lt, ℕ, ◌+◌, ◌≤◌, ◌<◌, true, false, none, List, [], ◌∷◌, String, lookup, insert,
  erase, or_else, add, member, length, leb, nat_beq, nat_eq, string_eq, ◌≡◌, ◌⊎◌, refl, sym, ap,
  ◌∙◌, arith, Bool-cases, inl, inr, if◌then◌else◌, if-both, lookup-insert_self, lookup-erase,
  eq_self, length-append,
}
use ai_driven_software_defin.Adaptive.State.{ScanEntry, CampusController, add_flow, append_event}
use ai_driven_software_defin.Adaptive.Attacks.Scans.{
  new_entry, contact, is_scan, blocked_until, record_contact, check_port_scan,
  install_portscan_drop, drop_on_others, scan_drop, portscan_block,
}

-- The contacts of one source at one switch, each a time and a port.
unfoldable pub run_contacts : List (ℕ × ℕ) → String → ℕ → CampusController → CampusController
unfolding check_port_scan
run_contacts [] src_ip dpid s = s
run_contacts ((now, dst_port) ∷ contacts) src_ip dpid s =
    run_contacts contacts src_ip dpid (check_port_scan now src_ip dst_port dpid s)

-- The different ports of the contacts, the times left out.
unfoldable pub distinct_ports : List (ℕ × ℕ) → List ℕ → List ℕ
unfolding add
distinct_ports [] seen = seen
distinct_ports ((now, dst_port) ∷ contacts) seen = distinct_ports contacts (add dst_port seen)

abbrev pub entry_of : String → CampusController → ScanEntry
entry_of src_ip s = or_else (lookup src_ip s.portscan_state) new_entry

drop_on_others_frame :
    (here : ℕ) (src_ip : String) (dpids : List ℕ) (s : CampusController)
    → ((drop_on_others here src_ip dpids s).portscan_state ≡ s.portscan_state)
      × ((drop_on_others here src_ip dpids s).portscan_block_ips ≡ s.portscan_block_ips)
unfolding drop_on_others add_flow
drop_on_others_frame here src_ip [] s = (refl, refl)
drop_on_others_frame here src_ip (d ∷ dpids) s =
    let frame = λ (u : CampusController).
      (u.portscan_state ≡ s.portscan_state) × (u.portscan_block_ips ≡ s.portscan_block_ips) in
    let t : CampusController = if nat_beq d here then s else add_flow d (scan_drop src_ip) s in
    let ih = drop_on_others_frame here src_ip dpids t in
    let h : frame t =
      if-both frame (nat_beq d here) s (add_flow d (scan_drop src_ip) s) (λ e. (refl, refl))
        (λ e. (refl, refl)) in
    (ih.0 ∙ h.0, ih.1 ∙ h.1)

length-add_le : (p : ℕ) (seen : List ℕ) → length seen ≤ length (add p seen)
unfolding add
length-add_le p seen = elim (Bool-cases (member p seen)) [
  | inl e ↦ rw e (omega arith)
  | inr e ↦ rw e (omega (arith, length-append seen (p ∷ [])))
]

-- A source that is not yet taken for a scanner: all its ports are in its entry. One that is stays so.
abbrev IsTracked : String → List ℕ → CampusController → Type 0
IsTracked src_ip seen s =
    (((entry_of src_ip s).alerted ≡ false)
      × ((entry_of src_ip s).ports ≡ seen)
      × (lookup src_ip s.portscan_block_ips ≡ none)
      × (length seen < 30))
    ⊎ (((entry_of src_ip s).alerted ≡ true) × (30 ≤ length seen))

record-detected :
    (now : ℕ) (src_ip : String) (dst_port dpid : ℕ) (s : CampusController)
    → is_scan (contact now dst_port (entry_of src_ip s)) ≡ true
    → (entry_of src_ip (record_contact now src_ip dst_port dpid s)).alerted ≡ true
unfolding record_contact append_event install_portscan_drop add_flow
record-detected now src_ip dst_port dpid s h =
    let entry : ScanEntry = record (contact now dst_port (entry_of src_ip s)) { alerted = true } in
    let t : CampusController = record s {
      portscan_state = insert src_ip entry s.portscan_state;
      portscan_block_ips = insert src_ip (now + portscan_block) s.portscan_block_ips;
    } in
    let frame = drop_on_others_frame dpid src_ip t.datapaths (add_flow dpid (scan_drop src_ip) t) in
    rw h (
      ap (λ m. (or_else (lookup src_ip m) new_entry).alerted) frame.0
      ∙ ap (λ o. (or_else o new_entry).alerted) (lookup-insert_self src_ip entry s.portscan_state))

record-undetected :
    (now : ℕ) (src_ip : String) (dst_port dpid : ℕ) (s : CampusController)
    → is_scan (contact now dst_port (entry_of src_ip s)) ≡ false
    → (entry_of src_ip (record_contact now src_ip dst_port dpid s)
        ≡ contact now dst_port (entry_of src_ip s))
      × ((record_contact now src_ip dst_port dpid s).portscan_block_ips ≡ s.portscan_block_ips)
unfolding record_contact
record-undetected now src_ip dst_port dpid s h =
    let entry = contact now dst_port (entry_of src_ip s) in
    rw h (ap (λ o. or_else o new_entry) (lookup-insert_self src_ip entry s.portscan_state), refl)

contact_lem :
    (now dst_port : ℕ) (entry : ScanEntry)
    → ((contact now dst_port entry).ports ≡ add dst_port entry.ports)
      × ((contact now dst_port entry).alerted ≡ entry.alerted)
unfolding contact
contact_lem now dst_port entry = (refl, refl)

-- An entry that is not alerted is a scan if it has 30 ports.
is_scan_lem :
    (entry : ScanEntry) → entry.alerted ≡ false → is_scan entry ≡ leb 30 (length entry.ports)
unfolding is_scan
is_scan_lem entry h = ground (arith, h)

record-IsTracked :
    (now : ℕ) (src_ip : String) (dst_port dpid : ℕ) (seen : List ℕ) (s : CampusController)
    → IsTracked src_ip seen s
    → IsTracked src_ip (add dst_port seen) (record_contact now src_ip dst_port dpid s)
record-IsTracked now src_ip dst_port dpid seen s (inl (a, p, b, l)) =
    let entry = contact now dst_port (entry_of src_ip s) in
    let c = contact_lem now dst_port (entry_of src_ip s) in
    let ports : entry.ports ≡ add dst_port seen = c.0 ∙ ap (add dst_port) p in
    let count : is_scan entry ≡ leb 30 (length (add dst_port seen)) =
      is_scan_lem entry (c.1 ∙ a) ∙ ap (λ l. leb 30 (length l)) ports in
    elim (Bool-cases (is_scan entry)) [
      | inl e ↦ inr (
        record-detected now src_ip dst_port dpid s e,
        leb→le 30 (length (add dst_port seen)) (sym count ∙ e),
      )
      | inr e ↦
          let u = record-undetected now src_ip dst_port dpid s e in
          inl (
            ap (λ t. t.alerted) u.0 ∙ c.1 ∙ a,
            ap (λ t. t.ports) u.0 ∙ ports,
            ap (lookup src_ip) u.1 ∙ b,
            leb_false→lt 30 (length (add dst_port seen)) (sym count ∙ e),
          )
    ]
record-IsTracked now src_ip dst_port dpid seen s (inr (a, l)) =
    let entry = contact now dst_port (entry_of src_ip s) in
    let c = contact_lem now dst_port (entry_of src_ip s) in
    let more = length-add_le dst_port seen in
    elim (Bool-cases (is_scan entry)) [
      | inl e ↦ inr (record-detected now src_ip dst_port dpid s e, omega arith)
      | inr e ↦
          let u = record-undetected now src_ip dst_port dpid s e in
          inr (ap (λ t. t.alerted) u.0 ∙ c.1 ∙ a, omega arith)
    ]

check-IsTracked :
    (now : ℕ) (src_ip : String) (dst_port dpid : ℕ) (seen : List ℕ) (s : CampusController)
    → IsTracked src_ip seen s
    → IsTracked src_ip (add dst_port seen) (check_port_scan now src_ip dst_port dpid s)
unfolding check_port_scan
check-IsTracked now src_ip dst_port dpid seen s h =
    let t : CampusController = record s {
      portscan_block_ips = erase src_ip s.portscan_block_ips;
    } in
    let cleared : lookup src_ip t.portscan_block_ips ≡ none =
      lookup-erase src_ip src_ip s.portscan_block_ips ∙ rw (eq_self src_ip) refl in
    let tracked : IsTracked src_ip seen t = elim h [
      | inl (a, p, b, l) ↦ inl (a, p, cleared, l)
      | inr r ↦ inr r
    ] in
    if-both (IsTracked src_ip (add dst_port seen))
      (blocked_until (lookup src_ip s.portscan_block_ips) now) s
      (record_contact now src_ip dst_port dpid t)
      (λ e. elim h [
        | inl (a, p, b, l) ↦ absurd (ground (arith, e, b))
        | inr (a, l) ↦ inr (a, omega (arith, length-add_le dst_port seen))
      ])
      (λ e. record-IsTracked now src_ip dst_port dpid seen t tracked)

run-IsTracked :
    (contacts : List (ℕ × ℕ)) (src_ip : String) (dpid : ℕ) (seen : List ℕ) (s : CampusController)
    → IsTracked src_ip seen s
    → IsTracked src_ip (distinct_ports contacts seen) (run_contacts contacts src_ip dpid s)
unfolding run_contacts distinct_ports
run-IsTracked [] src_ip dpid seen s h = h
run-IsTracked ((now, dst_port) ∷ contacts) src_ip dpid seen s h =
    run-IsTracked contacts src_ip dpid (add dst_port seen)
      (check_port_scan now src_ip dst_port dpid s)
      (check-IsTracked now src_ip dst_port dpid seen s h)

-- A source that the controller has not met is taken for a scanner after some contacts exactly if
-- the contacts have 30 different ports or more, whatever the times of the contacts are: the window
-- of ten seconds plays no part.
pub run_contacts-alerted :
    (contacts : List (ℕ × ℕ)) (src_ip : String) (dpid : ℕ) (s : CampusController)
    → lookup src_ip s.portscan_state ≡ none
    → lookup src_ip s.portscan_block_ips ≡ none
    → (entry_of src_ip (run_contacts contacts src_ip dpid s)).alerted
      ≡ leb 30 (length (distinct_ports contacts []))
run_contacts-alerted contacts src_ip dpid s fresh free =
    let begun : IsTracked src_ip [] s = inl (
      ap (λ o. (or_else o new_entry).alerted) fresh,
      ap (λ o. (or_else o new_entry).ports) fresh,
      free,
      omega arith,
    ) in
    elim (run-IsTracked contacts src_ip dpid [] s begun) [
      | inl (a, p, b, l) ↦ ground (arith, a, l)
      | inr (a, l) ↦ ground (arith, a, l)
    ]
