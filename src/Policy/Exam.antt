-- ===== src/Policy/Exam.antt =====
-- tumba_sdn/controller/policy_engine.py, `update_exam_mode`: what it leaves in a switch's table.
use ai_driven_software_defin.Base.{
  ℕ, ◌≤◌, ◌≡◌, refl, true, false, some, [], ◌∷◌, ◌++◌, lookup, or_else, In-append, In-append_right,
  All-In, inl, inr, arith, lookup-insert_self,
}
use ai_driven_software_defin.OpenFlow.{FlowMod, Packet, Switch, matches, output, set_queue, normal}
use ai_driven_software_defin.OpenFlow.Lookup.{select_decided}
use ai_driven_software_defin.Policy.Rules.{exam_rule}
use ai_driven_software_defin.Policy.Install.{PolicyEngine, update_exam_mode, sent_to}
use ai_driven_software_defin.Policy.Table.{policy_table, policy_table-All}

-- Enabling appends the examination rule; disabling sends nothing.
pub sent_to-update_exam_mode :
    (e : PolicyEngine) (dpid : ℕ)
    → (sent_to (update_exam_mode dpid true e) dpid ≡ sent_to e dpid ++ (exam_rule ∷ []))
      × (sent_to (update_exam_mode dpid false e) dpid ≡ sent_to e dpid)
unfolding update_exam_mode sent_to
sent_to-update_exam_mode e dpid = (
  rw (lookup-insert_self dpid (or_else (lookup dpid e.sent) [] ++ (exam_rule ∷ [])) e.sent),
  refl,
)

-- On a switch that holds the policy table, enabling and then disabling the examination mode leaves
-- examination traffic (the packets that the examination rule matches) forwarded through queue 0:
-- the disabling takes nothing back.
pub exam_mode_persists :
    (sw : Switch) (e : PolicyEngine) (dpid : ℕ) (p : Packet)
    → sent_to e dpid ≡ policy_table e.config
    → matches sw.mask_with exam_rule.match p ≡ true
    → (t : FlowMod) × (sw.select
          (sent_to (update_exam_mode dpid false (update_exam_mode dpid true e)) dpid)
          p
        ≡ some t)
      × (t.actions ≡ set_queue 0 ∷ output normal ∷ [])
exam_mode_persists sw e dpid p held hit =
    rw ((sent_to-update_exam_mode (update_exam_mode dpid true e) dpid).1) (
      rw ((sent_to-update_exam_mode e dpid).0, held)
        (let Low : FlowMod → Type 0 = λ r. r.priority ≤ 300 in
          select_decided sw (λ t. t.actions ≡ exam_rule.actions)
            (policy_table e.config ++ (exam_rule ∷ [])) p exam_rule
            (In-append_right (policy_table e.config) (exam_rule ∷ []) exam_rule (inl refl)) hit
            (λ s i y le. elim (In-append (policy_table e.config) (exam_rule ∷ []) s i) [
              | inl j ↦
                  let low : s.priority ≤ 300 =
                    All-In Low (policy_table e.config) {a = s}
                      (policy_table-All Low e.config (λ a b. omega arith)
                        (λ f a b port j u v w. omega arith) (λ f a b j u v. omega arith)
                        (λ a b j. omega arith) (omega arith) (omega arith)
                        (λ nw queue. omega arith))
                      j in
                  absurd (omega arith)
              | inr (inl q) ↦ rw (← q) refl
              | inr (inr n) ↦ absurd n
            ])))
