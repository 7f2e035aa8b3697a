-- ===== src/Controller/Growth.antt =====
-- tumba_sdn/controller/main_controller.py: which rules a switch gets, whatever the order of the calls.
use ai_driven_software_defin.Base.{
  ℕ, ◌+◌, ◌≤◌, ◌≡◌, refl, sym, ap, ◌∙◌, Option, List, [], ◌∷◌, ◌++◌, All, All-append, ◌==◌, nat_eq,
  string_eq, if◌then◌else◌, arith,
}
use ai_driven_software_defin.OpenFlow.{Match, FlowMod, Action, flow_mod}
use ai_driven_software_defin.Controller.Switching.{
  Message, flow, packet_out, CampusController, add_flow,
}

-- A rule is at most as high as the block of the student Wi-Fi, and drops if it is as high.
abbrev pub RuleIsLow : FlowMod → Type 0
RuleIsLow r = (r.priority ≤ 300) × (300 ≤ r.priority → r.actions ≡ [])

abbrev pub MessageIsLow : ℕ × Message → Type 0
MessageIsLow (dpid, flow r) = RuleIsLow r
MessageIsLow (dpid, packet_out buffer in_port actions has_data) = Unit

-- The number of rules among the messages.
unfoldable pub count_flows : List (ℕ × Message) → ℕ
count_flows [] = 0
count_flows ((dpid, flow r) ∷ ms) = count_flows ms + 1
count_flows ((dpid, packet_out buffer in_port actions has_data) ∷ ms) = count_flows ms

-- The rules that a switch was sent.
unfoldable pub table_of : ℕ → List (ℕ × Message) → List FlowMod
table_of dpid [] = []
table_of dpid ((d, flow r) ∷ ms) =
    let rest = table_of dpid ms in if d == dpid then r ∷ rest else rest
table_of dpid ((d, packet_out buffer in_port actions has_data) ∷ ms) = table_of dpid ms

-- From one state to another, only low rules were sent, and all of them counted.
pub record Grows (s t : CampusController) : Type 0 where
  pub more : List (ℕ × Message)
  pub sent_more : t.sent ≡ s.sent ++ more
  pub low : All MessageIsLow more
  pub counted : t.flow_count ≡ s.flow_count + count_flows more

append_nil : (ms : List (ℕ × Message)) → ms ++ [] ≡ ms
append_nil [] = refl
append_nil (m ∷ ms) = ap (λ (l : List (ℕ × Message)). m ∷ l) (append_nil ms)

pub append_assoc : (a b c : List (ℕ × Message)) → (a ++ b) ++ c ≡ a ++ (b ++ c)
append_assoc [] b c = refl
append_assoc (m ∷ a) b c = ap (λ (l : List (ℕ × Message)). m ∷ l) (append_assoc a b c)

count_flows-append :
    (a b : List (ℕ × Message)) → count_flows (a ++ b) ≡ count_flows a + count_flows b
unfolding count_flows
count_flows-append [] b = omega arith
count_flows-append ((d, flow r) ∷ a) b = omega (arith, count_flows-append a b)
count_flows-append ((d, packet_out buffer in_port actions has_data) ∷ a) b = count_flows-append a b

pub same-Grows :
    (s t : CampusController) → t.sent ≡ s.sent → t.flow_count ≡ s.flow_count → Grows s t
unfolding count_flows
same-Grows s t sent count = record {
  more = [];
  sent_more = sent ∙ sym (append_nil s.sent);
  low = tt;
  counted = omega (arith, count);
}

pub trans-Grows : (s t u : CampusController) → Grows s t → Grows t u → Grows s u
trans-Grows s t u g h = record {
  more = g.more ++ h.more;
  sent_more =
      h.sent_more
      ∙ ap (λ (l : List (ℕ × Message)). l ++ h.more) g.sent_more
      ∙ append_assoc s.sent g.more h.more;
  low = All-append MessageIsLow g.more h.more g.low h.low;
  counted = omega (arith, g.counted, h.counted, count_flows-append g.more h.more);
}

pub add_flow-Grows :
    (dpid priority : ℕ) (match : Match) (actions : List Action) (buffer : Option ℕ)
    (s : CampusController)
    → priority ≤ 300
    → (300 ≤ priority → actions ≡ [])
    → Grows s (add_flow dpid priority match actions buffer s)
unfolding add_flow count_flows
add_flow-Grows dpid priority match actions buffer s le high = record {
  more = (dpid, flow (record (flow_mod priority match actions 0) { buffer_id = buffer })) ∷ [];
  sent_more = refl;
  low = ((le, high), tt);
  counted = omega arith;
}
