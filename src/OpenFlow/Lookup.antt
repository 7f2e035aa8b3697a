-- ===== src/OpenFlow/Lookup.antt =====
-- How a switch decides on a packet, from what its table holds; and a switch that looks its entries
-- up one by one, which shows that the assumptions on a switch can be met.
use ai_driven_software_defin.Base.{
  ◌≤◌, ◌≡◌, true, false, Option, none, some, List, [], ◌∷◌, In, String, ltb, if◌then◌else◌,
  Bool-cases, Option-cases, inl, inr, arith, tests,
}
use ai_driven_software_defin.OpenFlow.{FlowMod, Packet, Switch, matches}
use text.Mathlib.Text.{starts_with}

-- A matching entry makes the switch choose an entry that is at least as high; what every such
-- entry satisfies, the chosen one does.
pub select_decided {κ} :
    (sw : Switch) (P : FlowMod → Type κ) (table : List FlowMod) (p : Packet) (r : FlowMod)
    → In r table
    → matches sw.mask_with r.match p ≡ true
    → ((s : FlowMod)
        → In s table
        → matches sw.mask_with s.match p ≡ true
        → r.priority ≤ s.priority
        → P s)
    → (t : FlowMod) × (sw.select table p ≡ some t) × P t
select_decided sw P table p r m e h = elim (Option-cases (sw.select table p)) [
  | inl n ↦ absurd (ground (arith, sw.select_none table p r n m))
  | inr (t, c) ↦ (
    t,
    c,
    h t (sw.select_member table p t c) (sw.select_matches table p t c)
        (sw.select_highest table p t r c m e),
  )
]

module _ (mask : String → String → String) where
  -- The better of an entry and of what the rest of the table gives.
  better : FlowMod → Option FlowMod → Option FlowMod
  better r none = some r
  better r (some s) = if ltb r.priority s.priority then some s else some r

  better_ge :
      (t : FlowMod) (o : Option FlowMod) (r : FlowMod)
      → better t o ≡ some r
      → t.priority ≤ r.priority
  unfolding better
  better_ge t none r e = let q : t ≡ r = cc in rw q (omega arith)
  better_ge t (some x) r e = elim (Bool-cases (ltb t.priority x.priority)) [
    | inl y ↦ let q : x ≡ r = ground arith in rw (← q) (omega tests)
    | inr n ↦ let q : t ≡ r = ground arith in rw (← q) (omega arith)
  ]

  better_ge_rest : (t x r : FlowMod) → better t (some x) ≡ some r → x.priority ≤ r.priority
  unfolding better
  better_ge_rest t x r e = elim (Bool-cases (ltb t.priority x.priority)) [
    | inl y ↦ let q : x ≡ r = ground arith in rw (← q) (omega arith)
    | inr n ↦ let q : t ≡ r = ground arith in rw (← q) (omega tests)
  ]

  unfoldable pub first_highest : List FlowMod → Packet → Option FlowMod
  unfolding better
  first_highest [] p = none
  first_highest (r ∷ rs) p =
      let rest = first_highest rs p in if matches mask r.match p then better r rest else rest

  pub first_highest-none :
      (table : List FlowMod) (p : Packet) (s : FlowMod)
      → first_highest table p ≡ none
      → In s table
      → matches mask s.match p ≡ false
  unfolding first_highest
  first_highest-none [] p s e m = absurd m
  first_highest-none (r ∷ rs) p s e (inl q) = rw (← q) (elim (Bool-cases (matches mask r.match p)) [
    | inl y ↦ absurd (elim (Option-cases (first_highest rs p)) [
      | inl n ↦ ground arith
      | inr (t, c) ↦ ground arith
    ])
    | inr n ↦ n
  ])
  first_highest-none (r ∷ rs) p s e (inr m) =
      first_highest-none rs p s
        (elim (Bool-cases (matches mask r.match p)) [
          | inl y ↦ elim (Option-cases (first_highest rs p)) [
            | inl n ↦ n
            | inr (t, c) ↦ absurd (ground arith)
          ]
          | inr n ↦ ground arith
        ])
        m

  pub first_highest_member :
      (table : List FlowMod) (p : Packet) (r : FlowMod)
      → first_highest table p ≡ some r
      → In r table
  unfolding first_highest
  first_highest_member [] p r e = absurd (cc)
  first_highest_member (s ∷ rs) p r e = ground (arith, first_highest_member rs p r)

  pub first_highest-matches :
      (table : List FlowMod) (p : Packet) (r : FlowMod)
      → first_highest table p ≡ some r
      → matches mask r.match p ≡ true
  unfolding first_highest
  first_highest-matches [] p r e = absurd (cc)
  first_highest-matches (s ∷ rs) p r e = ground (arith, first_highest-matches rs p r)

  pub first_highest_highest :
      (table : List FlowMod) (p : Packet) (r s : FlowMod)
      → first_highest table p ≡ some r
      → In s table
      → matches mask s.match p ≡ true
      → s.priority ≤ r.priority
  unfolding first_highest
  first_highest_highest [] p r s e m h = absurd m
  first_highest_highest (t ∷ rs) p r s e (inl q) h = rw (← q) (
      let y : matches mask t.match p ≡ true = rw q h in
      better_ge t (first_highest rs p) r (ground arith))
  first_highest_highest (t ∷ rs) p r s e (inr m) h = elim (Option-cases (first_highest rs p)) [
    | inl n ↦ let f : matches mask s.match p ≡ false = first_highest-none rs p s n m in absurd (cc)
    | inr (x, c) ↦
        let le : s.priority ≤ x.priority = first_highest_highest rs p x s c m h in
        elim (Bool-cases (matches mask t.match p)) [
          | inl y ↦
              let q : x.priority ≤ r.priority = better_ge_rest t x r (ground arith) in omega arith
          | inr n ↦ let q : x ≡ r = ground arith in rw (← q) le
        ]
  ]

  -- A switch that goes through its table.
  abbrev pub scanning_switch : Switch
  scanning_switch = record {
    mask_with = mask;
    select = first_highest;
    select_member = first_highest_member;
    select_matches = first_highest-matches;
    select_highest = first_highest_highest;
    select_none = first_highest-none;
  }

-- The /24 network of a campus address; any other address is its own network.
unfoldable pub campus_mask : String → String → String
campus_mask addr mask =
    if starts_with addr "10.10.0."
    then "10.10.0.0"
    else if starts_with addr "10.20.0."
    then "10.20.0.0"
    else if starts_with addr "10.30.0."
    then "10.30.0.0"
    else if starts_with addr "10.40.0."
    then "10.40.0.0"
    else addr

abbrev pub campus_switch : Switch
campus_switch = scanning_switch campus_mask
