-- ===== src/Adaptive/Engine/Uplink.antt =====
-- examples/campus_controller.py: the table of a switch that has connected, which forwards packets for
-- the primary server at the uplink.
use ai_driven_software_defin.Base.{
  all, not, ℕ, ◌≤◌, true, false, Option, none, some, List, [], ◌∷◌, ◌++◌, String, Dict, In, All,
  All-In, All-append, In-append_left, In-append_right, map, nat_beq, ◌==◌, nat_eq, string_eq,
  eq_self, ◌≡◌, refl, sym, ap, ◌∙◌, arith, if◌then◌else◌, if-both, Bool-cases, inl, inr,
}
use mathlib.Core.List.{append_assoc}
use ai_driven_software_defin.OpenFlow.{
  FlowMod, Packet, Switch, matches, output, controller, any_match, flow_mod, exact, eth_type_ip,
}
use ai_driven_software_defin.OpenFlow.Lookup.{select_decided}
use ai_driven_software_defin.Adaptive.Tables.{vlan_automation_cookie, primary_server_ip, net_dpid}
use ai_driven_software_defin.Adaptive.State.{
  delete_cookie, delete_cookie_flows, CampusController, Message, flow, add_flow, append_event,
}
use ai_driven_software_defin.Adaptive.Routing.Policy.{add_flows}
use ai_driven_software_defin.Adaptive.Handlers.Packets.{
  install_vlan_automation_flows, to_backup, backup_path, switch_features_handler,
}
use ai_driven_software_defin.Adaptive.Handlers.Dropped.{append_nil}
use ai_driven_software_defin.Adaptive.Engine.Flows.{
  to_client, policy_map_for_switch, push, install_policy_engine_flows, to_server, to_server_match,
  to_clients, engine_flows, program,
}
use mathlib.Core.Path.{subst}
use ai_driven_software_defin.Adaptive.Engine.Clients.{
  IsForwarded, IsGood, NotServer, policy_map-NotServer, to_server-IsGood, to_clients-IsGood,
}

-- The table of a switch that has connected, without a network automation file.
abbrev pub table_miss : FlowMod
table_miss = flow_mod 0 any_match (output controller ∷ []) 0

abbrev pub backup_flows : ℕ → List FlowMod
backup_flows dpid =
    if nat_beq dpid 1
    then to_backup 2 ∷ []
    else if nat_beq dpid net_dpid
    then to_backup 4 ∷ []
    else []

abbrev pub features_flows : ℕ → List FlowMod
features_flows dpid = table_miss ∷ (backup_flows dpid ++ engine_flows (policy_map_for_switch dpid))

abbrev pub to_switch : ℕ → List FlowMod → List (ℕ × Message)
to_switch dpid = map (λ r. (dpid, flow r))

add_flows-sent :
    (dpid : ℕ) (rs : List FlowMod) (s : CampusController)
    → (add_flows dpid rs s).sent ≡ s.sent ++ to_switch dpid rs
unfolding add_flows add_flow
add_flows-sent dpid [] s = append_nil s.sent
add_flows-sent dpid (r ∷ rs) s =
    add_flows-sent dpid rs (add_flow dpid r s)
    ∙ append_assoc s.sent ((dpid, flow r) ∷ []) (to_switch dpid rs)

program-sent :
    (dpid : ℕ) (m : Option (ℕ × Dict String ℕ)) (s : CampusController)
    → (program dpid m s).sent ≡ s.sent ++ to_switch dpid (engine_flows m)
unfolding program append_event
program-sent dpid none s = append_nil s.sent
program-sent dpid (some (uplink, clients)) s =
    add_flows-sent dpid (engine_flows (some (uplink, clients))) s

abbrev IsAtMost : ℕ → FlowMod → Type 0
IsAtMost limit r = (r.priority ≤ limit)

backup_flows-low : (dpid : ℕ) → All (IsAtMost 50) (backup_flows dpid)
backup_flows-low dpid =
    if-both (All (IsAtMost 50)) (nat_beq dpid 1) (to_backup 2 ∷ [])
      (if nat_beq dpid net_dpid then to_backup 4 ∷ [] else []) (λ e. (omega arith, tt))
      (λ e.
        if-both (All (IsAtMost 50)) (nat_beq dpid net_dpid) (to_backup 4 ∷ []) []
          (λ f. (omega arith, tt)) (λ f. tt))

to_switch-append :
    (dpid : ℕ) (xs ys : List FlowMod)
    → to_switch dpid (xs ++ ys) ≡ to_switch dpid xs ++ to_switch dpid ys
to_switch-append dpid [] ys = refl
to_switch-append dpid (x ∷ xs) ys = ap (λ l. (dpid, flow x) ∷ l) (to_switch-append dpid xs ys)

backup_path-sent :
    (dpid : ℕ) (s : CampusController)
    → (backup_path dpid s).sent ≡ s.sent ++ to_switch dpid (backup_flows dpid)
unfolding backup_path add_flow
backup_path-sent dpid s = elim (Bool-cases (nat_beq dpid 1)) [
  | inl e ↦ rw e refl
  | inr e ↦ elim (Bool-cases (nat_beq dpid net_dpid)) [
    | inl f ↦ rw (e, f) refl
    | inr f ↦ rw (e, f) (append_nil s.sent)
  ]
]

-- The messages to a switch that connects: the entries of its table, and the deletion of the entries
-- of an earlier VLAN configuration.
abbrev pub connection : ℕ → List (ℕ × Message)
connection dpid =
    to_switch dpid (features_flows dpid) ++ ((dpid, delete_cookie vlan_automation_cookie) ∷ [])

switch_features-sent :
    (dpid : ℕ) (s : CampusController)
    → (switch_features_handler dpid s).sent ≡ s.sent ++ connection dpid
unfolding switch_features_handler install_policy_engine_flows install_vlan_automation_flows
    delete_cookie_flows append_event add_flow
switch_features-sent dpid s =
    let first = add_flow dpid table_miss s in
    let backup = backup_flows dpid in
    let engine = engine_flows (policy_map_for_switch dpid) in
    let last : List (ℕ × Message) = (dpid, delete_cookie vlan_automation_cookie) ∷ [] in
    let entries : (program dpid (policy_map_for_switch dpid) (backup_path dpid first)).sent
        ≡ s.sent ++ to_switch dpid (features_flows dpid) =
      program-sent dpid (policy_map_for_switch dpid) (backup_path dpid first)
      ∙ ap (λ l. l ++ to_switch dpid engine) (backup_path-sent dpid first)
      ∙ append_assoc first.sent (to_switch dpid backup) (to_switch dpid engine)
      ∙ ap (λ l. first.sent ++ l) (sym (to_switch-append dpid backup engine))
      ∙ append_assoc s.sent ((dpid, flow table_miss) ∷ []) (to_switch dpid (backup ++ engine)) in
    ap (λ l. l ++ last) entries ∙ append_assoc s.sent (to_switch dpid (features_flows dpid)) last

-- An entry that the deletion does not touch.
abbrev pub IsKept : FlowMod → Type 0
IsKept r = nat_beq r.cookie vlan_automation_cookie ≡ false

cookies-IsKept :
    (rs : List FlowMod)
    → all (λ r. not (nat_beq r.cookie vlan_automation_cookie)) rs ≡ true
    → All IsKept rs
cookies-IsKept [] h = tt
cookies-IsKept (r ∷ rs) h = (ground (arith, h), cookies-IsKept rs (ground (arith, h)))

to_clients-IsKept : (uplink : ℕ) (clients : Dict String ℕ) → All IsKept (to_clients uplink clients)
to_clients-IsKept uplink [] = tt
to_clients-IsKept uplink ((ip, client_port) ∷ clients) =
    All-append IsKept (to_client uplink ip client_port) (to_clients uplink clients)
      (cookies-IsKept (to_client uplink ip client_port) refl) (to_clients-IsKept uplink clients)

engine_flows-IsKept : (m : Option (ℕ × Dict String ℕ)) → All IsKept (engine_flows m)
engine_flows-IsKept none = tt
engine_flows-IsKept (some (uplink, clients)) =
    All-append IsKept (to_server uplink) (to_clients uplink clients)
      (cookies-IsKept (to_server uplink) refl) (to_clients-IsKept uplink clients)

backup_flows-IsKept : (dpid : ℕ) → All IsKept (backup_flows dpid)
backup_flows-IsKept dpid =
    if-both (All IsKept) (nat_beq dpid 1) (to_backup 2 ∷ [])
      (if nat_beq dpid net_dpid then to_backup 4 ∷ [] else []) (λ e. (refl, tt))
      (λ e.
        if-both (All IsKept) (nat_beq dpid net_dpid) (to_backup 4 ∷ []) [] (λ f. (refl, tt))
          (λ f. tt))

features_flows-IsKept : (dpid : ℕ) → All IsKept (features_flows dpid)
features_flows-IsKept dpid = (
  refl,
  All-append IsKept (backup_flows dpid) (engine_flows (policy_map_for_switch dpid))
      (backup_flows-IsKept dpid) (engine_flows-IsKept (policy_map_for_switch dpid)),
)

module _ (mask : String → String → String) (uplink : ℕ) (p : Packet) where
  low-IsGood : (r : FlowMod) → r.priority ≤ 50 → IsGood mask uplink p r
  low-IsGood r low m h = absurd (omega arith)

  lows-IsGood : (rs : List FlowMod) → All (IsAtMost 50) rs → All (IsGood mask uplink p) rs
  lows-IsGood [] h = tt
  lows-IsGood (r ∷ rs) h = (low-IsGood r h.0, lows-IsGood rs h.1)

  features-IsGood :
      (dpid : ℕ) (clients : Dict String ℕ)
      → policy_map_for_switch dpid ≡ some (uplink, clients)
      → p.ipv4_dst ≡ primary_server_ip
      → All (IsGood mask uplink p) (features_flows dpid)
  features-IsGood dpid clients e dst =
      let good = IsGood mask uplink p in
      let others : All (λ c. (c.0 == p.ipv4_dst) ≡ false) clients =
        subst (λ ip. All (λ c. (c.0 == ip) ≡ false) clients) (sym dst)
          (subst NotServer e (policy_map-NotServer dpid)) in
      let engine : All good (engine_flows (policy_map_for_switch dpid)) =
        subst (λ m. All good (engine_flows m)) (sym e)
          (All-append good (to_server uplink) (to_clients uplink clients)
            (to_server-IsGood mask uplink p) (to_clients-IsGood mask uplink p clients others)) in
      (
        low-IsGood table_miss (omega arith),
        All-append good (backup_flows dpid) (engine_flows (policy_map_for_switch dpid))
            (lows-IsGood (backup_flows dpid) (backup_flows-low dpid)) engine,
      )

-- The rule for every IP packet to the server.
abbrev any_to_server : ℕ → FlowMod
any_to_server uplink = push 250 to_server_match 1 uplink

any_to_server-In :
    (dpid uplink : ℕ) (clients : Dict String ℕ)
    → policy_map_for_switch dpid ≡ some (uplink, clients)
    → In (any_to_server uplink) (features_flows dpid)
any_to_server-In dpid uplink clients e =
    let r = any_to_server uplink in
    inr (
      In-append_right (backup_flows dpid) (engine_flows (policy_map_for_switch dpid)) r (
        subst (λ m. In r (engine_flows m)) (sym e)
          (In-append_left (to_server uplink) (to_clients uplink clients) r (
            inr (
              inr (
                inr
                  (inr (inr (inr (inr (inr (inr (inr (inr (inr (inr (inr (inl refl))))))))))))))))))

exact-matches :
    (mask : String → String → String) (p : Packet)
    → p.eth_type ≡ eth_type_ip
    → matches mask
        (record any_match { eth_type = some eth_type_ip; ipv4_dst = some (exact p.ipv4_dst) })
        p
      ≡ true
unfolding matches
exact-matches mask p ip = ground (arith, ip, eq_self p.ipv4_dst)

any_to_server-matches :
    (mask : String → String → String) (p : Packet)
    → p.eth_type ≡ eth_type_ip
    → p.ipv4_dst ≡ primary_server_ip
    → matches mask to_server_match p ≡ true
any_to_server-matches mask p ip dst =
    subst
      (λ a.
        matches mask (record any_match { eth_type = some eth_type_ip; ipv4_dst = some (exact a) }) p
        ≡ true)
      dst (exact-matches mask p ip)

-- When a switch that the policy engine knows connects and there is no network automation file, it is
-- sent these entries and then the deletion of VLAN entries, which none of them is. Of these entries the
-- one chosen for an IP packet to the primary server, whatever its source, protocol and port, puts the
-- packet into a queue and forwards it at the uplink, so that this switch does not send it to the
-- controller.
pub switch_features-uplink :
    (sw : Switch) (dpid uplink : ℕ) (clients : Dict String ℕ) (p : Packet) (s : CampusController)
    → policy_map_for_switch dpid ≡ some (uplink, clients)
    → p.eth_type ≡ eth_type_ip
    → p.ipv4_dst ≡ primary_server_ip
    → ((switch_features_handler dpid s).sent ≡ s.sent ++ connection dpid)
      × All IsKept (features_flows dpid)
      × ((r : FlowMod) × (sw.select (features_flows dpid) p ≡ some r) × IsForwarded uplink r)
switch_features-uplink sw dpid uplink clients p s e ip dst =
    let table = features_flows dpid in
    let good = features-IsGood sw.mask_with uplink p dpid clients e dst in
    (
      switch_features-sent dpid s,
      features_flows-IsKept dpid,
      select_decided sw (IsForwarded uplink) table p (any_to_server uplink)
          (any_to_server-In dpid uplink clients e) (any_to_server-matches sw.mask_with p ip dst)
          (λ r m n h. All-In (IsGood sw.mask_with uplink p) table good m n h),
    )
