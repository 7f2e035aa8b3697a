-- ===== src/Adaptive/Engine/Clients.antt =====
-- examples/campus_controller.py: the flows of the policy engine and packets for the primary server,
-- which no rule for a client matches.
use ai_driven_software_defin.Base.{
  ℕ, ◌≤◌, true, false, Option, none, some, List, [], ◌∷◌, String, Dict, All, All-append, nat_beq,
  member, ◌==◌, nat_eq, string_eq, ◌≡◌, refl, arith, if◌then◌else◌, if-both,
}
use ai_driven_software_defin.OpenFlow.{FlowMod, Packet, matches, output, set_queue, port, exact}
use ai_driven_software_defin.Adaptive.Tables.{
  primary_server_ip, it_client_ports, net_client_ports, staff_client_ports, wifi_client_ports,
}
use ai_driven_software_defin.Adaptive.Engine.Flows.{
  policy_map_for_switch, to_server, to_client, to_clients,
}

-- The packet goes to a queue and out at the uplink.
abbrev pub IsForwarded : ℕ → FlowMod → Type 0
IsForwarded uplink r = (queue_id : ℕ) × (r.actions ≡ set_queue queue_id ∷ output (port uplink) ∷ [])

abbrev IsFor : String → FlowMod → Type 0
IsFor ip r = r.match.ipv4_dst ≡ some (exact ip)

module _ (mask : String → String → String) (uplink : ℕ) (p : Packet) where
  -- An entry that matches the packet and is not below the rule for all packets to the server.
  abbrev pub IsGood : FlowMod → Type 0
  IsGood r = matches mask r.match p ≡ true → 250 ≤ r.priority → IsForwarded uplink r

  pub to_server-IsGood : All IsGood (to_server uplink)
  to_server-IsGood = (
    (λ m h. (0, refl)),
    (
      (λ m h. (0, refl)),
      (
        (λ m h. (0, refl)),
        (
          (λ m h. (0, refl)),
          (
            (λ m h. (0, refl)),
            (
              (λ m h. (0, refl)),
              (
                (λ m h. (0, refl)),
                (
                  (λ m h. (2, refl)),
                  (
                    (λ m h. (2, refl)),
                    (
                      (λ m h. (2, refl)),
                      (
                        (λ m h. (1, refl)),
                        (
                          (λ m h. (1, refl)),
                          ((λ m h. (1, refl)), ((λ m h. (1, refl)), ((λ m h. (1, refl)), tt))),
                        ),
                      ),
                    ),
                  ),
                ),
              ),
            ),
          ),
        ),
      ),
    ),
  )

  other-IsGood : (ip : String) (r : FlowMod) → (ip == p.ipv4_dst) ≡ false → IsFor ip r → IsGood r
  unfolding matches
  other-IsGood ip r n e m h = absurd (ground (arith, n, e, m))

  to_client-IsFor :
      (ip : String) (client_port : ℕ) → All (IsFor ip) (to_client uplink ip client_port)
  to_client-IsFor ip client_port = (
    refl,
    (
      refl,
      (
        refl,
        (
          refl,
          (
            refl,
            (refl, (refl, (refl, (refl, (refl, (refl, (refl, (refl, (refl, (refl, tt)))))))))),
          ),
        ),
      ),
    ),
  )

  All-imp :
      (P Q : FlowMod → Type 0) (rs : List FlowMod)
      → ((r : FlowMod) → P r → Q r)
      → All P rs
      → All Q rs
  All-imp P Q [] f h = tt
  All-imp P Q (r ∷ rs) f h = (f r h.0, All-imp P Q rs f h.1)

  pub to_clients-IsGood :
      (clients : Dict String ℕ)
      → All (λ c. (c.0 == p.ipv4_dst) ≡ false) clients
      → All IsGood (to_clients uplink clients)
  to_clients-IsGood [] h = tt
  to_clients-IsGood ((ip, client_port) ∷ clients) h =
      All-append IsGood (to_client uplink ip client_port) (to_clients uplink clients)
        (All-imp (IsFor ip) IsGood (to_client uplink ip client_port)
          (λ r e. other-IsGood ip r h.0 e) (to_client-IsFor ip client_port))
        (to_clients-IsGood clients h.1)

-- No client of a switch has the primary server's address.
abbrev pub NotServer : Option (ℕ × Dict String ℕ) → Type 0
NotServer none = Unit
NotServer (some m) = All (λ c. (c.0 == primary_server_ip) ≡ false) m.1

it_NotServer : NotServer (some (1, it_client_ports))
it_NotServer = (
  refl,
  (
    refl,
    (
      refl,
      (
        refl,
        (refl, (refl, (refl, (refl, (refl, (refl, (refl, (refl, (refl, (refl, (refl, tt))))))))))),
      ),
    ),
  ),
)

net_NotServer : NotServer (some (1, net_client_ports))
net_NotServer = (refl, (refl, (refl, (refl, (refl, (refl, (refl, (refl, (refl, tt)))))))))

pub policy_map-NotServer : (dpid : ℕ) → NotServer (policy_map_for_switch dpid)
unfolding policy_map_for_switch
policy_map-NotServer dpid =
    let it : Option (ℕ × Dict String ℕ) = some (1, it_client_ports) in
    let net : Option (ℕ × Dict String ℕ) = some (1, net_client_ports) in
    let wifi : Option (ℕ × Dict String ℕ) = some (1, wifi_client_ports) in
    let staff : Option (ℕ × Dict String ℕ) = some (1, staff_client_ports) in
    let fourth : Option (ℕ × Dict String ℕ) = if nat_beq dpid 14 then staff else none in
    let third : Option (ℕ × Dict String ℕ) = if nat_beq dpid 13 then wifi else fourth in
    let second : Option (ℕ × Dict String ℕ) =
      if member dpid (7 ∷ 8 ∷ 11 ∷ 12 ∷ []) then net else third in
    let first : Option (ℕ × Dict String ℕ) =
      if member dpid (4 ∷ 5 ∷ 6 ∷ 9 ∷ 10 ∷ []) then it else second in
    if-both NotServer (nat_beq dpid 2) it (if nat_beq dpid 3 then net else first)
      (λ e. it_NotServer)
      (λ e.
        if-both NotServer (nat_beq dpid 3) net first (λ f. net_NotServer)
          (λ f.
            if-both NotServer (member dpid (4 ∷ 5 ∷ 6 ∷ 9 ∷ 10 ∷ [])) it second (λ g. it_NotServer)
              (λ g.
                if-both NotServer (member dpid (7 ∷ 8 ∷ 11 ∷ 12 ∷ [])) net third
                  (λ h. net_NotServer)
                  (λ h.
                    if-both NotServer (nat_beq dpid 13) wifi fourth
                      (λ i. (refl, (refl, (refl, (refl, (refl, (refl, tt)))))))
                      (λ i.
                        if-both NotServer (nat_beq dpid 14) staff none
                          (λ j. (refl, (refl, (refl, tt)))) (λ j. tt))))))
