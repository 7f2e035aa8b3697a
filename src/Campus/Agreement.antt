-- ===== src/Campus/Agreement.antt =====
-- tumba_sdn/topology/tumba_topo.py against the tables of tumba_sdn/controller/security_module.py,
-- self_healing.py and tumba_sdn/simulation/pc_activity_manager.py. Which node is at a port of a switch
-- is Mininet's, and a parameter: a switch numbers its ports from 1 in the order of its links.
use ai_driven_software_defin.Base.{
  ℕ, zero, suc, Option, none, some, List, [], ◌∷◌, String, lookup, In, All, All-In, All-append,
  ◌++◌, keep, map, ◌==◌, string_eq, nat_eq, ◌≡◌, refl, if◌then◌else◌,
}
use ai_driven_software_defin.Campus.Topology.{
  ZoneConfig, Host, Link, build, host_zone, get_zone_hosts, zones,
}
use ai_driven_software_defin.Activity.Pcs.{user_pcs}
use ai_driven_software_defin.Security.Zones.{ip_to_zone, dpid_to_zone, host_ip_for_port}

-- The hosts whose names say that they are in the zone.
unfoldable pub zone_members : String → List Host
unfolding build host_zone
zone_members zone = keep (λ h. host_zone h.name == zone) build.hosts

-- The other ends of the links of a node, in order.
unfoldable pub peers : String → List Link → List String
peers node [] = []
peers node (l ∷ links) =
    let rest = peers node links in
    if l.node1 == node then l.node2 ∷ rest else if l.node2 == node then l.node1 ∷ rest else rest

unfoldable pub nth : {A : Type 0} → ℕ → List A → Option A
nth n [] = none
nth zero (x ∷ xs) = some x
nth (suc n) (x ∷ xs) = nth n xs

-- What Mininet documents of the ports of a switch.
abbrev pub IsNumbered : (List Link → String → ℕ → Option String) → Type 0
IsNumbered node_at =
    (links : List Link) (switch : String) (n : ℕ)
    → node_at links switch (suc n) ≡ nth n (peers switch links)

get_zone_hosts-All :
    All
      (λ z.
        get_zone_hosts z.0 build
        ≡ (if z.0 == "server_zone" then [] else map (λ h. h.name) (zone_members z.0)))
      zones
unfolding get_zone_hosts build zone_members host_zone
get_zone_hosts-All = (refl, (refl, (refl, (refl, tt))))

-- Every PC of the activity manager is a host of the network, with its address and its zone.
user_pcs-All :
    All
      (λ pc.
        (lookup pc.0 (map (λ (h : Host). (h.name, h.ip)) build.hosts) ≡ some pc.1.ip)
        × (host_zone pc.0 ≡ pc.1.zone))
      user_pcs
unfolding build lookup host_zone
user_pcs-All = (
  (refl, refl),
  (
    (refl, refl),
    (
      (refl, refl),
      (
        (refl, refl),
        (
          (refl, refl),
          (
            (refl, refl),
            (
              (refl, refl),
              (
                (refl, refl),
                (
                  (refl, refl),
                  (
                    (refl, refl),
                    (
                      (refl, refl),
                      (
                        (refl, refl),
                        (
                          (refl, refl),
                          (
                            (refl, refl),
                            (
                              (refl, refl),
                              (
                                (refl, refl),
                                ((refl, refl), ((refl, refl), ((refl, refl), ((refl, refl), tt)))),
                              ),
                            ),
                          ),
                        ),
                      ),
                    ),
                  ),
                ),
              ),
            ),
          ),
        ),
      ),
    ),
  ),
)

module _ (node_at : List Link → String → ℕ → Option String) (numbered : IsNumbered node_at) where
  -- A host, as the security module and the names say where it is.
  abbrev pub IsPlaced : Host → Type 0
  IsPlaced h =
      (zone : String) × (switch : String) × (dpid : ℕ) × (port : ℕ) × (lookup switch build.switches
        ≡ some dpid)
      × (node_at build.links switch port ≡ some h.name)
      × (host_ip_for_port dpid port ≡ some h.ip)
      × (host_zone h.name ≡ zone)
      × (ip_to_zone h.ip ≡ zone)
      × (dpid_to_zone dpid ≡ zone)

  -- The port has that number less one among the peers of its switch.
  placed_at :
      (switch : String) (n : ℕ)
      → node_at build.links switch (suc n) ≡ nth n (peers switch build.links)
  placed_at switch n = numbered build.links switch n

  staff_lan-IsPlaced : All IsPlaced (zone_members "staff_lan")
  unfolding build peers nth zone_members host_zone lookup host_ip_for_port ip_to_zone dpid_to_zone
  staff_lan-IsPlaced = (
    ("staff_lan", "as1", 4, 2, refl, placed_at "as1" 1, refl, refl, refl, refl),
    (
      ("staff_lan", "as1", 4, 3, refl, placed_at "as1" 2, refl, refl, refl, refl),
      (
        ("staff_lan", "as1", 4, 4, refl, placed_at "as1" 3, refl, refl, refl, refl),
        (
          ("staff_lan", "as1", 4, 5, refl, placed_at "as1" 4, refl, refl, refl, refl),
          (
            ("staff_lan", "as1", 4, 6, refl, placed_at "as1" 5, refl, refl, refl, refl),
            (("staff_lan", "as1", 4, 7, refl, placed_at "as1" 6, refl, refl, refl, refl), tt),
          ),
        ),
      ),
    ),
  )

  server_zone-IsPlaced : All IsPlaced (zone_members "server_zone")
  unfolding build peers nth zone_members host_zone lookup host_ip_for_port ip_to_zone dpid_to_zone
  server_zone-IsPlaced = (
    ("server_zone", "as2", 5, 2, refl, placed_at "as2" 1, refl, refl, refl, refl),
    (
      ("server_zone", "as2", 5, 3, refl, placed_at "as2" 2, refl, refl, refl, refl),
      (
        ("server_zone", "as2", 5, 4, refl, placed_at "as2" 3, refl, refl, refl, refl),
        (("server_zone", "as2", 5, 5, refl, placed_at "as2" 4, refl, refl, refl, refl), tt),
      ),
    ),
  )

  it_lab-IsPlaced : All IsPlaced (zone_members "it_lab")
  unfolding build peers nth zone_members host_zone lookup host_ip_for_port ip_to_zone dpid_to_zone
  it_lab-IsPlaced = (
    ("it_lab", "as3", 6, 2, refl, placed_at "as3" 1, refl, refl, refl, refl),
    (
      ("it_lab", "as3", 6, 3, refl, placed_at "as3" 2, refl, refl, refl, refl),
      (
        ("it_lab", "as3", 6, 4, refl, placed_at "as3" 3, refl, refl, refl, refl),
        (("it_lab", "as3", 6, 5, refl, placed_at "as3" 4, refl, refl, refl, refl), tt),
      ),
    ),
  )

  student_wifi-IsPlaced : All IsPlaced (zone_members "student_wifi")
  unfolding build peers nth zone_members host_zone lookup host_ip_for_port ip_to_zone dpid_to_zone
  student_wifi-IsPlaced = (
    ("student_wifi", "as4", 7, 2, refl, placed_at "as4" 1, refl, refl, refl, refl),
    (
      ("student_wifi", "as4", 7, 3, refl, placed_at "as4" 2, refl, refl, refl, refl),
      (
        ("student_wifi", "as4", 7, 4, refl, placed_at "as4" 3, refl, refl, refl, refl),
        (
          ("student_wifi", "as4", 7, 5, refl, placed_at "as4" 4, refl, refl, refl, refl),
          (
            ("student_wifi", "as4", 7, 6, refl, placed_at "as4" 5, refl, refl, refl, refl),
            (
              ("student_wifi", "as4", 7, 7, refl, placed_at "as4" 6, refl, refl, refl, refl),
              (
                ("student_wifi", "as4", 7, 8, refl, placed_at "as4" 7, refl, refl, refl, refl),
                (
                  ("student_wifi", "as4", 7, 9, refl, placed_at "as4" 8, refl, refl, refl, refl),
                  (
                    ("student_wifi", "as4", 7, 10, refl, placed_at "as4" 9, refl, refl, refl, refl),
                    (
                      (
                        "student_wifi",
                        "as4",
                        7,
                        11,
                        refl,
                        placed_at "as4" 10,
                        refl,
                        refl,
                        refl,
                        refl,
                      ),
                      tt,
                    ),
                  ),
                ),
              ),
            ),
          ),
        ),
      ),
    ),
  )

  every_host-IsPlaced : All IsPlaced build.hosts
  unfolding build zone_members host_zone
  every_host-IsPlaced =
      let zone = zone_members in
      All-append IsPlaced (zone "staff_lan")
        (zone "server_zone" ++ (zone "it_lab" ++ zone "student_wifi")) staff_lan-IsPlaced
        (All-append IsPlaced (zone "server_zone") (zone "it_lab" ++ zone "student_wifi")
          server_zone-IsPlaced
          (All-append IsPlaced (zone "it_lab") (zone "student_wifi") it_lab-IsPlaced
            student_wifi-IsPlaced))

  -- Where a switch numbers its ports in the order of its links: every host of the network is at a
  -- port of a switch from which the security module takes exactly this host's address, and the
  -- host's name, its address and the switch are of the same zone.
  pub host-IsPlaced : (h : Host) → In h build.hosts → IsPlaced h
  host-IsPlaced h m = All-In IsPlaced build.hosts every_host-IsPlaced m

-- The hosts of a zone are those whose names say so, except that none is found for the servers,
-- whose names do not start with the prefix of their zone.
get_zone_hosts-members :
    (zone : String × ZoneConfig)
    → In zone zones
    → get_zone_hosts zone.0 build
      ≡ (if zone.0 == "server_zone" then [] else map (λ h. h.name) (zone_members zone.0))
get_zone_hosts-members zone m =
    All-In
      (λ z.
        get_zone_hosts z.0 build
        ≡ (if z.0 == "server_zone" then [] else map (λ h. h.name) (zone_members z.0)))
      zones get_zone_hosts-All m
