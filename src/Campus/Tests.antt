-- ===== src/Campus/Tests.antt =====
-- tumba_sdn/topology/tumba_topo.py: a port numbering as Mininet's, and a host of the network.
use ai_driven_software_defin.Base.{ℕ, zero, suc, Option, none, List, String, inr, inl, refl}
use ai_driven_software_defin.Campus.Topology.{Host, Link, build}
use ai_driven_software_defin.Campus.Agreement.{peers, nth, IsNumbered, IsPlaced, host-IsPlaced}

numbered_from_one : List Link → String → ℕ → Option String
numbered_from_one links switch zero = none
numbered_from_one links switch (suc n) = nth n (peers switch links)

numbered_from_one-IsNumbered : IsNumbered numbered_from_one
unfolding numbered_from_one
numbered_from_one-IsNumbered links switch n = refl

abbrev second_staff : Host
second_staff = record { name = "h_staff2"; ip = "10.10.0.2"; default_route = "via 10.10.0.254" }

host-IsPlaced_example : IsPlaced numbered_from_one numbered_from_one-IsNumbered second_staff
unfolding build
host-IsPlaced_example =
    host-IsPlaced numbered_from_one numbered_from_one-IsNumbered second_staff (inr (inl refl))
