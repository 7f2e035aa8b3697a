-- ===== src/Healing/Tests.antt =====
-- tumba_sdn/controller/self_healing.py: runs of the handlers over lists of edges.
use ai_driven_software_defin.Base.{ℕ, true, false, [], ◌∷◌, String, string_eq}
use ai_driven_software_defin.Graph.{GraphOps}
use ai_driven_software_defin.Graph.EdgeList.{edge_list}
use ai_driven_software_defin.Healing.Module.{EdgeInfo, init}
use ai_driven_software_defin.Healing.Failover.{
  PortChange, IsValid, all_written, handle_all, handle_all-IsValid,
}

abbrev G : GraphOps String EdgeInfo
G = edge_list

abbrev down : ℕ → ℕ → PortChange G
down dpid port_no = record {
  written = true;
  start = 100;
  stop = 1_000_000_000;
  dpid = dpid;
  port_no = port_no;
  is_up = false;
}

abbrev up : ℕ → ℕ → PortChange G
up dpid port_no = record {
  written = false;
  start = 900;
  stop = 920;
  dpid = dpid;
  port_no = port_no;
  is_up = true;
}

handle_all-IsValid_example :
    IsValid G
      (all_written G true (down 2 1 ∷ down 9 1 ∷ up 2 1 ∷ []))
      (handle_all G (down 2 1 ∷ down 9 1 ∷ up 2 1 ∷ []) (init G))
handle_all-IsValid_example = handle_all-IsValid G (down 2 1 ∷ down 9 1 ∷ up 2 1 ∷ [])
