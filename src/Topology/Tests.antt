-- ===== src/Topology/Tests.antt =====
-- The topology manager (tumba_sdn/controller/topology_manager.py) over lists of edges.
use ai_driven_software_defin.Base.{
  ℕ, ◌≡◌, refl, false, none, some, List, [], ◌∷◌, if◌then◌else◌, nat_eq, arith,
}
use ai_driven_software_defin.Graph.{GraphOps}
use ai_driven_software_defin.Graph.EdgeList.{edge_list}
use ai_driven_software_defin.Topology.Lock.{final}
use ai_driven_software_defin.Topology.Manager.{
  LinkInfo, State, modify_reason, init, port_status_handler, add_link, main_dispatcher,
}
use ai_driven_software_defin.Topology.Deadlock.{
  Call, connect, port_status, link, tick, state_change, run_all, never_publishes,
}
use ai_driven_software_defin.Topology.Links.{is_failed, port_down_links, far_port_down_kept}

abbrev G : GraphOps ℕ LinkInfo
G = edge_list

abbrev calls : List (Call G)
calls =
    connect 1
    ∷ state_change 1 main_dispatcher
    ∷ link 1 1 2 1 1
    ∷ port_status 1 1 modify_reason false
    ∷ tick
    ∷ []

never_publishes_example :
    ((run_all G calls (init G)).sent ≡ []) × ((run_all G calls (init G)).state_file ≡ none)
never_publishes_example = never_publishes G calls

-- cs1 (1) and ds1 (2), by port 2 of cs1 and port 1 of ds1.
abbrev one_link : State G
one_link = final (add_link G 1 2 2 1 1 (init G))

port_down_links_example :
    G.edge_data 1 2 (final (port_status_handler G 1 2 modify_reason false one_link)).graph
    ≡ (if is_failed G 1 2 1 2 one_link then none else G.edge_data 1 2 one_link.graph)
unfolding add_link init
port_down_links_example = port_down_links G 1 2 1 2 modify_reason one_link refl

far_port_down_kept_example :
    let t = final (port_status_handler G 2 1 modify_reason false one_link) in
    G.edge_data 1 2 t.graph ≡ some (record { src_port = 2; dst_port = 1; weight = 1 })
unfolding init
far_port_down_kept_example =
    far_port_down_kept G 1 2 2 1 1 modify_reason (init G) refl (omega arith)
