-- ===== src/Tests/Client.antt =====
-- A call of the client's `Start`, and what the server makes of it.
use cnr_sandbox.Base.{true, false, [], ◌∷◌, ◌≡◌}
use cnr_sandbox.Server.Control.{start_options}
use cnr_sandbox.Client.{
  with_num_nodes, with_track_subnets, with_dynamic_ports, with_whitelisted_subnets, start_request,
}
use cnr_sandbox.Client.Sent.{last_or, start_request_lem}
use cnr_sandbox.Tests.Surroundings.{backend}
use cnr_sandbox.Tests.Server.{server}

start_request_lem_example :
    start_options backend server
      (start_request "bin" (
        with_num_nodes 3
        ∷ with_track_subnets "a"
        ∷ with_num_nodes 2
        ∷ with_whitelisted_subnets "b"
        ∷ with_dynamic_ports true
        ∷ []))
      "root"
    ≡ record {
      exec_path = "bin";
      root_data_dir = "root";
      num_nodes = 2;
      track_subnets = "b";
      redirect_nodes_output = server.redirect_nodes_output;
      global_node_config = "";
      plugin_dir = "";
      custom_node_configs = [];
      chain_configs = [];
      upgrade_configs = [];
      subnet_configs = [];
      snapshots_dir = "snapshots";
      reassign_ports_if_used = false;
      dynamic_ports = true;
    }
unfolding last_or
start_request_lem_example = start_request_lem backend server "bin" "root" (
    with_num_nodes 3
    ∷ with_track_subnets "a"
    ∷ with_num_nodes 2
    ∷ with_whitelisted_subnets "b"
    ∷ with_dynamic_ports true
    ∷ [])
