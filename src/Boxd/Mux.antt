-- ===== src/Boxd/Mux.antt =====
-- The routes of internal/boxd/server/server.go: which handler http.ServeMux gives a request to, by
-- its path. A path of the mux that ends in a slash stands for all paths below it, and every other
-- one for itself. A path with empty parts or dots is redirected by the mux and has no handler.
use novita_box.Common.{String, str_eq, if◌then◌else◌}
use novita_box.Boxproxy.{has_prefix}

pub data AgentRoute : Type 0 where
  healthz_route reexec_route exec_route processes_route process_route : AgentRoute
  connect_list_route connect_start_route connect_attach_route : AgentRoute
  connect_update_route connect_send_input_route connect_send_signal_route : AgentRoute
  unknown_route : AgentRoute

unfoldable pub agent_route : String → AgentRoute
agent_route path =
    if has_prefix path "/processes/"
    then process_route
    else if str_eq path "/healthz"
    then healthz_route
    else if str_eq path "/admin/reexec"
    then reexec_route
    else if str_eq path "/exec"
    then exec_route
    else if str_eq path "/processes"
    then processes_route
    else if str_eq path "/process.Process/List"
    then connect_list_route
    else if str_eq path "/process.Process/Start"
    then connect_start_route
    else if str_eq path "/process.Process/Connect"
    then connect_attach_route
    else if str_eq path "/process.Process/Update"
    then connect_update_route
    else if str_eq path "/process.Process/SendInput"
    then connect_send_input_route
    else if str_eq path "/process.Process/SendSignal"
    then connect_send_signal_route
    else unknown_route
