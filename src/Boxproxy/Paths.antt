-- ===== src/Boxproxy/Paths.antt =====
-- What the proxy lets through, and under which path.
use Prim.Native.String.{◌++◌}
use Prim.Native.Char.{Char}
use novita_box.Common.{◌≡◌, ◌⊎◌, Bool, true, String, str_eq, ok}
use novita_box.Boxd.Mux.{
  AgentRoute, healthz_route, reexec_route, exec_route, process_route, agent_route,
}
use novita_box.Boxproxy.{
  has_prefix, boxd_path_from_sandbox_rest, Route, not_found_route, web_socket_route, http_route,
}

-- The routes of the agent but for its health, its replacement and its /exec.
abbrev pub IsProcessApi : AgentRoute → Type 0
IsProcessApi healthz_route = ⊥
IsProcessApi reexec_route = ⊥
IsProcessApi exec_route = ⊥
IsProcessApi _ = Unit

-- What a route promises: the path that the proxy asks the agent for is the one behind the proxy
-- with its slash; the agent's handler of /processes/ takes a websocket, and no handler outside of
-- the process API takes any other request.
abbrev pub IsConfined : Route → Type 0
IsConfined not_found_route = Unit
IsConfined (web_socket_route id rest) =
    (boxd_path_from_sandbox_rest rest ≡ ok ("/" ++ rest))
    × (agent_route ("/" ++ rest) ≡ process_route)
IsConfined (http_route id rest) =
    (boxd_path_from_sandbox_rest rest ≡ ok ("/" ++ rest)) × IsProcessApi (agent_route ("/" ++ rest))

-- The tests of the proxy.
abbrev IsKnown : String → Type 0
IsKnown rest =
    (str_eq rest "processes" ≡ true)
    ⊎ (has_prefix rest "processes/" ≡ true)
    ⊎ (has_prefix rest "process.Process/" ≡ true)

abbrev slash : Char
slash = "/"
