-- ===== src/Boxproxy.antt =====
-- internal/boxproxy/server/server.go: which requests go to which sandbox.
pub mod Routes
pub mod Paths
pub mod Targets
pub mod Addresses
use Prim.Native.Char.{code}
use Prim.Native.String.{[], ◌∷◌, ◌++◌}
use mathlib.Core.List.{[] as nil, ◌∷◌ as ◌∷ᴸ◌}
use novita_box.Common.{
  ℕ, ◌+◌, Bool, true, false, ◌&&◌, ◌||◌, Option, none, some, List, String, str_eq, ◌==◌,
  if◌then◌else◌, Result, ok, err,
}
use novita_box.Store.Records.{StoreError, not_found, SandboxRecord, Db}
use novita_box.Store.Sandbox.{get_sandbox}
use novita_box.Network.Net.{NetLib, NetError, indexed_ip}

-- What net.SplitHostPort and net.JoinHostPort answer.
pub record HostLib : Type 0 where
  pub split_host_port : String → Option (String × String)
  pub join_host_port : String → String → String

-- The parts of a request that a route depends on: the header Novita-Sandbox-Id, the parameter
-- sandboxID, the host and the path.
pub record ProxyRequest : Type 0 where
  pub header_id : String
  pub query_id : String
  pub host : String
  pub path : String

-- strings.CutPrefix
unfoldable pub cut_prefix : String → String → Option String
cut_prefix [] s = some s
cut_prefix (c ∷ p) [] = none
cut_prefix (c ∷ p) (d ∷ s) = let rest = cut_prefix p s in if code c == code d then rest else none

-- The text before the first of these characters, and the text behind it when there is one.
unfoldable pub split_two : ℕ → String → String × Option String
split_two sep [] = ("", none)
split_two sep (c ∷ s) =
    let (head, rest) = split_two sep s in if code c == sep then ("", some s) else (c ∷ head, rest)

-- strings.Split by a slash.
unfoldable pub split_slashes : String → List String
split_slashes [] = "" ∷ᴸ nil
split_slashes (c ∷ s) =
    let parts = split_slashes s in if code c == 47 then "" ∷ᴸ parts else onto parts
  where
    onto : List String → List String
    onto nil = nil
    onto (part ∷ᴸ parts) = (c ∷ part) ∷ᴸ parts

-- strings.Trim by slashes: at the front, and at the end.
unfoldable pub trim_front_slashes : String → String
trim_front_slashes [] = []
trim_front_slashes (c ∷ s) = let rest = trim_front_slashes s in if code c == 47 then rest else c ∷ s

unfoldable pub trim_end_slashes : String → String
trim_end_slashes [] = []
trim_end_slashes (c ∷ s) =
    let rest = trim_end_slashes s in if (code c == 47) && str_eq rest "" then [] else c ∷ rest

abbrev pub is_some {ℓ} : {A : Type ℓ} → Option A → Bool
is_some none = false
is_some (some a) = true

abbrev pub has_prefix : String → String → Bool
has_prefix s prefix = is_some (cut_prefix prefix s)

abbrev connect_parts : List String → Bool
connect_parts (a ∷ᴸ b ∷ᴸ c ∷ᴸ nil) =
    if str_eq a "processes" then if str_eq b "" then false else str_eq c "connect" else false
connect_parts _ = false

unfoldable pub is_process_connect_path : String → Bool
is_process_connect_path rest =
    if has_prefix rest "processes/"
    then connect_parts (split_slashes (trim_end_slashes (trim_front_slashes rest)))
    else false

-- The identifier behind the first dash of the first label: 46 is a dot and 45 a dash.
abbrev pub id_of_label : String × Option String → String
id_of_label (port, none) = ""
id_of_label (port, some id) = if str_eq port "" then "" else id

unfoldable pub sandbox_id_from_hostname : String → String
sandbox_id_from_hostname hostname = id_of_label (split_two 45 (split_two 46 hostname).0)

module _ (lib : HostLib) where
  unfoldable pub sandbox_id_from_host : String → String
  sandbox_id_from_host host = elim (lib.split_host_port host) [
    | none ↦ sandbox_id_from_hostname host
    | some parsed ↦ sandbox_id_from_hostname parsed.0
  ]

  unfoldable pub sandbox_id_from_request : ProxyRequest → String
  sandbox_id_from_request r =
      if str_eq r.header_id ""
      then if str_eq r.query_id "" then sandbox_id_from_host r.host else r.query_id
      else r.header_id

pub data ProxyError : Type 0 where
  unsupported_route : String → ProxyError
  store_not_configured : ProxyError
  sandbox_not_found no_active_network_slot : String → ProxyError
  store_failed : StoreError → ProxyError
  bad_network : NetError → ProxyError
  bad_boxd_address : ProxyError

unfoldable pub boxd_path_from_sandbox_rest : String → Result ProxyError String
boxd_path_from_sandbox_rest rest =
    if str_eq rest "processes"
    then ok "/processes"
    else if has_prefix rest "processes/"
    then ok ("/" ++ rest)
    else if has_prefix rest "process.Process/"
    then ok ("/" ++ rest)
    else err (unsupported_route rest)

-- Where a request goes: the sandbox and the path without its slash.
pub data Route : Type 0 where
  not_found_route : Route
  web_socket_route http_route : String → String → Route

abbrev pub trim_slash : String → String
trim_slash path = elim (cut_prefix "/" path) [ none ↦ path | some rest ↦ rest ]

unfoldable pub route_rest : String → String → Route
route_rest id rest =
    if is_process_connect_path rest
    then web_socket_route id rest
    else if str_eq rest "processes" || has_prefix rest "processes/"
    then http_route id rest
    else if has_prefix rest "process.Process/"
    then http_route id rest
    else not_found_route

unfoldable pub handle_sandbox : HostLib → ProxyRequest → Route
handle_sandbox lib r =
    let id = sandbox_id_from_request lib r in
    let rest = trim_slash r.path in
    if str_eq id "" || str_eq rest "" then not_found_route else route_rest id rest
