-- ===== src/Boxproxy/Targets.antt =====
-- internal/boxproxy/server/server.go: the address of a sandbox and the URLs of its agent.

use novita_box.Common.{
  ℕ, ◌+◌, not, ◌||◌, Option, none, some, String, leb, ◌==◌, if◌then◌else◌, Result, ok, err, ◌>>=◌,
  or_error,
}
use novita_box.Store.Records.{StoreError, not_found, SandboxRecord, Db}
use novita_box.Store.Sandbox.{get_sandbox}
use novita_box.Network.Net.{NetLib, NetError, bad_cidr, not_ipv4, index_outside, total_ips, u32}
use novita_box.Boxproxy.{
  HostLib, ProxyError, store_not_configured, sandbox_not_found, no_active_network_slot,
  store_failed, bad_network, bad_boxd_address, boxd_path_from_sandbox_rest,
}

-- url.URL with the fields that are set.
pub record Url : Type 0 where
  pub scheme : String
  pub host : String
  pub path : String
  pub raw_query : String

module _ (net : NetLib) where
  -- The copy of the proxy: it does not ask for the length of the mask.
  unfoldable pub proxy_indexed_ip : String → ℕ → Result NetError String
  proxy_indexed_ip cidr index = do
    network ← or_error bad_cidr (net.parse_cidr cidr)
    base ← or_error not_ipv4 network.ip4
    if not (network.bits == 32)
        then err not_ipv4
        else if (index == 0) || leb (total_ips network) index
        then err index_outside
        else ok (net.ip_string (u32 (base + index)))

  abbrev network_result : Result NetError String → Result ProxyError String
  network_result (ok ip) = ok ip
  network_result (err e) = err (bad_network e)

  unfoldable pub ip_of_record : String → String → SandboxRecord → Result ProxyError String
  ip_of_record cidr id r =
      if r.network_slot == 0
      then err (no_active_network_slot id)
      else network_result (proxy_indexed_ip cidr r.network_slot)

  unfoldable pub ip_of_answer :
      String → String → Result StoreError SandboxRecord → Result ProxyError String
  ip_of_answer cidr id (err not_found) = err (sandbox_not_found id)
  ip_of_answer cidr id (err e) = err (store_failed e)
  ip_of_answer cidr id (ok r) = ip_of_record cidr id r

  -- `none` is a proxy without a store.
  unfoldable pub host_access_ip : String → Option Db → String → Result ProxyError String
  host_access_ip cidr none id = err store_not_configured
  host_access_ip cidr (some db) id = ip_of_answer cidr id (get_sandbox id db)

  -- The port of the configured address of boxd, behind the address of the sandbox.
  unfoldable pub boxd_host :
      HostLib → String → String → Option Db → String → Result ProxyError String
  boxd_host lib cidr boxd_addr db id = do
    host_ip ← host_access_ip cidr db id
    parsed ← or_error bad_boxd_address (lib.split_host_port boxd_addr)
    ok (lib.join_host_port host_ip parsed.1)

  unfoldable pub boxd_url :
      String
      → HostLib
      → String
      → String
      → Option Db
      → String
      → String
      → String
      → Result ProxyError Url
  boxd_url scheme lib cidr boxd_addr db id rest query = do
    path ← boxd_path_from_sandbox_rest rest
    host ← boxd_host lib cidr boxd_addr db id
    ok (record { scheme = scheme; host = host; path = path; raw_query = query })

  unfoldable pub boxd_http_url :
      HostLib → String → String → Option Db → String → String → String → Result ProxyError Url
  boxd_http_url = boxd_url "http"

  -- `query` is what url.Values.Encode makes of the query.
  unfoldable pub boxd_web_socket_url :
      HostLib → String → String → Option Db → String → String → String → Result ProxyError Url
  boxd_web_socket_url = boxd_url "ws"
