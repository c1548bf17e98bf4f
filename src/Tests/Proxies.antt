-- ===== src/Tests/Proxies.antt =====
-- Requests to the proxy, and the addresses of two sandboxes.
use novita_box.Boxproxy.{trim_front_slashes}
use novita_box.Boxproxy.{trim_end_slashes}
use novita_box.Boxproxy.{split_slashes}
use novita_box.Boxproxy.{is_process_connect_path}
use novita_box.Boxproxy.{route_rest}
use novita_box.Boxproxy.{cut_prefix}
use novita_box.Boxproxy.{split_two}
use novita_box.Boxproxy.{sandbox_id_from_host}
use novita_box.Boxproxy.{sandbox_id_from_request}
use novita_box.Common.{◌≡◌, refl, String, none}
use Prim.Native.String.{◌∷◌, ◌++◌}
use novita_box.Store.Records.{Db, empty_db}
use novita_box.Store.Request.{after_all}
use novita_box.Network.Net.{indexed_ip}
use novita_box.Boxproxy.{
  HostLib, ProxyRequest, web_socket_route, handle_sandbox, sandbox_id_from_hostname,
}
use novita_box.Boxproxy.Routes.{dash, dot, sandbox_id_from_hostname_lem}
use novita_box.Boxproxy.Targets.{proxy_indexed_ip}
use novita_box.Boxproxy.Addresses.{proxy_indexed_ip-eq-indexed_ip}
use novita_box.Tests.Json.{tagged_json}
use novita_box.Tests.Stores.{slot_requests}
use novita_box.Tests.Net.{binary_net, binary_net-NetLaws}
use novita_box.Tests.Networks.{host_cidr}

abbrev no_port : HostLib
no_port = record { split_host_port = λ host. none; join_host_port = λ host port. host }

abbrev by_host : ProxyRequest
by_host = record {
  header_id = "";
  query_id = "";
  host = "49983-sbx-1.example.com";
  path = "/processes/p/connect";
}

connect_route : handle_sandbox no_port by_host ≡ web_socket_route "sbx-1" "processes/p/connect"
unfolding handle_sandbox sandbox_id_from_request sandbox_id_from_host sandbox_id_from_hostname
    split_two cut_prefix route_rest is_process_connect_path split_slashes trim_end_slashes
    trim_front_slashes
connect_route = refl

sandbox_id_from_hostname_lem_example :
    sandbox_id_from_hostname (("49983" ++ (dash ∷ "sbx-1")) ++ (dot ∷ "example.com")) ≡ "sbx-1"
sandbox_id_from_hostname_lem_example =
    sandbox_id_from_hostname_lem "49983" "sbx-1" "example.com" refl refl refl refl

proxy_indexed_ip-eq-indexed_ip_example :
    proxy_indexed_ip binary_net host_cidr 7 ≡ indexed_ip binary_net host_cidr 7
proxy_indexed_ip-eq-indexed_ip_example =
    proxy_indexed_ip-eq-indexed_ip binary_net binary_net-NetLaws host_cidr 7

abbrev rows : Db
rows = after_all tagged_json slot_requests empty_db
