-- ===== src/Tests/Boxlets.antt =====
-- A host on which every call succeeds but those that a test picks, and sandboxes brought up on it.
use Prim.Native.String.{◌++◌ as ◌++ˢ◌}
use novita_box.Common.{◌≡◌, refl, String, Bool, true, false, none, some, List, [], ◌∷◌, ok, str_eq}
use novita_box.Common.Int.{pos}
use novita_box.Config.Types.{default_config}
use novita_box.Store.Table.{find}
use novita_box.Store.Records.{running, failed}
use novita_box.Network.Net.{max_slots, network_slots_for_cidr}
use novita_box.Boxlet.Types.{Host, container, CreateSandboxRequest}
use novita_box.Boxlet.Exec.{Env, World, Effect, dial_shim}
use novita_box.Boxlet.Sandboxes.{resume_sandbox, start_sandbox}
use novita_box.Boxlet.Create.{create_sandbox_runtime}
use novita_box.Boxlet.Holds.{Holds}
use novita_box.Boxlet.Logic.{Ends}
use novita_box.Boxlet.Running.{IsRunning, resume_sandbox-Ends, start_sandbox-Ends}
use novita_box.Boxlet.Creating.{IsCreated, IsRefused, create_sandbox_runtime-Ends}
use novita_box.Common.{◌⊎◌}
use novita_box.Boxlet.Acting.{reboot_sandbox-Ends, stop_sandbox-Ends}
use novita_box.Boxlet.Sandboxes.{stop_sandbox, reboot_sandbox}
use novita_box.Store.Records.{stopped}
use novita_box.Common.{◌≤◌, arith}
use novita_box.Boxlet.Types.{SandboxInfo}
use novita_box.Boxlet.Ending.{IsGone, kill_sandbox-Ends}
use novita_box.Boxlet.Sandboxes.{kill_sandbox}
use novita_box.Store.Records.{killing}
use novita_box.Tests.Json.{tagged_json}
use novita_box.Tests.Net.{binary_net, binary_net-NetLaws}
use novita_box.Tests.Stores.{full, full-IsValid, sandbox}

abbrev joined : List String → String
joined [] = ""
joined (x ∷ xs) = "/" ++ˢ (x ++ˢ joined xs)

abbrev host : Host
host = record {
  join = joined;
  dir = λ p. p;
  to_lower = λ s. s;
  trim_space = λ s. s;
  equal_fold = str_eq;
  port_of = λ a. some "49983";
  runtime_type_string = λ n. "container";
  snapshot_id = λ id n. "snap-" ++ˢ id;
}

-- no shim answers a dial
abbrev no_dial : Effect → Bool
no_dial (dial_shim path) = false
no_dial _ = true

abbrev on_host : (Effect → Bool) → Env
on_host answer = record {
  cfg = default_config;
  host = host;
  net = binary_net;
  digest = joined;
  answer = λ w e. answer e;
  clock = λ w. pos 50;
  nanoseconds = λ w. 50;
  resolved = λ w ref. record { reference = ref; parent = "p" };
  agent_image = λ w. "/agents/boxd.ext4";
}

abbrev ready : World
ready = record { db = full; trace = [] }

default_slots :
    max_slots binary_net default_config.network.host_access_cidr default_config.network.veth_cidr
    ≡ ok 32767
unfolding max_slots network_slots_for_cidr default_config
default_slots = refl

network_is_on : default_config.network.enabled ≡ true
unfolding default_config
network_is_on = refl

b-Holds : Holds "b" running 0 full
unfolding find
b-Holds = record {
  valid = full-IsValid;
  row = sandbox "b" 0;
  here = refl;
  state = refl;
  slot = refl;
}

resume_sandbox-Ends_example :
    Ends
      (IsRunning (on_host no_dial) binary_net-NetLaws 32767 network_is_on default_slots "b")
      (λ w'. Holds "b" failed 0 w'.db)
      (resume_sandbox (on_host no_dial) "b" ready)
resume_sandbox-Ends_example =
    resume_sandbox-Ends (on_host no_dial) binary_net-NetLaws 32767 network_is_on default_slots "b"
      running ready b-Holds

start_sandbox-Ends_example :
    Ends
      (IsRunning (on_host (λ e. true)) binary_net-NetLaws 32767 network_is_on default_slots "b")
      (λ w'. Holds "b" failed 0 w'.db)
      (start_sandbox (on_host (λ e. true)) "b" ready)
start_sandbox-Ends_example =
    start_sandbox-Ends (on_host (λ e. true)) binary_net-NetLaws 32767 network_is_on default_slots
      "b" running ready b-Holds

abbrev request : CreateSandboxRequest
request = record {
  sandbox_id = "new";
  runtime_type = container;
  template_id = "";
  image_id = "";
  snapshot_id = "";
  rootfs_source = some (record { provider = "overlaybd"; image = "img"; pull_mode = "lazy" });
  runtime_spec = none;
}

create_sandbox_runtime-Ends_example :
    Ends
      (IsCreated
        (on_host no_dial)
        tagged_json
        binary_net-NetLaws
        32767
        network_is_on
        default_slots
        "new")
      (IsRefused
        (on_host no_dial)
        tagged_json
        binary_net-NetLaws
        32767
        network_is_on
        default_slots
        "new"
        full)
      (create_sandbox_runtime (on_host no_dial) tagged_json request ready)
create_sandbox_runtime-Ends_example =
    create_sandbox_runtime-Ends (on_host no_dial) tagged_json binary_net-NetLaws 32767 network_is_on
      default_slots request ready full-IsValid

kill_sandbox-Ends_example :
    Ends
      (λ a w'. IsGone "b" w'.db)
      (λ w'. Holds "b" killing 0 w'.db ⊎ IsGone "b" w'.db)
      (kill_sandbox (on_host no_dial) "b" ready)
kill_sandbox-Ends_example = kill_sandbox-Ends (on_host no_dial) "b" running 0 ready b-Holds

zero_le : 0 ≤ 32767
zero_le = omega arith

reboot_sandbox-Ends_example :
    Ends
      (λ (i : SandboxInfo) w'. (i.state ≡ running) × Holds "b" running 0 w'.db)
      (λ w'. Holds "b" failed 0 w'.db)
      (reboot_sandbox (on_host no_dial) "b" 10 ready)
reboot_sandbox-Ends_example =
    reboot_sandbox-Ends (on_host no_dial) binary_net-NetLaws 32767 network_is_on default_slots "b"
      running 0 10 ready zero_le b-Holds

stop_sandbox-Ends_example :
    Ends
      (λ (i : SandboxInfo) w'. (i.state ≡ stopped) × Holds "b" stopped 0 w'.db)
      (λ w'. Holds "b" failed 0 w'.db ⊎ Holds "b" stopped 0 w'.db)
      (stop_sandbox (on_host (λ e. true)) "b" 10 ready)
stop_sandbox-Ends_example =
    stop_sandbox-Ends (on_host (λ e. true)) binary_net-NetLaws 32767 network_is_on default_slots "b"
      running 0 10 ready zero_le b-Holds
