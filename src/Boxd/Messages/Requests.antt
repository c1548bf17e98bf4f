-- ===== src/Boxd/Messages/Requests.antt =====
-- The readers of protobuf requests (unmarshalProto… of internal/boxd/server/process.go). Each is
-- the walk over the fields with the callback of the source; a number that a reader does not know
-- is passed over.
use novita_box.Common.{
  ℕ, ◌%◌, ◌^◌, Bool, true, false, not, Option, none, some, List, [], ◌∷◌, ◌++◌, ◌==◌, if◌then◌else◌,
  Result, ok, ◌>>=◌,
}
use novita_box.Boxd.Wire.{Bytes, Field, WireError, walk_proto_fields}
use novita_box.Boxd.Base64.{is_empty, encode_to_string, decode_string}
use novita_box.Boxd.Messages.{
  ConnectProcessConfig, ConnectPtySize, ConnectPty, ConnectProcessSelector, ConnectProcessInput,
  ConnectStartRequest, ConnectConnectRequest, ConnectUpdateRequest, ConnectSendInputRequest,
  ConnectSendSignalRequest,
}

abbrev pub eq_bytes : Bytes → Bytes → Bool
eq_bytes [] [] = true
eq_bytes (a ∷ more) (b ∷ bs) = if a == b then eq_bytes more bs else false
eq_bytes _ _ = false

-- `m[key] = value` on the entries of a map.
unfoldable pub set_entry : Bytes → Bytes → List (Bytes × Bytes) → List (Bytes × Bytes)
set_entry key value [] = (key, value) ∷ []
set_entry key value ((k, v) ∷ entries) =
    let rest = set_entry key value entries in
    if eq_bytes k key then (key, value) ∷ entries else (k, v) ∷ rest

unfoldable pub map_entry_field : Field → Bytes × Bytes → Result WireError (Bytes × Bytes)
map_entry_field f (key, val) =
    ok (
      if f.number == 1
      then (f.value, val)
      else if f.number == 2
      then (key, f.value)
      else (key, val))

unfoldable pub unmarshal_map_entry : Bytes → Result WireError (Bytes × Bytes)
unmarshal_map_entry payload = walk_proto_fields map_entry_field payload ([], [])

unfoldable pub process_config_field :
    Field → ConnectProcessConfig → Result WireError ConnectProcessConfig
process_config_field f cfg =
    if f.number == 1
    then ok (record cfg { cmd = f.value })
    else if f.number == 2
    then ok (record cfg { args = cfg.args ++ (f.value ∷ []) })
    else if f.number == 3
    then (unmarshal_map_entry f.value >>= λ entry.
        ok (record cfg { envs = set_entry entry.0 entry.1 cfg.envs }))
    else if f.number == 4
    then ok (record cfg { cwd = some f.value })
    else ok cfg

abbrev pub empty_config : ConnectProcessConfig
empty_config = record { cmd = []; args = []; envs = []; cwd = none }

-- A map without entries is turned into nil at the end, which no caller tells apart.
unfoldable pub unmarshal_process_config : Bytes → Result WireError ConnectProcessConfig
unmarshal_process_config payload = walk_proto_fields process_config_field payload empty_config

unfoldable pub pty_size_field : Field → ConnectPtySize → Result WireError ConnectPtySize
pty_size_field f size = ok (
    if f.number == 1
    then record size { cols = f.varint % 2 ^ 32 }
    else if f.number == 2
    then record size { rows = f.varint % 2 ^ 32 }
    else size)

unfoldable pub unmarshal_pty_size : Bytes → Result WireError ConnectPtySize
unmarshal_pty_size payload =
    walk_proto_fields pty_size_field payload (record { cols = 0; rows = 0 })

unfoldable pub pty_field : Field → ConnectPty → Result WireError ConnectPty
pty_field f pty =
    if f.number == 1
    then (unmarshal_pty_size f.value >>= λ size. ok (record { size = some size }))
    else ok pty

unfoldable pub unmarshal_pty : Bytes → Result WireError ConnectPty
unmarshal_pty payload = walk_proto_fields pty_field payload (record { size = none })

unfoldable pub selector_field :
    Field → ConnectProcessSelector → Result WireError ConnectProcessSelector
selector_field f s = ok (
    if f.number == 1
    then record s { pid = f.varint % 2 ^ 32 }
    else if f.number == 2
    then record s { tag = f.value }
    else s)

abbrev pub empty_selector : ConnectProcessSelector
empty_selector = record { pid = 0; tag = [] }

unfoldable pub unmarshal_selector :
    Bytes → ConnectProcessSelector → Result WireError ConnectProcessSelector
unmarshal_selector = walk_proto_fields selector_field

unfoldable pub selector_message_field :
    ℕ → Field → ConnectProcessSelector → Result WireError ConnectProcessSelector
selector_message_field number f s =
    if not (f.number == number) then ok s else unmarshal_selector f.value s

unfoldable pub unmarshal_selector_message :
    Bytes → ℕ → ConnectProcessSelector → Result WireError ConnectProcessSelector
unmarshal_selector_message payload number =
    walk_proto_fields (selector_message_field number) payload

unfoldable pub process_input_field :
    Field → ConnectProcessInput → Result WireError ConnectProcessInput
process_input_field f input = ok (
    if f.number == 1
    then record input { stdin = encode_to_string f.value }
    else if f.number == 2
    then record input { pty = encode_to_string f.value }
    else input)

unfoldable pub unmarshal_process_input : Bytes → Result WireError ConnectProcessInput
unmarshal_process_input payload =
    walk_proto_fields process_input_field payload (record { stdin = []; pty = [] })

unfoldable pub start_request_field :
    Field → ConnectStartRequest → Result WireError ConnectStartRequest
start_request_field f req =
    if f.number == 1
    then (unmarshal_process_config f.value >>= λ cfg. ok (record req { process = some cfg }))
    else if f.number == 2
    then (unmarshal_pty f.value >>= λ pty. ok (record req { pty = some pty }))
    else if f.number == 3
    then ok (record req { tag = some f.value })
    else if f.number == 4
    then ok (record req { stdin = some (not (f.varint == 0)) })
    else ok req

unfoldable pub unmarshal_start_request :
    Bytes → ConnectStartRequest → Result WireError ConnectStartRequest
unmarshal_start_request = walk_proto_fields start_request_field

unfoldable pub update_request_field :
    Field → ConnectUpdateRequest → Result WireError ConnectUpdateRequest
update_request_field f req =
    if f.number == 1
    then (unmarshal_selector f.value empty_selector >>= λ s. ok (record req { process = some s }))
    else if f.number == 2
    then (unmarshal_pty f.value >>= λ pty. ok (record req { pty = some pty }))
    else ok req

unfoldable pub unmarshal_update_request :
    Bytes → ConnectUpdateRequest → Result WireError ConnectUpdateRequest
unmarshal_update_request = walk_proto_fields update_request_field

unfoldable pub send_input_request_field :
    Field → ConnectSendInputRequest → Result WireError ConnectSendInputRequest
send_input_request_field f req =
    if f.number == 1
    then (unmarshal_selector f.value empty_selector >>= λ s. ok (record req { process = some s }))
    else if f.number == 2
    then (unmarshal_process_input f.value >>= λ input. ok (record req { input = some input }))
    else ok req

unfoldable pub unmarshal_send_input_request :
    Bytes → ConnectSendInputRequest → Result WireError ConnectSendInputRequest
unmarshal_send_input_request = walk_proto_fields send_input_request_field

unfoldable pub send_signal_request_field :
    Field → ConnectSendSignalRequest → Result WireError ConnectSendSignalRequest
send_signal_request_field f req =
    if f.number == 1
    then (unmarshal_selector f.value empty_selector >>= λ s. ok (record req { process = some s }))
    else if f.number == 2
    then ok (record req { signal = f.varint % 2 ^ 32 })
    else ok req

unfoldable pub unmarshal_send_signal_request :
    Bytes → ConnectSendSignalRequest → Result WireError ConnectSendSignalRequest
unmarshal_send_signal_request = walk_proto_fields send_signal_request_field

unfoldable pub unmarshal_connect_request : Bytes → Result WireError ConnectConnectRequest
unmarshal_connect_request payload =
    unmarshal_selector_message payload 1 empty_selector >>= λ s. ok (record { process = some s })

-- The bytes of an input: those for the terminal before those for stdin. `none` is the error.
unfoldable pub decode_connect_input : ConnectProcessInput → Option Bytes
decode_connect_input input =
    let raw = if is_empty input.pty then input.stdin else input.pty in
    let (payload, decoded) = decode_string raw in
    if is_empty raw then some [] else if decoded then some payload else none
