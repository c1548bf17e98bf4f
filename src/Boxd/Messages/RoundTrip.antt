-- ===== src/Boxd/Messages/RoundTrip.antt =====
-- The process configuration that the agent writes is what its reader makes of it.
use mathlib.Core.List.{append_assoc, append-nil}
use novita_box.Common.{
  ℕ, ◌+◌, ◌*◌, ◌^◌, ◌≤◌, ◌<◌, ◌≡◌, refl, sym, ap, ◌∙◌, Bool, true, false, Option, none, some, List,
  [], ◌∷◌, ◌++◌, length, length-append, arith, if◌then◌else◌, Result, ok, ◌>>=◌,
}
use novita_box.Boxd.Wire.{
  Bytes, proto_varint, proto_bytes_field, proto_string_field, bytes_field, WireError,
  walk_proto_fields,
}
use novita_box.Boxd.Wire.Walking.{walk-proto_bytes_field, walk-last_bytes_field, walk-nil}
use novita_box.Boxd.Messages.{ConnectProcessConfig}
use novita_box.Boxd.Messages.Requests.{
  eq_bytes, set_entry, map_entry_field, unmarshal_map_entry, process_config_field, empty_config,
  unmarshal_process_config,
}
use novita_box.Boxd.Messages.Responses.{
  string_field_if_set, optional_string_field, marshal_args, marshal_envs, marshal_process_config,
}

-- A message that a Go program can hold.
abbrev pub IsU64 : Bytes → Type 0
IsU64 bs = length bs < 2 ^ 64

append-IsU64 : (p q : Bytes) → IsU64 (p ++ q) → IsU64 p × IsU64 q
append-IsU64 p q h = omega (arith, length-append p q)

pub length-proto_bytes_field : (n : ℕ) (v : Bytes) → length v ≤ length (proto_bytes_field n v)
unfolding proto_bytes_field
length-proto_bytes_field n v = omega (
  arith,
  length-append (proto_varint (n * 8 + 2)) (proto_varint (length v) ++ v),
  length-append (proto_varint (length v)) v,
)

pub proto_bytes_field-IsU64 : (n : ℕ) (v : Bytes) → IsU64 (proto_bytes_field n v) → IsU64 v
proto_bytes_field-IsU64 n v h = omega (arith, length-proto_bytes_field n v)

-- No key of the entries is among those before it.
abbrev has_key : Bytes → List (Bytes × Bytes) → Bool
has_key key [] = false
has_key key ((k, v) ∷ entries) = if eq_bytes k key then true else has_key key entries

abbrev IsFresh : List (Bytes × Bytes) → List (Bytes × Bytes) → Type 0
IsFresh before [] = Unit
IsFresh before ((k, v) ∷ entries) =
    (has_key k before ≡ false) × IsFresh (before ++ ((k, v) ∷ [])) entries

-- The entries of a map have different keys.
abbrev pub IsMap : List (Bytes × Bytes) → Type 0
IsMap = IsFresh []

set_entry_lem :
    (k v : Bytes) (entries : List (Bytes × Bytes))
    → has_key k entries ≡ false
    → set_entry k v entries ≡ entries ++ ((k, v) ∷ [])
unfolding set_entry
set_entry_lem k v [] h = refl
set_entry_lem k v ((a, b) ∷ entries) h = ground (arith, set_entry_lem k v entries)

unmarshal_map_entry_lem :
    (k v : Bytes)
    → IsU64 k
    → IsU64 v
    → unmarshal_map_entry (proto_string_field 1 k ++ proto_string_field 2 v) ≡ ok (k, v)
unfolding unmarshal_map_entry map_entry_field proto_string_field
unmarshal_map_entry_lem k v hk hv =
    walk-proto_bytes_field map_entry_field 1 k (proto_bytes_field 2 v) ([], []) (omega arith) hk
    ∙ walk-last_bytes_field map_entry_field 2 v (k, []) (omega arith) hv

entry-IsU64 :
    (k v : Bytes) → IsU64 (proto_string_field 1 k ++ proto_string_field 2 v) → IsU64 k × IsU64 v
unfolding proto_string_field
entry-IsU64 k v h =
    let (hk, hv) = append-IsU64 (proto_bytes_field 1 k) (proto_bytes_field 2 v) h in
    (proto_bytes_field-IsU64 1 k hk, proto_bytes_field-IsU64 2 v hv)

abbrev walk_config : Bytes → ConnectProcessConfig → Result WireError ConnectProcessConfig
walk_config = walk_proto_fields process_config_field

walk_config-marshal_args :
    (args : List Bytes) (rest : Bytes) (cfg : ConnectProcessConfig)
    → IsU64 (marshal_args args)
    → walk_config (marshal_args args ++ rest) cfg
      ≡ walk_config rest (record cfg { args = cfg.args ++ args })
unfolding marshal_args proto_string_field process_config_field walk_proto_fields
walk_config-marshal_args [] rest cfg h =
    ap (λ (xs : List Bytes). walk_config rest (record cfg { args = xs }))
      (sym (append-nil cfg.args))
walk_config-marshal_args (arg ∷ args) rest cfg h =
    let (ha, hs) = append-IsU64 (proto_bytes_field 2 arg) (marshal_args args) h in
    let more : Bytes = marshal_args args ++ rest in
    ap (λ (p : Bytes). walk_config p cfg)
      (append_assoc (proto_bytes_field 2 arg) (marshal_args args) rest)
    ∙ walk-proto_bytes_field process_config_field 2 arg more cfg (omega arith)
        (proto_bytes_field-IsU64 2 arg ha)
    ∙ walk_config-marshal_args args rest (record cfg { args = cfg.args ++ (arg ∷ []) }) hs
    ∙ ap (λ (xs : List Bytes). walk_config rest (record cfg { args = xs }))
        (append_assoc cfg.args (arg ∷ []) args)

process_config_field_env :
    (k v : Bytes) (cfg : ConnectProcessConfig)
    → IsU64 k
    → IsU64 v
    → has_key k cfg.envs ≡ false
    → process_config_field (bytes_field 3 (proto_string_field 1 k ++ proto_string_field 2 v)) cfg
      ≡ ok (record cfg { envs = cfg.envs ++ ((k, v) ∷ []) })
unfolding process_config_field
process_config_field_env k v cfg hk hv fresh =
    rw (unmarshal_map_entry_lem k v hk hv, set_entry_lem k v cfg.envs fresh) refl

walk_config-marshal_envs :
    (envs : List (Bytes × Bytes)) (rest : Bytes) (cfg : ConnectProcessConfig)
    → IsU64 (marshal_envs envs)
    → IsFresh cfg.envs envs
    → walk_config (marshal_envs envs ++ rest) cfg
      ≡ walk_config rest (record cfg { envs = cfg.envs ++ envs })
unfolding marshal_envs
walk_config-marshal_envs [] rest cfg h fresh =
    ap (λ (xs : List (Bytes × Bytes)). walk_config rest (record cfg { envs = xs }))
      (sym (append-nil cfg.envs))
walk_config-marshal_envs ((k, v) ∷ envs) rest cfg h (new, fresh) =
    let entry : Bytes = proto_string_field 1 k ++ proto_string_field 2 v in
    let more : Bytes = marshal_envs envs ++ rest in
    let (he, hs) = append-IsU64 (proto_bytes_field 3 entry) (marshal_envs envs) h in
    let fits = proto_bytes_field-IsU64 3 entry he in
    let (hk, hv) = entry-IsU64 k v fits in
    ap (λ (p : Bytes). walk_config p cfg)
      (append_assoc (proto_bytes_field 3 entry) (marshal_envs envs) rest)
    ∙ walk-proto_bytes_field process_config_field 3 entry more cfg (omega arith) fits
    ∙ ap (λ r. r >>= walk_config more) (process_config_field_env k v cfg hk hv new)
    ∙ walk_config-marshal_envs envs rest (record cfg { envs = cfg.envs ++ ((k, v) ∷ []) }) hs fresh
    ∙ ap (λ (xs : List (Bytes × Bytes)). walk_config rest (record cfg { envs = xs }))
        (append_assoc cfg.envs ((k, v) ∷ []) envs)

walk_config-string_field_if_set :
    (cmd rest : Bytes)
    → IsU64 (string_field_if_set 1 cmd)
    → walk_config (string_field_if_set 1 cmd ++ rest) empty_config
      ≡ walk_config rest (record empty_config { cmd = cmd })
unfolding string_field_if_set proto_string_field walk_proto_fields process_config_field
walk_config-string_field_if_set [] rest h = refl
walk_config-string_field_if_set (b ∷ cmd) rest h =
    walk-proto_bytes_field process_config_field 1 (b ∷ cmd) rest empty_config (omega arith)
      (proto_bytes_field-IsU64 1 (b ∷ cmd) h)

walk_config-optional_string_field :
    (cwd : Option Bytes) (cfg : ConnectProcessConfig)
    → IsU64 (optional_string_field 4 cwd)
    → walk_config (optional_string_field 4 cwd) (record cfg { cwd = none })
      ≡ ok (record cfg { cwd = cwd })
unfolding optional_string_field proto_string_field process_config_field
walk_config-optional_string_field none cfg h = walk-nil process_config_field _
walk_config-optional_string_field (some dir) cfg h =
    walk-last_bytes_field process_config_field 4 dir _ (omega arith)
      (proto_bytes_field-IsU64 4 dir h)

-- A process configuration is read back from the bytes that were written for it: the command, its
-- arguments in order, the environment and the working directory, where the keys of the
-- environment differ and the message is shorter than 2 ^ 64 bytes.
pub unmarshal_process_config-marshal_process_config :
    (cfg : ConnectProcessConfig)
    → IsMap cfg.envs
    → IsU64 (marshal_process_config cfg)
    → unmarshal_process_config (marshal_process_config cfg) ≡ ok cfg
unfolding unmarshal_process_config marshal_process_config
unmarshal_process_config-marshal_process_config cfg distinct h =
    let (hc, h1) = append-IsU64 (string_field_if_set 1 cfg.cmd) _ h in
    let (ha, h2) = append-IsU64 (marshal_args cfg.args) _ h1 in
    let (he, hd) = append-IsU64 (marshal_envs cfg.envs) _ h2 in
    walk_config-string_field_if_set cfg.cmd _ hc
    ∙ walk_config-marshal_args cfg.args _ _ ha
    ∙ walk_config-marshal_envs cfg.envs _ _ he distinct
    ∙ walk_config-optional_string_field cfg.cwd cfg hd
