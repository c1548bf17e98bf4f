-- ===== src/Boxlet/Exec.antt =====
-- How a handler of internal/boxlet/server/services.go runs: on the database, and with calls of the
-- world outside (files, containerd, the network tools, the boxshim process, the agent), whose answers
-- the environment chooses from all that has been called before.
use novita_box.Common.{ℕ, String, Bool, true, false, List, ◌∷◌, Result, ok, err}
use novita_box.Common.Int.{ℤ}
use novita_box.Config.Types.{Config}
use novita_box.Store.Records.{StoreError, not_found, Db, Tx}
use novita_box.Network.Net.{NetLib, NetError, VethAddrs}
use novita_box.Network.Spec.{NetworkSpec}
use novita_box.Boxlet.Types.{Host, RuntimeType, RuntimeSpec}

pub data Effect : Type 0 where
  -- os.MkdirAll
  make_dir : String → Effect
  -- ensureAgentImage, after its first guard
  ensure_agent_image : Effect
  -- linkOrCopyFile, cloneOrCopyPath and cloneOrCopyFile
  link_or_copy_file clone_or_copy_path clone_or_copy_file : String → String → Effect
  -- overlaybd.NewContainerdProvider
  open_provider : Effect
  -- the backend and the mounter of the overlaybd provider
  ensure_image : String → Effect
  prepare_snapshot : String → String → Effect
  snapshot_mounts : String → Effect
  mount_snapshot : String → String → Effect
  unmount_target : String → Effect
  remove_snapshot : String → Effect
  -- injectGVisorBoxdBinary
  inject_boxd : String → Effect
  -- the commands of Prepare and of Cleanup
  build_namespace : RuntimeType → NetworkSpec → VethAddrs → Effect
  remove_namespace : NetworkSpec → Effect
  -- ensureShim and dialShim, by the path of the socket
  ensure_shim : String → String → Effect
  dial_shim : String → Effect
  -- the calls of the boxshim service
  create_runtime resume_runtime start_runtime : RuntimeSpec → Effect
  pause_runtime kill_runtime : String → Effect
  stop_runtime reboot_runtime : String → ℕ → Effect
  -- the requests of ensureSandboxAgentCurrent, by the host and the port of the agent
  refresh_agent : String → String → Effect
  terminate_shim_process : String → Effect
  remove_sandbox_directory : String → Effect

pub data ServiceError : Type 0 where
  -- codes.InvalidArgument
  invalid_argument : ServiceError
  -- codes.NotFound, "sandbox not found"
  sandbox_not_found : ServiceError
  -- codes.AlreadyExists
  already_exists : ServiceError
  store_failed : StoreError → ServiceError
  net_failed : NetError → ServiceError
  effect_failed : Effect → ServiceError
  -- a setting or an argument that a step needs is empty
  missing_setting : ServiceError
  -- "parse boxd address"
  bad_boxd_address : ServiceError

-- `trace`: the calls, the latest first, with whether they succeeded.
pub record World : Type 0 where
  pub db : Db
  pub trace : List (Effect × Bool)

-- What Backend.EnsureImage returns.
pub record ResolvedImage : Type 0 where
  pub reference : String
  pub parent : String

pub record Env : Type 0 where
  pub cfg : Config
  pub host : Host
  pub net : NetLib
  -- the SHA-1 in hashName
  pub digest : List String → String
  pub answer : World → Effect → Bool
  -- the clock in seconds, and in nanoseconds
  pub clock : World → ℤ
  pub nanoseconds : World → ℕ
  pub resolved : World → String → ResolvedImage
  -- what ensureAgentImage returns
  pub agent_image : World → String

abbrev pub Exec : Type 0 → Type 0
Exec A = World → Result ServiceError A × World

unfoldable pub next :
    {A B : Type 0} → Result ServiceError A × World → (A → Exec B) → Result ServiceError B × World
next (ok a, w) k = k a w
next (err e, w) k = (err e, w)

infixl 5 ◌>>=◌
abbrev pub ◌>>=◌ : {A B : Type 0} → Exec A → (A → Exec B) → Exec B
(m >>= k) w = next (m w) k

infixl 5 ◌>>◌
abbrev pub ◌>>◌ : {A B : Type 0} → Exec A → Exec B → Exec B
(m >> n) w = next (m w) (λ a. n)

abbrev pub return : {A : Type 0} → A → Exec A
return a w = (ok a, w)

abbrev pub raise : {A : Type 0} → ServiceError → Exec A
raise e w = (err e, w)

-- `_ = f()`
abbrev pub ignore : {A : Type 0} → Exec A → Exec (Unit {0})
ignore m w = (ok tt, (m w).1)

unfoldable pub cleaned :
    {A : Type 0} → Result ServiceError A × World → Exec (Unit {0}) → Result ServiceError A × World
cleaned (ok a, w) cleanup = (ok a, w)
cleaned (err e, w) cleanup = (err e, (cleanup w).1)

-- `if err != nil { cleanup; return err }`, and a deferred function that runs unless all succeeded
abbrev pub on_error : {A : Type 0} → Exec A → Exec (Unit {0}) → Exec A
on_error m cleanup w = cleaned (m w) cleanup

unfoldable pub from_net : {A : Type 0} → Result NetError A → Exec A
from_net (ok a) w = (ok a, w)
from_net (err e) w = (err (net_failed e), w)

unfoldable pub from_store : {A : Type 0} → Result StoreError A → Result ServiceError A
from_store (ok a) = ok a
from_store (err e) = err (store_failed e)

-- a read of the store
abbrev pub query : {A : Type 0} → (Db → Result StoreError A) → Exec A
query f w = (from_store (f w.db), w)

unfoldable pub written : {A : Type 0} → Tx A → World → Result ServiceError A × World
unfolding from_store
written (r, db) w = (from_store r, record w { db = db })

-- `errors.Is(err, store.ErrNotFound)` turned into a status
unfoldable pub missing_status :
    {A : Type 0} → Result ServiceError A × World → Result ServiceError A × World
missing_status (err (store_failed not_found), w) = (err sandbox_not_found, w)
missing_status (r, w) = (r, w)

abbrev pub or_missing : {A : Type 0} → Exec A → Exec A
or_missing m w = missing_status (m w)

module _ (env : Env) where
  -- a change of the store
  abbrev pub change : {A : Type 0} → (ℤ → Db → Tx A) → Exec A
  change f w = written (f (env.clock w) w.db) w

  unfoldable pub answered : Bool → Effect → World → Result ServiceError (Unit {0}) × World
  answered true e w = (ok tt, record w { trace = (e, true) ∷ w.trace })
  answered false e w = (err (effect_failed e), record w { trace = (e, false) ∷ w.trace })

  abbrev pub call : Effect → Exec (Unit {0})
  call e w = answered (env.answer w e) e w
