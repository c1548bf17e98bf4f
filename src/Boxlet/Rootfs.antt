-- ===== src/Boxlet/Rootfs.antt =====
-- internal/rootfs/overlaybd/provider.go, and the calls of it in internal/boxlet/server/services.go.
-- Closing a provider is left out: its error is dropped.
use Prim.Native.String.{◌++◌ as ◌++ˢ◌}
use novita_box.Common.{String, not, ◌||◌, [], ◌∷◌, str_eq, if◌then◌else◌}
use novita_box.Store.Records.{SandboxRecord}
use novita_box.Boxlet.Spec.{sandbox_dir}
use novita_box.Boxlet.Exec.{
  Env, Exec, ◌>>=◌, ◌>>◌, return, raise, ignore, on_error, call, missing_setting, open_provider,
  ensure_image, prepare_snapshot, snapshot_mounts, mount_snapshot, unmount_target, remove_snapshot,
  ResolvedImage,
}

pub record PrepareRequest : Type 0 where
  pub sandbox_id : String
  pub source_ref : String
  pub target : String

pub record Handle : Type 0 where
  pub snapshot_key : String
  pub source_ref : String
  pub source_digest : String
  pub parent : String
  pub target : String

abbrev pub provider_name : String
provider_name = "overlaybd"

unfoldable pub snapshot_key : String → String
snapshot_key sandbox_id = "novitabox-sandbox-" ++ˢ sandbox_id

abbrev nothing : Exec (Unit {0})
nothing = return tt

module _ (env : Env) where
  abbrev resolve : String → Exec ResolvedImage
  resolve ref = do call env (ensure_image ref); λ w. return (env.resolved w ref) w

  -- Provider.Prepare
  unfoldable pub prepare : PrepareRequest → Exec Handle
  unfolding snapshot_key
  prepare req =
      if str_eq req.sandbox_id "" || str_eq req.source_ref "" || str_eq req.target ""
      then raise missing_setting
      else do
        resolved ← resolve req.source_ref
        call env (prepare_snapshot (snapshot_key req.sandbox_id) resolved.parent)
        on_error (call env (mount_snapshot (snapshot_key req.sandbox_id) req.target))
            (ignore (call env (remove_snapshot (snapshot_key req.sandbox_id))))
        return (record {
          snapshot_key = snapshot_key req.sandbox_id;
          source_ref = req.source_ref;
          source_digest = resolved.reference;
          parent = resolved.parent;
          target = req.target;
        })

  unfoldable pub mount : Handle → Exec (Unit {0})
  mount handle = do
    call env (snapshot_mounts handle.snapshot_key)
    call env (mount_snapshot handle.snapshot_key handle.target)

  unfoldable pub unmount : Handle → Exec (Unit {0})
  unmount handle = call env (unmount_target handle.target)

  unfoldable pub remove : Handle → Exec (Unit {0})
  unfolding unmount
  remove handle = do unmount handle; call env (remove_snapshot handle.snapshot_key)

  unfoldable pub overlaybd_handle : SandboxRecord → Handle
  overlaybd_handle r = record {
    snapshot_key = r.rootfs_snapshot_key;
    source_ref = r.rootfs_source_ref;
    source_digest = "";
    parent = "";
    target = env.host.join (sandbox_dir env.host env.net env.digest env.cfg r.id ∷ "rootfs" ∷ []);
  }

  unfoldable pub mount_overlaybd_rootfs : SandboxRecord → Exec (Unit {0})
  mount_overlaybd_rootfs r =
      if not (str_eq r.rootfs_provider provider_name)
      then nothing
      else do call env open_provider; mount (overlaybd_handle r)

  unfoldable pub unmount_overlaybd_rootfs : SandboxRecord → Exec (Unit {0})
  unmount_overlaybd_rootfs r =
      if not (str_eq r.rootfs_provider provider_name)
      then nothing
      else do call env open_provider; unmount (overlaybd_handle r)

  unfoldable pub remove_overlaybd_rootfs : SandboxRecord → Exec (Unit {0})
  remove_overlaybd_rootfs r =
      if not (str_eq r.rootfs_provider provider_name) || str_eq r.rootfs_snapshot_key ""
      then nothing
      else do call env open_provider; remove (overlaybd_handle r)
