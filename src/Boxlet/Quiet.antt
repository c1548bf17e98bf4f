-- ===== src/Boxlet/Quiet.antt =====
-- The steps of a handler that leave the database as it is.
use novita_box.Common.{String, Option, none, some}
use novita_box.Store.Records.{SandboxRecord}
use novita_box.Network.Spec.{NetworkSpec}
use novita_box.Boxlet.Types.{RuntimeType, RuntimeSpec}
use novita_box.Boxlet.Exec.{
  Env, missing_setting, ensure_agent_image, bad_boxd_address, refresh_agent,
}
use novita_box.Boxlet.Steps.{
  prepare_network, ensure_sandbox_agent_current, attach_agent_drive, refresh_at, host_access_ip_of,
}
use novita_box.Boxlet.Rootfs.{
  Handle, PrepareRequest, prepare, mount, unmount, remove, mount_overlaybd_rootfs,
  unmount_overlaybd_rootfs, remove_overlaybd_rootfs,
}
use novita_box.Boxlet.Logic.{
  IsQuiet, call-IsQuiet, return-IsQuiet, raise-IsQuiet, from_net-IsQuiet, >>=-IsQuiet, if-IsQuiet,
  ignore-IsQuiet, on_error-Keeps,
}

module _ (env : Env) where
  pub attach_agent_drive-IsQuiet : (spec : RuntimeSpec) → IsQuiet (attach_agent_drive env spec)
  unfolding attach_agent_drive
  attach_agent_drive-IsQuiet spec = if-IsQuiet _ _ _ (return-IsQuiet spec) (
      if-IsQuiet _ _ _ (raise-IsQuiet missing_setting)
        (>>=-IsQuiet _ _ (call-IsQuiet env ensure_agent_image) (λ a P w h. record { ends = h })))

  pub prepare_network-IsQuiet :
      (t : RuntimeType) (spec : Option NetworkSpec) → IsQuiet (prepare_network env t spec)
  unfolding prepare_network
  prepare_network-IsQuiet t none = return-IsQuiet tt
  prepare_network-IsQuiet t (some spec) = if-IsQuiet _ _ _ (return-IsQuiet tt) (
      >>=-IsQuiet _ _ (from_net-IsQuiet _)
        (λ slot. >>=-IsQuiet _ _ (from_net-IsQuiet _) (λ veth. call-IsQuiet env _)))

  refresh-IsQuiet : (ip : String) (port : Option String) → IsQuiet (refresh_at env ip port)
  refresh-IsQuiet ip none = raise-IsQuiet bad_boxd_address
  refresh-IsQuiet ip (some port) = call-IsQuiet env (refresh_agent ip port)

  pub ensure_agent-IsQuiet :
      (spec : Option NetworkSpec) → IsQuiet (ensure_sandbox_agent_current env spec)
  unfolding ensure_sandbox_agent_current
  ensure_agent-IsQuiet spec = if-IsQuiet _ _ _ (return-IsQuiet tt) (
      if-IsQuiet _ _ _ (raise-IsQuiet missing_setting)
        (refresh-IsQuiet (host_access_ip_of spec) (env.host.port_of env.cfg.boxd.addr)))

module _ (env : Env) where
  pub mount-IsQuiet : (r : SandboxRecord) → IsQuiet (mount_overlaybd_rootfs env r)
  unfolding mount_overlaybd_rootfs mount
  mount-IsQuiet r = if-IsQuiet _ _ _ (return-IsQuiet tt) (
      >>=-IsQuiet _ _ (call-IsQuiet env _)
        (λ a. >>=-IsQuiet _ _ (call-IsQuiet env _) (λ b. call-IsQuiet env _)))

  pub unmount-IsQuiet : (r : SandboxRecord) → IsQuiet (unmount_overlaybd_rootfs env r)
  unfolding unmount_overlaybd_rootfs unmount
  unmount-IsQuiet r =
      if-IsQuiet _ _ _ (return-IsQuiet tt)
        (>>=-IsQuiet _ _ (call-IsQuiet env _) (λ a. call-IsQuiet env _))

  pub remove-IsQuiet : (r : SandboxRecord) → IsQuiet (remove_overlaybd_rootfs env r)
  unfolding remove_overlaybd_rootfs remove
  remove-IsQuiet r = if-IsQuiet _ _ _ (return-IsQuiet tt) (
      >>=-IsQuiet _ _ (call-IsQuiet env _)
        (λ a. >>=-IsQuiet _ _ (call-IsQuiet env _) (λ b. call-IsQuiet env _)))

  pub provider_remove-IsQuiet : (handle : Handle) → IsQuiet (remove env handle)
  unfolding remove unmount
  provider_remove-IsQuiet handle = >>=-IsQuiet _ _ (call-IsQuiet env _) (λ a. call-IsQuiet env _)

  pub provider_prepare-IsQuiet : (req : PrepareRequest) → IsQuiet (prepare env req)
  unfolding prepare
  provider_prepare-IsQuiet req = if-IsQuiet _ _ _ (raise-IsQuiet missing_setting) (
      >>=-IsQuiet _ _ (>>=-IsQuiet _ _ (call-IsQuiet env _) (λ a P w h. record { ends = h }))
        (λ resolved. >>=-IsQuiet _ _ (call-IsQuiet env _) (λ b.
          >>=-IsQuiet _ _
            (λ P.
              on_error-Keeps P _ _ (call-IsQuiet env _ P) (ignore-IsQuiet _ (call-IsQuiet env _) P))
            (λ c. return-IsQuiet _))))
