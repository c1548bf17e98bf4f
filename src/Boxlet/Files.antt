-- ===== src/Boxlet/Files.antt =====
-- The files of a new sandbox: what preparing them leaves in the store.

use novita_box.Common.{ℕ, Option}
use novita_box.Store.Records.{State, SandboxRecord}
use novita_box.Store.Artifact.Templates.{Json}
use novita_box.Boxlet.Types.{SnapshotSpec, RuntimeSpec}
use novita_box.Boxlet.Exec.{Env}
use novita_box.Boxlet.Create.{
  prepare_kernel, prepare_overlaybd, prepare_from_template, prepare_from_image,
  prepare_sandbox_runtime_files,
}
use novita_box.Boxlet.Steps.{ensure_snapshot_spec_dirs}
use novita_box.Boxlet.Holds.{Holds, update_sandbox_rootfs_digest-Holds}
use novita_box.Boxlet.Logic.{
  IsQuiet, Keeps, written-ok, call-IsQuiet, return-IsQuiet, raise-IsQuiet, query-IsQuiet,
  >>=-IsQuiet, if-IsQuiet, ignore-IsQuiet, >>=-Keeps, if-Keeps, on_error-Keeps,
}
use novita_box.Boxlet.Quiet.{
  attach_agent_drive-IsQuiet, provider_prepare-IsQuiet, provider_remove-IsQuiet,
}

module _ (env : Env) {M : Type 0} (json : Json M) where
  prepare_kernel-IsQuiet : (spec : RuntimeSpec) → IsQuiet (prepare_kernel env json spec)
  unfolding prepare_kernel
  prepare_kernel-IsQuiet spec =
      if-IsQuiet _ _ _ (return-IsQuiet tt) (if-IsQuiet _ _ _ (raise-IsQuiet _) (call-IsQuiet env _))

  prepare_from_template-IsQuiet :
      (r : SandboxRecord) (spec : RuntimeSpec) → IsQuiet (prepare_from_template env json r spec)
  unfolding prepare_from_template
  prepare_from_template-IsQuiet r spec = >>=-IsQuiet _ _ (query-IsQuiet _) (λ template.
      >>=-IsQuiet _ _ (call-IsQuiet env _) (λ a.
        >>=-IsQuiet _ _ (if-IsQuiet _ _ _ (return-IsQuiet tt) (call-IsQuiet env _))
          (λ b. if-IsQuiet _ _ _ (return-IsQuiet tt) (call-IsQuiet env _))))

  prepare_from_image-IsQuiet :
      (r : SandboxRecord) (spec : RuntimeSpec) → IsQuiet (prepare_from_image env json r spec)
  unfolding prepare_from_image
  prepare_from_image-IsQuiet r spec =
      >>=-IsQuiet _ _ (query-IsQuiet _) (λ image. call-IsQuiet env _)

  -- Preparing the files writes no more than the digest of the image.
  prepare_overlaybd-Keeps :
      {st : State} {s : ℕ} (r : SandboxRecord) (spec : RuntimeSpec)
      → Keeps (Holds r.id st s) (prepare_overlaybd env json r spec)
  unfolding prepare_overlaybd
  prepare_overlaybd-Keeps {st} {s} r spec =
      let P = Holds r.id st s in
      >>=-Keeps P _ _ (call-IsQuiet env _ P) (λ a.
        >>=-Keeps P _ _ (provider_prepare-IsQuiet env _ P) (λ handle.
          >>=-Keeps P _ _
            (on_error-Keeps P _ _
              (if-Keeps P _ _ _ (return-IsQuiet tt P) (λ w h.
                let (db', done, kept) =
                  update_sandbox_rootfs_digest-Holds h (env.clock w) handle.source_digest in
                written-ok _ w tt db' done kept))
              (ignore-IsQuiet _ (provider_remove-IsQuiet env handle) P))
            (λ b.
              on_error-Keeps P _ _ (call-IsQuiet env _ P)
                (ignore-IsQuiet _ (provider_remove-IsQuiet env handle) P))))

  pub prepare_files-Keeps :
      {st : State} {s : ℕ} (r : SandboxRecord) (spec : RuntimeSpec)
      → Keeps (Holds r.id st s) (prepare_sandbox_runtime_files env json r spec)
  unfolding prepare_sandbox_runtime_files
  prepare_files-Keeps {st} {s} r given =
      let P = Holds r.id st s in
      >>=-Keeps P _ _ (attach_agent_drive-IsQuiet env given P) (λ spec.
        >>=-Keeps P _ _ (prepare_kernel-IsQuiet spec P) (λ a.
          >>=-Keeps P _ _
            (if-Keeps P _ _ _ (prepare_overlaybd-Keeps r spec) (
              if-Keeps P _ _ _ (prepare_from_template-IsQuiet r spec P)
                (if-Keeps P _ _ _ (prepare_from_image-IsQuiet r spec P) (return-IsQuiet tt P))))
            (λ b. return-IsQuiet spec P)))

  pub ensure_dirs-IsQuiet :
      (spec : Option SnapshotSpec) → IsQuiet (ensure_snapshot_spec_dirs env spec)
  unfolding ensure_snapshot_spec_dirs
  ensure_dirs-IsQuiet spec =
      >>=-IsQuiet _ _ (if-IsQuiet _ _ _ (return-IsQuiet tt) (call-IsQuiet env _))
        (λ a. if-IsQuiet _ _ _ (return-IsQuiet tt) (call-IsQuiet env _))
