-- ===== src/Jobs/Wait.antt =====
-- `waitForJobToFinish` of pkg/controllers/jobs.go with the calls of `monitorJob`, and when it ends.
use nvmesh_k8s_operator.Prelude.{
  ◌<◌, ◌≡◌, ◌≢◌, ◌↔◌, refl, String, Bool, true, false, Option, none, some, List, [], ◌∷◌, arith,
  if◌then◌else◌, ◌⊎◌,
}
use nvmesh_k8s_operator.Api.{NvMesh}
use nvmesh_k8s_operator.Kube.{
  Client, Act, returned, Call, pure, call, ◌>>=◌, Err, Result, ok, err, Outcome, do_not_requeue,
  requeue_in, Job, Pod,
}
use nvmesh_k8s_operator.Jobs.{
  is_single_job_completed, first_condition_failed, registry_cred_secret_name,
}

module _ {W : Type 0} (client : Client W) where
  -- getJobPods: the namespace that it is given is not used.
  unfoldable pub get_job_pods : (namespace job_name : String) → Call W (Result (List Pod))
  get_job_pods namespace job_name = client.list_pods "job-name" (job_name ∷ [])

  -- verifySecretExists of validation.go: it looks up the registry secret, whatever name it is given.
  unfoldable pub verify_secret_exists : (secret_name namespace : String) → Act W (Option Err)
  verify_secret_exists secret_name namespace = do
    r ← call (client.get_object "Secret" namespace registry_cred_secret_name)
    elim r [ ok _ ↦ pure none | err e ↦ pure (some e) ]

  unfoldable pub verify_nvmesh_secrets_exist : (namespace : String) → Act W (Unit {0})
  unfolding verify_secret_exists
  verify_nvmesh_secrets_exist namespace = do
    _ ← verify_secret_exists registry_cred_secret_name namespace
    _ ← verify_secret_exists "nvmesh-file-server-cred" namespace
    pure tt

  -- printJob and printAllPodsStatuses feed the log.
  unfoldable pub print_job : (job_name namespace : String) → Act W (Unit {0})
  print_job job_name namespace = do _ ← call (client.get_job namespace job_name); pure tt

  unfoldable pub print_all_pods_statuses : (namespace : String) → Act W (Unit {0})
  print_all_pods_statuses namespace = do _ ← call (client.list_all_pods namespace); pure tt

  -- the calls between `debugJobs -->` and `debugJobs <--`
  debug_job : (job_name namespace : String) → Act W (Unit {0})
  unfolding verify_nvmesh_secrets_exist print_job print_all_pods_statuses
  debug_job job_name namespace = do
    _ ← print_job job_name namespace
    _ ← print_all_pods_statuses namespace
    verify_nvmesh_secrets_exist namespace

  unfoldable pub monitor_job :
      (job_name namespace : String) → (debug_jobs : Bool) → Act W (Unit {0})
  unfolding get_job_pods debug_job
  monitor_job job_name namespace debug_jobs = do
    _ ← call (get_job_pods namespace job_name)
    if debug_jobs then debug_job job_name namespace else pure tt

  -- What follows once the job is read and judged.
  unfoldable pub wait_on :
      (namespace job_name : String) → (debug : Bool) → Bool × Option Err → Act W Outcome
  wait_on namespace job_name debug (completed, some e) = pure (do_not_requeue, some e)
  wait_on namespace job_name debug (true, none) = pure (do_not_requeue, none)
  wait_on namespace job_name debug (false, none) = do
    _ ← monitor_job job_name namespace debug
    pure (requeue_in 1, none)

  unfoldable pub wait_for_job_to_finish_without_cr :
      (namespace job_name : String) → (debug : Bool) → Act W Outcome
  unfolding wait_on
  wait_for_job_to_finish_without_cr namespace job_name debug = do
    r ← call (client.get_job namespace job_name)
    elim r [
      | err e ↦ pure (do_not_requeue, some e)
      | ok job ↦ wait_on namespace job_name debug (is_single_job_completed job)
    ]

  unfoldable pub wait_for_job_to_finish : NvMesh → (job_name : String) → Act W Outcome
  unfolding wait_for_job_to_finish_without_cr
  wait_for_job_to_finish cr job_name =
      wait_for_job_to_finish_without_cr cr.meta.namespace job_name cr.spec.debug.debug_jobs

  -- `monitorJob` returns.
  pub monitor_job_returns :
      (job_name namespace : String) (debug : Bool) (w : W)
      → (monitor_job job_name namespace debug w).0 ≡ returned tt
  unfolding monitor_job
  monitor_job_returns job_name namespace debug w = ground arith

  -- What a job's status says: some pod failed, enough pods succeeded, or neither.
  abbrev pub HasFailedPod : Job → Type 0
  HasFailedPod job = 0 < job.status.failed

  abbrev pub HasSucceeded : Job → Type 0
  HasSucceeded job = (job.status.failed ≡ 0) × (job.status.succeeded ≡ job.spec.completions)

  module _ (namespace job_name : String) (debug : Bool) (w : W) where
    -- Waiting is over without an error exactly when the job was read, no pod of it has failed, and as
    -- many pods succeeded as it asks for.
    pub wait_done_iff :
        ((wait_for_job_to_finish_without_cr namespace job_name debug w).0
          ≡ returned (do_not_requeue, none))
        ↔ ((job : Job) × ((client.get_job namespace job_name w).0 ≡ ok job) × HasSucceeded job)
    unfolding wait_for_job_to_finish_without_cr is_single_job_completed
    wait_done_iff =
        (λ h. done (client.get_job namespace job_name w).0 refl h, λ (job, r, d). ground arith)
      where
        done :
            (r : Result Job)
            → (client.get_job namespace job_name w).0 ≡ r
            → (wait_for_job_to_finish_without_cr namespace job_name debug w).0
              ≡ returned (do_not_requeue, none)
            → (job : Job) × ((client.get_job namespace job_name w).0 ≡ ok job) × HasSucceeded job
        done (ok job) e h = (job, e, ground (arith, monitor_job_returns job_name namespace debug))
        done (err x) e h = ground arith

    -- The job is still to be waited for.
    abbrev pub IsUnfinished : Job → Type 0
    IsUnfinished job =
        (job.status.failed ≡ 0)
        × (job.status.succeeded ≢ job.spec.completions)
        × ((0 < job.status.active) ⊎ (first_condition_failed job.status.conditions ≡ none))

    -- The caller is asked to come back after a second, without an error, exactly when the job was read
    -- and is unfinished: no pod of it failed, too few succeeded, and it has an active pod or its first
    -- condition is not a failure.
    pub wait_requeues_iff :
        ((wait_for_job_to_finish_without_cr namespace job_name debug w).0
          ≡ returned (requeue_in 1, none))
        ↔ ((job : Job) × ((client.get_job namespace job_name w).0 ≡ ok job) × IsUnfinished job)
    unfolding wait_for_job_to_finish_without_cr is_single_job_completed
    wait_requeues_iff = (
      λ h. unfinished (client.get_job namespace job_name w).0 refl h,
      λ (job, r, d). back job r d,
    )
      where
        unfinished :
            (r : Result Job)
            → (client.get_job namespace job_name w).0 ≡ r
            → (wait_for_job_to_finish_without_cr namespace job_name debug w).0
              ≡ returned (requeue_in 1, none)
            → (job : Job) × ((client.get_job namespace job_name w).0 ≡ ok job) × IsUnfinished job
        unfinished (ok job) e h =
            (job, e, ground (arith, monitor_job_returns job_name namespace debug))
        unfinished (err x) e h = ground arith

        back :
            (job : Job)
            → (client.get_job namespace job_name w).0 ≡ ok job
            → IsUnfinished job
            → (wait_for_job_to_finish_without_cr namespace job_name debug w).0
              ≡ returned (requeue_in 1, none)
        back job e h = ground (
          arith,
          monitor_job_returns job_name namespace debug (client.get_job namespace job_name w).1,
        )
