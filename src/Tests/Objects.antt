-- ===== src/Tests/Objects.antt =====
-- The theorems about objects and files, applied in the small world.
use nvmesh_k8s_operator.Prelude.{false, none, [], ◌∷◌, ◌≡◌, ◌↔◌, refl, split}
use nvmesh_k8s_operator.Kube.{returned, do_not_requeue, requeue_in, ok, Job, Pod}
use nvmesh_k8s_operator.Yaml.{yaml_string_to_objects}
use nvmesh_k8s_operator.Yaml.Laws.{Parsed, yaml_string_to_objects-Parsed}
use nvmesh_k8s_operator.Objects.Exists.{Exists}
use nvmesh_k8s_operator.Jobs.Wait.{wait_for_job_to_finish_without_cr, HasSucceeded, wait_done_iff}
use nvmesh_k8s_operator.Jobs.Delete.{
  delete_job, IsGone, failure, items, ArePodsDeleted, delete_job-deletes,
}
use nvmesh_k8s_operator.Tests.World.{World, test_client}

yaml_string_to_objects-Parsed_example :
    Parsed test_client
      (split "settings" "\n---\n")
      (yaml_string_to_objects test_client "settings" []).0
    × ((yaml_string_to_objects test_client "settings" []).1 ≡ [])
yaml_string_to_objects-Parsed_example = yaml_string_to_objects-Parsed test_client "settings" []

wait_done_iff_example :
    ((wait_for_job_to_finish_without_cr test_client "default" "job" false []).0
      ≡ returned (do_not_requeue, none))
    ↔ ((job : Job) × ((test_client.get_job "default" "job" []).0 ≡ ok job)
        × HasSucceeded test_client job)
wait_done_iff_example = wait_done_iff test_client "default" "job" false []

delete_job-deletes_example :
    IsGone test_client (test_client.delete "Job" "default" "job" []).0
    × IsGone test_client (failure (test_client.list_pods "job-name" ("job" ∷ []) []).0)
    × ArePodsDeleted test_client
        (items (test_client.list_pods "job-name" ("job" ∷ []) []).0)
        []
        (delete_job test_client "default" "job" []).1
unfolding delete_job nvmesh_k8s_operator.Tests.World.without
delete_job-deletes_example = delete_job-deletes test_client "default" "job" [] refl
