-- ===== src/Jobs/Delete.antt =====
-- `deleteJob` of pkg/controllers/jobs.go: the job, then the pods that the API server lists for it.
use nvmesh_k8s_operator.Prelude.{
  String, Option, none, some, List, [], ◌∷◌, concat, ◌≡◌, refl, ap, sym, subst, ◌∙◌, ◌⊎◌, inl, inr,
  arith, true, Bool-cases,
}
use nvmesh_k8s_operator.Kube.{
  Client, Act, returned, pure, call, ◌>>=◌, or_return, wrap_error, unless, is_not_found, Err,
  Result, ok, err, Pod,
}
use nvmesh_k8s_operator.Kube.Keeps.{or_return-none}
use nvmesh_k8s_operator.Jobs.Wait.{get_job_pods}

-- `podList.Items` after a List; a failed one leaves it empty.
abbrev pub items {ℓ} : {A : Type ℓ} → Result (List A) → List A
items (ok l) = l
items (err _) = []

abbrev pub failure {ℓ} : {A : Type ℓ} → Result A → Option Err
failure (ok _) = none
failure (err e) = some e

module _ {W : Type 0} (client : Client W) where
  -- `err := r.Client.Delete(…)`, where a not-found error is none and another is wrapped
  abbrev delete_wrapped : (kind namespace name text : String) → Act W (Option Err)
  delete_wrapped kind namespace name text w =
      let (e, w') = client.delete kind namespace name w in
      (returned (wrap_error (unless is_not_found e) text), w')

  abbrev find_wrapped : Result (List Pod) → (text : String) → Act W (Option Err)
  find_wrapped pods text = pure (wrap_error (unless is_not_found (failure pods)) text)

  -- the loop of `deleteJob`
  unfoldable pub delete_pods : List Pod → Act W (Option Err)
  delete_pods [] = pure none
  delete_pods (pod ∷ pods) =
      or_return
        (delete_wrapped "Pod" pod.namespace pod.name
          (concat ("Failed to delete pod " ∷ pod.name ∷ [])))
        (delete_pods pods)

  -- what follows the search for the pods
  unfoldable pub delete_found : (job_name : String) → Result (List Pod) → Act W (Option Err)
  unfolding delete_pods
  delete_found job_name pods =
      or_return
        (find_wrapped pods
          (concat ("Failed to find pods from job " ∷ job_name ∷ " for deletion" ∷ [])))
        (delete_pods (items pods))

  unfoldable pub delete_job : (namespace job_name : String) → Act W (Option Err)
  unfolding delete_found get_job_pods
  delete_job namespace job_name =
      or_return
        (delete_wrapped "Job" namespace job_name (concat ("Failed to delete job " ∷ job_name ∷ [])))
        (call (get_job_pods client namespace job_name) >>= λ pods. delete_found job_name pods)

  -- A deletion was accepted, or its object was not there.
  abbrev pub IsGone : Option Err → Type 0
  IsGone e = (e ≡ none) ⊎ ((x : Err) × (e ≡ some x) × (is_not_found x ≡ true))

  -- Every pod was asked for in turn, and is gone.
  abbrev pub ArePodsDeleted : List Pod → W → W → Type 0
  ArePodsDeleted [] w w' = w' ≡ w
  ArePodsDeleted (pod ∷ pods) w w' =
      let answer = client.delete "Pod" pod.namespace pod.name w in
      IsGone answer.0 × ArePodsDeleted pods answer.1 w'

  wrapped_none :
      (e : Option Err) (text : String) → wrap_error (unless is_not_found e) text ≡ none → IsGone e
  wrapped_none none text h = inl refl
  wrapped_none (some e) text h = elim (Bool-cases (is_not_found e)) [
    | inl q ↦ inr (e, refl, q)
    | inr q ↦ ground (arith, q)
  ]

  delete_wrapped-IsGone :
      (kind namespace name text : String) (w : W)
      → (delete_wrapped kind namespace name text w).0 ≡ returned none
      → IsGone (client.delete kind namespace name w).0
  delete_wrapped-IsGone kind namespace name text w h =
      wrapped_none (client.delete kind namespace name w).0 text (ground (arith, h))

  delete_pods-deleted :
      (pods : List Pod) (w : W)
      → (delete_pods pods w).0 ≡ returned none
      → ArePodsDeleted pods w (delete_pods pods w).1
  unfolding delete_pods
  delete_pods-deleted [] w h = refl
  delete_pods-deleted (pod ∷ pods) w h =
      let text = concat ("Failed to delete pod " ∷ pod.name ∷ []) in
      let (first, same) =
        or_return-none (delete_wrapped "Pod" pod.namespace pod.name text) (delete_pods pods) w h in
      let next = (client.delete "Pod" pod.namespace pod.name w).1 in
      (
        delete_wrapped-IsGone "Pod" pod.namespace pod.name text w first,
        subst (λ p. ArePodsDeleted pods next p.1) (sym same)
            (delete_pods-deleted pods next (sym (ap (λ p. p.0) same) ∙ h)),
      )

  delete_found-deleted :
      (job_name : String) (pods : Result (List Pod)) (w : W)
      → (delete_found job_name pods w).0 ≡ returned none
      → IsGone (failure pods) × ArePodsDeleted (items pods) w (delete_found job_name pods w).1
  unfolding delete_found
  delete_found-deleted job_name pods w h =
      let text = concat ("Failed to find pods from job " ∷ job_name ∷ " for deletion" ∷ []) in
      let (first, same) = or_return-none (find_wrapped pods text) (delete_pods (items pods)) w h in
      (
        wrapped_none (failure pods) text (ground (arith, first)),
        subst (λ p. ArePodsDeleted (items pods) w p.1) (sym same)
            (delete_pods-deleted (items pods) w (sym (ap (λ p. p.0) same) ∙ h)),
      )

  -- Where `deleteJob` ends without an error, the job was asked to be deleted and is gone, and then each
  -- of the pods that the API server listed for the job's name, in their order; a list that was not
  -- found has no pods.
  pub delete_job-deletes :
      (namespace job_name : String) (w : W)
      → (delete_job namespace job_name w).0 ≡ returned none
      → let answer = client.delete "Job" namespace job_name w in
        let pods = client.list_pods "job-name" (job_name ∷ []) answer.1 in
        IsGone answer.0
        × IsGone (failure pods.0)
        × ArePodsDeleted (items pods.0) pods.1 (delete_job namespace job_name w).1
  unfolding delete_job get_job_pods
  delete_job-deletes namespace job_name w h =
      let text = concat ("Failed to delete job " ∷ job_name ∷ []) in
      let answer = client.delete "Job" namespace job_name w in
      let pods = client.list_pods "job-name" (job_name ∷ []) answer.1 in
      let (first, same) =
        or_return-none (delete_wrapped "Job" namespace job_name text)
          (call (get_job_pods client namespace job_name) >>= λ pods. delete_found job_name pods) w
          h in
      let (found, deleted) =
        delete_found-deleted job_name pods.0 pods.1 (sym (ap (λ p. p.0) same) ∙ h) in
      (
        delete_wrapped-IsGone "Job" namespace job_name text w first,
        found,
        subst (λ p. ArePodsDeleted (items pods.0) pods.1 p.1) (sym same) deleted,
      )
