-- ===== src/Unstructured/Keeping.antt =====
-- The steps of `reconcileUnstructuredObjects` in pkg/controllers/ctrl_utils.go undo nothing that an
-- earlier step reached.
use nvmesh_k8s_operator.Prelude.{
  ℕ, String, Bool, true, false, none, some, List, [], ◌∷◌, ◌∙◌, arith, Bool-cases, inl, inr,
}
use nvmesh_k8s_operator.Api.{NvMesh}
use nvmesh_k8s_operator.Kube.{Client, Act, Err, Result, ok, err, is_not_found, call}
use nvmesh_k8s_operator.Kube.Keeps.{
  Keeps, keeps_rules, Keeps-call, Keeps-pure, Keeps-bind, Keeps-result, Keeps-option, Keeps-if,
  Keeps-panic,
}
use nvmesh_k8s_operator.Yaml.{yaml_file_to_string}
use nvmesh_k8s_operator.Resources.{first_error}
use nvmesh_k8s_operator.Unstructured.Types.{GroupVersionKind, Unstructured, Mapping, Dynamic}
use nvmesh_k8s_operator.Unstructured.Owners.{set_controller_reference_on_unstructured}
use nvmesh_k8s_operator.Unstructured.Documented.{Documented, Reached, tracked-IsLeft}
use nvmesh_k8s_operator.Unstructured.{
  Watching, outside, Updater, decode_unstructured, yaml_file_to_unstructured, find_gvr,
  keep_watcher, add_unstructured_watch, create_unstructured, delete_unstructured,
  found_unstructured, reconcile_unstructured, watch_and_reconcile, mapped_unstructured,
  decoded_unstructured, reconcile_unstructured_file, append_error, reconcile_unstructured_files,
}

module _ {W : Type 0} (client : Client W) (dynamic : Dynamic W) (doc : Documented client dynamic)
    (cr : NvMesh) (create : Bool) (m : Mapping) (ns n : String) where
  abbrev Held : W → Type 0
  Held w = Reached doc create w m ns n

  abbrev pub Holds : Watching W → Type 0
  Holds s = Held s.world

  outside-Keeps : {A : Type 0} (action : Act W A) → Keeps Held action → Keeps Holds (outside action)
  outside-Keeps action k = record { after = λ s p. k.after s.world p }

  read_file-Keeps : (f : String) → Keeps Held (call (client.read_file f))
  read_file-Keeps f = Keeps-call _ (λ w p. (tracked-IsLeft doc create).read_file f w m ns n ∙ p)

  decode-Keeps :
      (f : String) (r : Result String) → Keeps Held (decode_unstructured client dynamic f r)
  unfolding decode_unstructured
  decode-Keeps f (err _) = Keeps-panic
  decode-Keeps f (ok yaml) =
      Keeps-result (dynamic.decode yaml) _ _ (λ d. Keeps-pure (ok d)) (λ e. Keeps-pure _)

  text-Keeps : (f : String) → Keeps Held (yaml_file_to_string client f)
  unfolding yaml_file_to_string
  text-Keeps f = record {
    after = λ w p. ground (arith, (tracked-IsLeft doc create).read_file f w m ns n);
  }

  file_to_unstructured-Keeps :
      (f : String) → Keeps Held (yaml_file_to_unstructured client dynamic f)
  unfolding yaml_file_to_unstructured
  file_to_unstructured-Keeps f = search (keeps_rules, text-Keeps, decode-Keeps)

  find_gvr-Keeps : (gvk : GroupVersionKind) → Keeps Held (find_gvr client dynamic gvk)
  unfolding find_gvr
  find_gvr-Keeps gvk =
      Keeps-bind _ _
        (Keeps-call _ (λ w p. (tracked-IsLeft doc create).new_discovery_client w m ns n ∙ p))
        (λ e.
          Keeps-option e _ _
            (Keeps-call (dynamic.rest_mapping gvk)
              (λ w p. (tracked-IsLeft doc create).rest_mapping gvk w m ns n ∙ p))
            (λ x. Keeps-pure (err x)))

  keep_watcher-Keeps : (r : Result ℕ) → Keeps Holds (keep_watcher client dynamic r)
  unfolding keep_watcher
  keep_watcher-Keeps (ok watcher) = record { after = λ s p. p }
  keep_watcher-Keeps (err e) = record { after = λ s p. p }

  watch-Keeps :
      (m' : Mapping) (ns' : String) (obj : Unstructured)
      → Keeps Holds (add_unstructured_watch client dynamic m' ns' obj)
  unfolding add_unstructured_watch
  watch-Keeps m' ns' obj =
      Keeps-bind _ _
        (outside-Keeps _
          (Keeps-call _ (λ w p. (tracked-IsLeft doc create).watch m' ns' _ w m ns n ∙ p)))
        keep_watcher-Keeps

module _ {W : Type 0} (client : Client W) (dynamic : Dynamic W) (doc : Documented client dynamic)
    (cr : NvMesh) (m : Mapping) (ns n : String) where
  found-Keeps :
      (create : Bool) (m' : Mapping) (ns' : String) (obj : Unstructured) (gvk : GroupVersionKind)
      (r : Result Unstructured)
      → Keeps
          (λ w. Reached doc create w m ns n)
          (found_unstructured client dynamic cr create m' ns' obj gvk r)
  unfolding found_unstructured create_unstructured delete_unstructured
  found-Keeps true m' ns' obj gvk (ok _) = Keeps-pure none
  found-Keeps false m' ns' obj gvk (ok _) = record {
    after = λ w p. doc.delete_keeps_dead m' ns' obj.name w m ns n p;
  }
  found-Keeps true m' ns' obj gvk (err e) = record {
    after = λ w p. elim (Bool-cases (is_not_found e)) [
      | inl q ↦ rw q (
          doc.create_keeps m' ns' (set_controller_reference_on_unstructured dynamic cr obj gvk) w m
            ns n p)
      | inr q ↦ rw q p
    ];
  }
  found-Keeps false m' ns' obj gvk (err e) = record {
    after = λ w p. elim (Bool-cases (is_not_found e)) [ inl q ↦ rw q p | inr q ↦ rw q p ];
  }

module _ {W : Type 0} (client : Client W) (dynamic : Dynamic W) (doc : Documented client dynamic)
    (cr : NvMesh) (create : Bool) (m : Mapping) (ns n : String) where
  reconcile-Keeps :
      (m' : Mapping) (ns' : String) (obj : Unstructured) (gvk : GroupVersionKind)
      → Keeps
          (λ w. Reached doc create w m ns n)
          (reconcile_unstructured client dynamic cr create m' ns' obj gvk)
  unfolding reconcile_unstructured
  reconcile-Keeps m' ns' obj gvk =
      Keeps-bind _ _
        (Keeps-call _ (λ w p. (tracked-IsLeft doc create).get m' ns' obj.name w m ns n ∙ p))
        (λ r. found-Keeps client dynamic doc cr m ns n create m' ns' obj gvk r)

  watch_and_reconcile-Keeps :
      (m' : Mapping) (ns' : String) (obj : Unstructured) (gvk : GroupVersionKind)
      → Keeps
          (Holds client dynamic doc cr create m ns n)
          (watch_and_reconcile client dynamic cr create m' ns' obj gvk)
  unfolding watch_and_reconcile
  watch_and_reconcile-Keeps m' ns' obj gvk =
      Keeps-bind _ _
        (Keeps-if create _ _ (watch-Keeps client dynamic doc cr create m ns n m' ns' obj)
          (Keeps-pure none))
        (λ e.
          Keeps-option e _ _
            (Keeps-bind _ _
              (outside-Keeps client dynamic doc cr create m ns n _ (reconcile-Keeps m' ns' obj gvk))
              (λ e'. Keeps-pure (ok e')))
            (λ x. Keeps-pure (err x)))

  decoded-Keeps :
      (f : String) (process_func : Updater) (r : Result (Unstructured × GroupVersionKind))
      → Keeps
          (Holds client dynamic doc cr create m ns n)
          (decoded_unstructured client dynamic cr create f process_func r)
  unfolding decoded_unstructured mapped_unstructured
  decoded-Keeps f process_func (err e) = Keeps-pure _
  decoded-Keeps f process_func (ok decoded) =
      Keeps-bind _ _
        (outside-Keeps client dynamic doc cr create m ns n _
          (find_gvr-Keeps client dynamic doc cr create m ns n (process_func cr decoded).1))
        mapped-Keeps
    where
      mapped-Keeps :
          (r : Result Mapping)
          → Keeps (Holds client dynamic doc cr create m ns n) (
              mapped_unstructured client dynamic cr create
                (process_func cr decoded).0
                (process_func cr decoded).1
                r)
      mapped-Keeps (err _) = Keeps-pure (ok none)
      mapped-Keeps (ok m') = watch_and_reconcile-Keeps m' _ _ _

  pub file-Keeps :
      (process_func : Updater) (f : String)
      → Keeps
          (Holds client dynamic doc cr create m ns n)
          (reconcile_unstructured_file client dynamic cr create process_func f)
  unfolding reconcile_unstructured_file
  file-Keeps process_func f =
      Keeps-bind _ _
        (outside-Keeps client dynamic doc cr create m ns n _
          (file_to_unstructured-Keeps client dynamic doc cr create m ns n f))
        (decoded-Keeps f process_func)

  pub files-Keeps :
      (process_func : Updater) (errors : List Err) (fs : List String)
      → Keeps
          (Holds client dynamic doc cr create m ns n)
          (reconcile_unstructured_files client dynamic cr create process_func errors fs)
  unfolding reconcile_unstructured_files
  files-Keeps process_func errors [] = Keeps-pure (first_error errors)
  files-Keeps process_func errors (f ∷ fs) = Keeps-bind _ _ (file-Keeps process_func f) (λ r.
      Keeps-result r _ _
        (λ e. files-Keeps process_func (append_error client dynamic cr create errors e) fs)
        (λ x. Keeps-pure (some x)))
