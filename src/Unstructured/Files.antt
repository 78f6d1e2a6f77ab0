-- ===== src/Unstructured/Files.antt =====
-- One file of `reconcileUnstructuredObjects` in pkg/controllers/ctrl_utils.go.
use nvmesh_k8s_operator.Prelude.{
  String, Bool, Option, none, some, ◌≡◌, refl, sym, subst, arith, if◌then◌else◌,
}
use nvmesh_k8s_operator.Api.{NvMesh}
use nvmesh_k8s_operator.Kube.{Client, Act, Ran, returned, Err, Result, ok, err, pure, ◌>>=◌}
use nvmesh_k8s_operator.Kube.Keeps.{bind-returned}
use nvmesh_k8s_operator.Yaml.{yaml_file_to_string}
use nvmesh_k8s_operator.Unstructured.Types.{GroupVersionKind, Unstructured, Mapping, Dynamic}
use nvmesh_k8s_operator.Unstructured.Documented.{Documented, Reached}
use nvmesh_k8s_operator.Unstructured.{
  Watching, outside, Updater, get_namespace_for_object, decode_unstructured,
  yaml_file_to_unstructured, find_gvr, add_unstructured_watch, reconcile_unstructured,
  watch_and_reconcile, mapped_unstructured, decoded_unstructured, reconcile_unstructured_file,
}
use nvmesh_k8s_operator.Unstructured.Reached.{reconcile_unstructured-Reached}

module _ {W : Type 0} (client : Client W) (dynamic : Dynamic W) (doc : Documented client dynamic)
    (cr : NvMesh) (create : Bool) where
  module _ (mapping : Mapping) (ns : String) (obj : Unstructured) (gvk : GroupVersionKind) where
    watched : Option Err → Act (Watching W) (Result (Option Err))
    watched e = elim e [
      | some x ↦ pure (err x)
      | none ↦
          outside (reconcile_unstructured client dynamic cr create mapping ns obj gvk) >>= λ e'.
          pure (ok e')
    ]

    watched-Reached :
        (e : Option Err) (s : Watching W)
        → (watched e s).0 ≡ returned (ok none)
        → Reached doc create (watched e s).1.world mapping ns obj.name
    unfolding watched
    watched-Reached (some x) s h = cc
    watched-Reached none s h =
        let (e, ran, rest, same) =
          bind-returned
            (outside (reconcile_unstructured client dynamic cr create mapping ns obj gvk))
            (λ e'. pure {S = Watching W} {A = Result (Option Err)} (ok e')) s h in
        rw same (
          reconcile_unstructured-Reached client dynamic doc cr mapping ns create obj gvk s.world
            (ground arith))

    watch_and_reconcile-Reached :
        (s : Watching W)
        → (watch_and_reconcile client dynamic cr create mapping ns obj gvk s).0 ≡ returned (ok none)
        → Reached doc create
            (watch_and_reconcile client dynamic cr create mapping ns obj gvk s).1.world
            mapping
            ns
            obj.name
    unfolding watch_and_reconcile watched
    watch_and_reconcile-Reached s h =
        let (e, ran, rest, same) =
          bind-returned
            (if create then add_unstructured_watch client dynamic mapping ns obj else pure none)
            watched s h in
        rw same (watched-Reached e _ rest)

  module _ (process_func : Updater) where
    -- The object of a file has reached what is asked for.
    abbrev pub FileReached : W → String → Type 0
    FileReached w f =
        (yaml : String) (decoded : Unstructured × GroupVersionKind) (mapping : Mapping)
        → doc.contents f ≡ ok yaml
        → dynamic.decode yaml ≡ ok decoded
        → doc.mapping (process_func cr decoded).1 ≡ ok mapping
        → Reached doc create w mapping (get_namespace_for_object cr (process_func cr decoded).1)
            (process_func cr decoded).0.name

    file-eq :
        (f yaml : String) (decoded : Unstructured × GroupVersionKind) (mapping : Mapping)
        (s : Watching W)
        → doc.contents f ≡ ok yaml
        → dynamic.decode yaml ≡ ok decoded
        → doc.mapping (process_func cr decoded).1 ≡ ok mapping
        → (s' : Watching W) × (reconcile_unstructured_file client dynamic cr create process_func f s
            ≡ watch_and_reconcile client dynamic cr create mapping
                (get_namespace_for_object cr (process_func cr decoded).1)
                (process_func cr decoded).0
                (process_func cr decoded).1
                s')
    unfolding reconcile_unstructured_file yaml_file_to_unstructured yaml_file_to_string
        decode_unstructured decoded_unstructured find_gvr mapped_unstructured
    file-eq f yaml decoded mapping s text parsed mapped =
        let w1 = (client.read_file f s.world).1 in
        let w2 = (dynamic.new_discovery_client w1).1 in
        (
          record s { world = (dynamic.rest_mapping (process_func cr decoded).1 w2).1 },
          rw
              (
                doc.read_same f s.world,
                text,
                decode_unstructured,
                parsed,
                doc.discovers w1,
                doc.maps (process_func cr decoded).1 w2,
                mapped,
              )
              refl,
        )

    pub file-FileReached :
        (f : String) (s : Watching W)
        → (reconcile_unstructured_file client dynamic cr create process_func f s).0
          ≡ returned (ok none)
        → FileReached
            (reconcile_unstructured_file client dynamic cr create process_func f s).1.world
            f
    file-FileReached f s h yaml decoded mapping text parsed mapped =
        let (s', same) = file-eq f yaml decoded mapping s text parsed mapped in
        subst
          (λ (p : Ran (Result (Option Err)) × Watching W).
            Reached doc create p.1.world mapping
              (get_namespace_for_object cr (process_func cr decoded).1)
              (process_func cr decoded).0.name)
          (sym same)
          (watch_and_reconcile-Reached mapping _ (process_func cr decoded).0
            (process_func cr decoded).1 s'
            (subst (λ (p : Ran (Result (Option Err)) × Watching W). p.0 ≡ returned (ok none)) same
              h))
