-- ===== src/Components/WellBehaved.antt =====
-- What the three components promise to the operator: the law of the component interface.
use nvmesh_k8s_operator.Prelude.{
  String, Bool, true, false, [], ◌∷◌, ◌≡◌, refl, arith, subst, some, Option, Bool-cases, inl, inr,
  ◌==◌,
}
use nvmesh_k8s_operator.Api.{NvMesh}
use nvmesh_k8s_operator.Kube.{
  call, pure, ◌>>=◌, Act, Err, Ran, returned, panicked, Result, ok, err, Obj, Body, kind_of,
  stateful_set, daemon_set, config_map, service, role_binding, cluster_role_binding,
}
use nvmesh_k8s_operator.Kube.Keeps.{Keeps, Keeps-pure, Keeps-bind, Keeps-option, Keeps-call}
use nvmesh_k8s_operator.Operator.{Operator, Retried, last, again}
use nvmesh_k8s_operator.Mgmt.{restarted, restart_attempt, restart_management}
use nvmesh_k8s_operator.Mgmt.Init.{
  init_mgmt_body, init_mgmt_stateful_set, init_mongo_stateful_set, init_first_claim,
}
use nvmesh_k8s_operator.Mgmt.Objects.{
  should_update_config_map, mgmt_component, update_conf_and_restart_mgmt, compare_mgmt_config,
  should_update_mgmt_object,
}
use nvmesh_k8s_operator.Objects.Parts.{with_config_map, with_body, map_ran}
use nvmesh_k8s_operator.Objects.Quiet.{Quiet, IsWellBehaved}
use nvmesh_k8s_operator.Core.Component.{core_component, init_core_body}
use nvmesh_k8s_operator.Csi.{
  csi_component, init_csi_body, init_csi_controller_stateful_set, init_csi_node_driver_daemon_set,
  init_subjects,
}

abbrev KeepsKind : Body → Ran (Result Body) → Type 0
KeepsKind b (returned (ok b')) = kind_of b' ≡ kind_of b
KeepsKind b _ = Unit

with_body-key :
    (o o' : Obj) (r : Ran (Result Body))
    → KeepsKind o.body r
    → with_body o r ≡ returned (ok o')
    → (kind_of o'.body ≡ kind_of o.body) × (o'.namespace ≡ o.namespace) × (o'.name ≡ o.name)
with_body-key o o' panicked k h = ground arith
with_body-key o o' (returned (err e)) k h = ground arith
with_body-key o o' (returned (ok b)) k h = ground arith

init_core_body-KeepsKind : (cr : NvMesh) (b : Body) → KeepsKind b (init_core_body cr b)
unfolding init_core_body kind_of
init_core_body-KeepsKind cr (daemon_set ds) = refl
init_core_body-KeepsKind cr (config_map fields) = refl
init_core_body-KeepsKind cr b = refl

mapped-KeepsKind :
    {A : Type 0} (b : Body) (f : A → Body) (r : Ran A)
    → ((a : A) → kind_of (f a) ≡ kind_of b)
    → KeepsKind b (map_ran (λ a. ok (f a)) r)
mapped-KeepsKind b f panicked h = tt
mapped-KeepsKind b f (returned a) h = h a

init_csi_body-KeepsKind :
    (cr : NvMesh) (name : String) (b : Body) → KeepsKind b (init_csi_body cr name b)
unfolding init_csi_body kind_of init_csi_controller_stateful_set init_csi_node_driver_daemon_set
    init_subjects
init_csi_body-KeepsKind cr name (stateful_set ss) = ground arith
init_csi_body-KeepsKind cr name (daemon_set ds) = ground arith
init_csi_body-KeepsKind cr name (config_map fields) = refl
init_csi_body-KeepsKind cr name (role_binding []) = tt
init_csi_body-KeepsKind cr name (role_binding (s ∷ l)) = refl
init_csi_body-KeepsKind cr name (cluster_role_binding []) = tt
init_csi_body-KeepsKind cr name (cluster_role_binding (s ∷ l)) = refl
init_csi_body-KeepsKind cr name b = refl

init_mgmt_body-KeepsKind :
    (cr : NvMesh) (name : String) (b : Body) → KeepsKind b (init_mgmt_body cr name b)
unfolding init_mgmt_body kind_of init_mgmt_stateful_set init_mongo_stateful_set init_first_claim
init_mgmt_body-KeepsKind cr name (stateful_set ss) = ground arith
init_mgmt_body-KeepsKind cr name (config_map fields) = refl
init_mgmt_body-KeepsKind cr name (service svc) = refl
init_mgmt_body-KeepsKind cr name b = refl

Retried-keeps :
    {S : Type 0} (P : S → Type 0) (f : Act S (Option Err))
    → Keeps P f
    → (r : Ran (Option Err) × S) (s : S) → Retried f r s
    → P s
    → P r.1
Retried-keeps P f keep r s (last _ same) p = rw same (keep.after s p)
Retried-keeps P f keep r s (again _ s' e failed conflict more) p =
    Retried-keeps P f keep r s' more (subst (λ t. P t.1) failed (keep.after s p))

module _ {W : Type 0} (op : Operator W) (quiet : Quiet op.client) (k ns n : String) where
  abbrev IsStored : W → Type 0
  IsStored w = quiet.exists w k ns n ≡ true

  get-Keeps :
      (kind namespace name : String)
      → Keeps IsStored (call (op.client.get_object kind namespace name))
  get-Keeps kind namespace name = Keeps-call _ (λ w. quiet.get_keeps kind namespace name w k ns n)

  update-Keeps : (o : Obj) → Keeps IsStored (call (op.client.update o))
  update-Keeps o = Keeps-call _ (λ w. quiet.update_keeps o w k ns n)

  clock-Keeps : Keeps IsStored (call op.client.now_text)
  clock-Keeps = Keeps-call _ (λ w. quiet.clock_keeps w k ns n)

  restart_attempt-Keeps :
      (namespace name : String) → Keeps IsStored (restart_attempt op namespace name)
  unfolding restart_attempt
  restart_attempt-Keeps namespace name =
      Keeps-bind {P = IsStored} (call (op.client.get_object "StatefulSet" namespace name)) _
        (get-Keeps "StatefulSet" namespace name) on_answer
    where
      on_answer :
          (r : Result Obj)
          → Keeps IsStored (elim r [
            | err e ↦ pure (some e)
            | ok ss ↦ do time ← call op.client.now_text; call (op.client.update (restarted time ss))
          ])
      on_answer (ok ss) =
          Keeps-bind {P = IsStored} (call op.client.now_text) _ clock-Keeps
            (λ time. update-Keeps (restarted time ss))
      on_answer (err e) = Keeps-pure {P = IsStored} (some e)

  restart_management-Keeps : (namespace : String) → Keeps IsStored (restart_management op namespace)
  unfolding restart_management
  restart_management-Keeps namespace = record {
    after = λ w.
        Retried-keeps IsStored (restart_attempt op namespace "nvmesh-management")
          (restart_attempt-Keeps namespace "nvmesh-management") _ w
          (op.retry_update.runs (restart_attempt op namespace "nvmesh-management") w);
  }

  update_conf-Keeps :
      (cr : NvMesh) (o : Obj) → Keeps IsStored (update_conf_and_restart_mgmt op cr o)
  unfolding update_conf_and_restart_mgmt
  update_conf-Keeps cr o =
      Keeps-bind {P = IsStored} (call (op.client.update o)) _ (update-Keeps o) λ e.
        Keeps-option {P = IsStored} e _ _ (restart_management-Keeps cr.meta.namespace)
          (λ x. Keeps-pure {P = IsStored} (some x))

  compare_mgmt_config-Keeps :
      (cr : NvMesh) (o : Obj) (r : Ran Bool) → Keeps IsStored (compare_mgmt_config op cr o r)
  unfolding compare_mgmt_config
  compare_mgmt_config-Keeps cr o panicked = record { after = λ w h. h }
  compare_mgmt_config-Keeps cr o (returned false) = record { after = λ w h. h }
  compare_mgmt_config-Keeps cr o (returned true) =
      Keeps-bind {P = IsStored} (update_conf_and_restart_mgmt op cr o) _ (update_conf-Keeps cr o)
        (λ _. Keeps-pure {P = IsStored} (false, o))

  should_update_mgmt_object-Keeps :
      (cr : NvMesh) (expected found : Obj) (b : Body) (w : W)
      → IsStored w
      → IsStored (should_update_mgmt_object op cr expected found b w).1
  unfolding should_update_mgmt_object
  should_update_mgmt_object-Keeps cr expected found (config_map conf) w h =
      elim (Bool-cases (found.name == "nvmesh-mgmt-config")) [
        | inl e ↦ rw e (
            (compare_mgmt_config-Keeps cr expected (
                with_config_map (λ e. returned (should_update_config_map e conf))
                  expected.body)).after
              w h)
        | inr e ↦ rw e h
      ]
  should_update_mgmt_object-Keeps cr expected found b w h = h

-- The three components of the operator keep the law of their interface: InitObject changes neither
-- the kind nor the namespace nor the name of an object that it returns, and ShouldUpdateObject
-- deletes nothing, also where it writes the management's configuration and restarts the management,
-- with any number of retries.
pub components-AreWellBehaved :
    {W : Type 0} (op : Operator W) (quiet : Quiet op.client)
    → IsWellBehaved quiet (mgmt_component op)
      × IsWellBehaved quiet core_component
      × IsWellBehaved quiet csi_component
unfolding mgmt_component core_component csi_component
components-AreWellBehaved op quiet = (
  record {
    init_keeps_key = λ cr o o'. with_body-key o o' _ (init_mgmt_body-KeepsKind cr o.name o.body);
    compare_keeps = λ cr expected found w k ns n.
        should_update_mgmt_object-Keeps op quiet k ns n cr expected found found.body w;
  },
  record {
    init_keeps_key = λ cr o o'. with_body-key o o' _ (init_core_body-KeepsKind cr o.body);
    compare_keeps = λ cr expected found w k ns n h. h;
  },
  record {
    init_keeps_key = λ cr o o'. with_body-key o o' _ (init_csi_body-KeepsKind cr o.name o.body);
    compare_keeps = λ cr expected found w k ns n h. h;
  },
)
