-- ===== src/Nodes.antt =====
-- The nodes of the cluster, in pkg/controllers/uninstall.go, with the label keys of ctrl_utils.go. A
-- Go map of nodes is an association list in the order of insertion; Go ranges over it in an order of
-- its own.
pub mod Laws
use nvmesh_k8s_operator.Prelude.{
  String, Option, none, some, List, [], ◌∷◌, ◌++◌, concat, if◌then◌else◌, replace_all,
}
use nvmesh_k8s_operator.Prelude.Dict.{Dict, has, put}
use nvmesh_k8s_operator.Kube.{
  Client, Act, Call, pure, call, ◌>>=◌, Result, ok, err, Err, is_not_found, Node,
}

abbrev pub mgmt_label_key : String
mgmt_label_key = "nvmesh.excelero.com/nvmesh-management"

abbrev pub client_label_key : String
client_label_key = "nvmesh.excelero.com/nvmesh-client"

abbrev pub target_label_key : String
target_label_key = "nvmesh.excelero.com/nvmesh-target"

-- `nodesSet[n.GetName()] = n`
unfoldable pub put_nodes : Dict Node → List Node → Dict Node
put_nodes d [] = d
put_nodes d (n ∷ nodes) = put_nodes (put d n.name n) nodes

-- `if _, ok := nodesSet[n.GetName()]; !ok { nodesSet[n.GetName()] = n }`
unfoldable pub add_nodes : Dict Node → List Node → Dict Node
add_nodes d [] = d
add_nodes d (n ∷ nodes) = add_nodes (if has d n.name then d else put d n.name n) nodes

unfoldable pub node_set_to_list : Dict Node → List Node
node_set_to_list [] = []
node_set_to_list ((_, n) ∷ d) = n ∷ node_set_to_list d

abbrev found_nodes : Result (List Node) → Result (List Node)
found_nodes (ok nodes) = ok nodes
found_nodes (err e) = if is_not_found e then ok [] else err e

module _ {W : Type 0} (client : Client W) where
  unfoldable pub get_nodes_with_label : (key value : String) → Act W (Result (List Node))
  get_nodes_with_label key value = do r ← call (client.list_nodes key value); pure (found_nodes r)

  unfoldable pub get_all_mgmt_labelled_nodes : Act W (Result (List Node))
  unfolding get_nodes_with_label
  get_all_mgmt_labelled_nodes = get_nodes_with_label mgmt_label_key ""

  unfoldable pub with_targets : List Node → Act W (Result (Dict Node))
  unfolding get_nodes_with_label put_nodes add_nodes
  with_targets clients = do
    targets ← get_nodes_with_label target_label_key ""
    elim targets [
      | err e ↦ pure (err e)
      | ok nodes ↦ pure (ok (add_nodes (put_nodes [] clients) nodes))
    ]

  unfoldable pub get_all_nvmesh_cluster_nodes : Act W (Result (Dict Node))
  unfolding get_nodes_with_label with_targets
  get_all_nvmesh_cluster_nodes = do
    clients ← get_nodes_with_label client_label_key ""
    elim clients [ err e ↦ pure (err e) | ok nodes ↦ with_targets nodes ]
