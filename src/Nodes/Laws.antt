-- ===== src/Nodes/Laws.antt =====
-- The nodes of the cluster are those with the client label and those with the target label, each once.
use nvmesh_k8s_operator.Prelude.{
  String, Bool, List, [], ◌∷◌, ◌==◌, ◌||◌, any, ◌≡◌, refl, arith, eq_iff, All, String-cases,
  Bool-cases, inl, inr, sym,
}
use nvmesh_k8s_operator.Prelude.Dict.{Dict, get, put, has, get-put}
use nvmesh_k8s_operator.Kube.{Node}
use nvmesh_k8s_operator.Nodes.{put_nodes, add_nodes, node_set_to_list}

abbrev pub has_node : List Node → String → Bool
has_node nodes name = any (λ n. n.name == name) nodes

has-put :
    (d : Dict Node) (k name : String) (n : Node) → has (put d k n) name ≡ (k == name || has d name)
has-put d k name n = ground (arith, get-put d k name n)

has-put_nodes :
    (d : Dict Node) (nodes : List Node) (name : String)
    → has (put_nodes d nodes) name ≡ (has d name || has_node nodes name)
unfolding put_nodes
has-put_nodes d [] name = ground arith
has-put_nodes d (n ∷ nodes) name =
    ground (arith, has-put_nodes (put d n.name n) nodes name, has-put d n.name name n)

has-add_nodes :
    (d : Dict Node) (nodes : List Node) (name : String)
    → has (add_nodes d nodes) name ≡ (has d name || has_node nodes name)
unfolding add_nodes
has-add_nodes d [] name = ground arith
has-add_nodes d (n ∷ nodes) name = ground (
  arith,
  has-add_nodes (put d n.name n) nodes name,
  has-add_nodes d nodes name,
  has-put d n.name name n,
  eq_iff n.name name,
)

-- Every node of a set stands under its own name.
abbrev pub IsNamed : Dict Node → Type 0
IsNamed d = All (λ (entry : String × Node). entry.1.name ≡ entry.0) d

put-IsNamed : (d : Dict Node) (n : Node) → IsNamed d → IsNamed (put d n.name n)
unfolding put
put-IsNamed [] n h = (refl, tt)
put-IsNamed ((k, m) ∷ d) n (p, h) = elim (String-cases k n.name) [
  | inl (same, e) ↦ rw e (sym same, h)
  | inr (differ, e) ↦ rw e (p, put-IsNamed d n h)
]

put_nodes-IsNamed : (d : Dict Node) (nodes : List Node) → IsNamed d → IsNamed (put_nodes d nodes)
unfolding put_nodes
put_nodes-IsNamed d [] h = h
put_nodes-IsNamed d (n ∷ nodes) h = put_nodes-IsNamed (put d n.name n) nodes (put-IsNamed d n h)

add_nodes-IsNamed : (d : Dict Node) (nodes : List Node) → IsNamed d → IsNamed (add_nodes d nodes)
unfolding add_nodes
add_nodes-IsNamed d [] h = h
add_nodes-IsNamed d (n ∷ nodes) h = elim (Bool-cases (has d n.name)) [
  | inl q ↦ rw q (add_nodes-IsNamed d nodes h)
  | inr q ↦ rw q (add_nodes-IsNamed (put d n.name n) nodes (put-IsNamed d n h))
]

listed :
    (d : Dict Node) (name : String) → IsNamed d → has_node (node_set_to_list d) name ≡ has d name
unfolding node_set_to_list get
listed [] name h = refl
listed ((k, n) ∷ d) name (p, h) = ground (arith, listed d name h, p)

-- The list of `getAllNVMeshClusterNodes` has a node of a name exactly when the API server listed one of
-- that name under the client label or the target label.
pub has_node-cluster :
    (clients targets : List Node) (name : String)
    → has_node (node_set_to_list (add_nodes (put_nodes [] clients) targets)) name
      ≡ (has_node clients name || has_node targets name)
unfolding get
has_node-cluster clients targets name = ground (
  arith,
  listed (add_nodes (put_nodes [] clients) targets) name
      (add_nodes-IsNamed (put_nodes [] clients) targets (put_nodes-IsNamed [] clients tt)),
  has-add_nodes (put_nodes [] clients) targets name,
  has-put_nodes [] clients name,
)
