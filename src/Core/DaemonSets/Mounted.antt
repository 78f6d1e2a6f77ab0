-- ===== src/Core/DaemonSets/Mounted.antt =====
-- The mounts that the operator adds to the containers of a daemon set.
use nvmesh_k8s_operator.Prelude.{String, true, List, ◌≡◌}
use nvmesh_k8s_operator.Kube.{Volume}
use nvmesh_k8s_operator.Jobs.Mounts.{has_volume}

abbrev Extends : List Volume → List Volume → Type 0
Extends volumes more =
    (name : String) → has_volume volumes name ≡ true → has_volume more name ≡ true
