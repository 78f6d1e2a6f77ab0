-- ===== src/Core/Config.antt =====
-- What an update of nvmesh.conf keeps of the cluster's settings, and when there is one.
use nvmesh_k8s_operator.Prelude.{String, Option, none, some, [], ◌∷◌, ◌≡◌, arith, eq_iff}
use nvmesh_k8s_operator.Prelude.Dict.{Dict, get, put, get-put}
use nvmesh_k8s_operator.Core.{keep_added}

abbrev pub or_else : Option String → Option String → Option String
or_else none o = o
or_else (some v) o = some v

-- The merged settings have the expected value of each expected field, and keep the current value of
-- every other field: nothing that a user added is lost.
pub get-keep_added :
    (expected current : Dict String) (k : String)
    → get (keep_added expected current) k ≡ or_else (get expected k) (get current k)
unfolding keep_added get
get-keep_added expected [] k = ground arith
get-keep_added expected ((j, v) ∷ current) k = ground (
  arith,
  get-keep_added expected current k,
  get-keep_added (put expected j v) current k,
  get-put expected j k v,
  eq_iff j k,
)
