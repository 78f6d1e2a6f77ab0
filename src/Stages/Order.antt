-- ===== src/Stages/Order.antt =====
-- The order of the uninstall stages in the statuses of a resource.
use nvmesh_k8s_operator.Prelude.{
  String, false, List, [], ◌∷◌, ◌==◌, ◌≡◌, ◌⊎◌, inl, inr, sym, ◌∙◌, arith, eq_refl, All,
}
use nvmesh_k8s_operator.Api.{NvMesh}
use nvmesh_k8s_operator.Operator.{Session}
use nvmesh_k8s_operator.Tasks.{task_finished, set_task_status, is_task_finished}
use nvmesh_k8s_operator.Tasks.Laws.{status_of, status_of-set, status_of-is_task_finished}
use nvmesh_k8s_operator.Stages.{Task, uninstall_action}

-- The status of an uninstall stage.
abbrev pub stage_status : NvMesh → String → String
stage_status cr name = status_of cr "uninstall" name

-- No stage of the list has a status.
abbrev pub IsUntouched : NvMesh → List String → Type 0
IsUntouched cr names = All (λ name. stage_status cr name ≡ "") names

-- The finished stages come first, then at most one that was started, then those without a status.
abbrev pub InOrder : NvMesh → List String → Type 0
InOrder cr [] = Unit
InOrder cr (name ∷ names) =
    ((stage_status cr name ≡ task_finished) × InOrder cr names) ⊎ IsUntouched cr names

-- A name differs from every name of a list; and every name from all after it.
abbrev pub IsFresh : String → List String → Type 0
IsFresh name names = All (λ other. (name == other) ≡ false) names

abbrev pub AreDistinct : List String → Type 0
AreDistinct [] = Unit
AreDistinct (name ∷ names) = IsFresh name names × AreDistinct names

-- Two resources with the same statuses of a list of stages.
abbrev pub SameStages : NvMesh → NvMesh → List String → Type 0
SameStages a b names = All (λ name. stage_status a name ≡ stage_status b name) names

pub IsUntouched-same :
    (a b : NvMesh) (names : List String)
    → SameStages a b names
    → IsUntouched a names
    → IsUntouched b names
IsUntouched-same a b [] s u = tt
IsUntouched-same a b (n ∷ names) (e, s) (h, u) = (sym e ∙ h, IsUntouched-same a b names s u)

pub InOrder-same :
    (a b : NvMesh) (names : List String) → SameStages a b names → InOrder a names → InOrder b names
InOrder-same a b [] s o = tt
InOrder-same a b (n ∷ names) (e, s) (inl (h, o)) = inl (sym e ∙ h, InOrder-same a b names s o)
InOrder-same a b (n ∷ names) (e, s) (inr u) = inr (IsUntouched-same a b names s u)

pub SameStages-set :
    (cr : NvMesh) (name value : String) (names : List String)
    → IsFresh name names
    → SameStages cr (set_task_status uninstall_action name value cr) names
SameStages-set cr name value [] f = tt
SameStages-set cr name value (n ∷ names) (d, f) = (
  ground (arith, status_of-set cr uninstall_action name value "uninstall" n),
  SameStages-set cr name value names f,
)

pub SameStages-read :
    (cr : NvMesh) (name : String) (names : List String)
    → SameStages cr (is_task_finished cr uninstall_action name).1 names
SameStages-read cr name [] = tt
SameStages-read cr name (n ∷ names) = (
  sym (status_of-is_task_finished cr uninstall_action name "uninstall" n),
  SameStages-read cr name names,
)

pub status_of-set_self :
    (cr : NvMesh) (name value : String)
    → stage_status (set_task_status uninstall_action name value cr) name ≡ value
status_of-set_self cr name value = rw status_of-set (simp eq_refl)

pub InOrder-untouched :
    (cr : NvMesh) (names : List String) → IsUntouched cr names → InOrder cr names
InOrder-untouched cr [] u = tt
InOrder-untouched cr (n ∷ names) (h, u) = inr u

-- A stage's run leaves the statuses of the stages alone.
abbrev pub KeepsStatuses : {W : Type 0} → Task W → Type 0
KeepsStatuses {W} t =
    (s : Session W) (name : String) → stage_status (t.run s).1.cr name ≡ stage_status s.cr name

pub SameStages-run :
    {W : Type 0} (t : Task W)
    → KeepsStatuses t
    → (s : Session W) (names : List String) → SameStages s.cr (t.run s).1.cr names
SameStages-run t k s [] = tt
SameStages-run t k s (n ∷ names) = (sym (k s n), SameStages-run t k s names)

abbrev pub stage_names : {W : Type 0} → List (Task W) → List String
stage_names [] = []
stage_names (t ∷ stages) = t.name ∷ stage_names stages

abbrev pub AllKeep : {W : Type 0} → List (Task W) → Type 0
AllKeep [] = Unit
AllKeep (t ∷ stages) = KeepsStatuses t × AllKeep stages
