-- ===== src/Mgmt/Settings.antt =====
-- The two database settings of the resource.
use nvmesh_k8s_operator.Prelude.{Bool, false, ◌≡◌, ◌↔◌, refl, arith, ap}
use nvmesh_k8s_operator.Api.{NvMesh}
use nvmesh_k8s_operator.Operator.{HiddenSettings}
use nvmesh_k8s_operator.Mgmt.{wanted, is_outdated}

abbrev settings : Bool → Bool → HiddenSettings
settings evict format = record { auto_evict_missing_drive = evict; auto_format_drive = format }

equal :
    (evict format evict' format' : Bool)
    → (evict ≡ evict') × (format ≡ format')
    → settings evict format ≡ settings evict' format'
equal evict format evict' format' (p, q) = rw (p, q) refl

-- `handleDBManipulations` leaves the settings alone exactly when both are those that the resource
-- wants: the negations of its two switches.
pub is_outdated_iff :
    (cr : NvMesh) (found : HiddenSettings) → (is_outdated cr found ≡ false) ↔ (found ≡ wanted cr)
unfolding is_outdated
is_outdated_iff cr found = (
  λ h.
      equal found.auto_evict_missing_drive found.auto_format_drive
        (wanted cr).auto_evict_missing_drive (wanted cr).auto_format_drive (ground (arith, h)),
  λ e. ground (arith, ap (λ x. x.auto_evict_missing_drive) e, ap (λ x. x.auto_format_drive) e),
)
