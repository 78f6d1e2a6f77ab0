-- ===== src/Kube.antt =====
-- What the controllers use of Kubernetes: its objects (Objects), errors and actions (Actions), the API
-- client and the other outside services as an interface (Services).
mod Objects
mod Actions
mod Services
pub mod Keeps
pub use Objects.*
pub use Actions.*
unfoldable pub use Objects.{kind_of}
unfoldable pub use Actions.{error_text, reason_of}
pub use Services.*
