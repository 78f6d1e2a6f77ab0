-- ===== src/Kube/Actions.antt =====
-- Errors, and actions on a state. Go returns an error as a value beside the result, so an action
-- returns a plain value and a fallible one returns an `Option Err` or a `Result`.
use nvmesh_k8s_operator.Prelude.{ℕ, String, Bool, true, false, Option, none, some, [], ◌∷◌, concat}

-- What an API error reports (metav1.StatusReason); `no_kind_match` is meta.NoKindMatchError.
pub data Reason : Type 0 where
  not_found already_exists conflict no_kind_match unspecified : Reason

-- An error that an outside service returned, one with a message (goerrors.New, fmt.Errorf), or one
-- that errors.Wrap has given a message.
pub data Err : Type 0 where
  api : Reason → String → Err
  message : String → Err
  wrap : Err → String → Err

-- err.Error()
unfoldable pub error_text : Err → String
error_text (api _ m) = m
error_text (message m) = m
error_text (wrap e m) = concat (m ∷ ": " ∷ error_text e ∷ [])

-- k8serrors.ReasonForError follows Unwrap, so a wrapped error keeps its reason.
unfoldable pub reason_of : Err → Reason
reason_of (api r _) = r
reason_of (message _) = unspecified
reason_of (wrap e _) = reason_of e

abbrev reason_is_not_found : Reason → Bool
reason_is_not_found not_found = true
reason_is_not_found _ = false

abbrev reason_is_already_exists : Reason → Bool
reason_is_already_exists already_exists = true
reason_is_already_exists _ = false

abbrev reason_is_conflict : Reason → Bool
reason_is_conflict conflict = true
reason_is_conflict _ = false

abbrev pub is_not_found : Err → Bool
is_not_found e = reason_is_not_found (reason_of e)

abbrev pub is_already_exists : Err → Bool
is_already_exists e = reason_is_already_exists (reason_of e)

abbrev pub is_conflict : Err → Bool
is_conflict e = reason_is_conflict (reason_of e)

-- The type assertion err.(*meta.NoKindMatchError) sees no wrapped error.
abbrev pub is_no_kind_match : Err → Bool
is_no_kind_match (api no_kind_match _) = true
is_no_kind_match _ = false

pub data Result {ℓ} (A : Type ℓ) : Type ℓ where
  ok : A → Result A
  err : Err → Result A

-- A call of an outside service: it answers and changes the world.
abbrev pub Call : Type 0 → Type 0 → Type 0
Call W A = W → A × W

-- How a Go function ends: it returns, or it panics.
pub data Ran (A : Type 0) : Type 0 where
  returned : A → Ran A
  panicked : Ran A

abbrev pub Act : Type 0 → Type 0 → Type 0
Act S A = S → Ran A × S

module _ {S A : Type 0} where
  abbrev pub pure : A → Act S A
  pure a s = (returned a, s)

  abbrev pub panic : Act S A
  panic s = (panicked, s)

  abbrev pub call : Call S A → Act S A
  call m s = let (a, s') = m s in (returned a, s')

module _ {S A B : Type 0} where
  abbrev pub and_then : Ran A → (A → Act S B) → Act S B
  and_then (returned a) f s = f a s
  and_then panicked f s = (panicked, s)

  infixl 5 ◌>>=◌ ◌>>◌
  abbrev pub ◌>>=◌ : Act S A → (A → Act S B) → Act S B
  ◌>>=◌ m f s = let (r, s') = m s in and_then r f s'

  abbrev pub ◌>>◌ : Act S A → Act S B → Act S B
  m >> k = m >>= λ _. k

-- `if err := m; err != nil { return err }` before the rest
abbrev pub or_return : {S : Type 0} → Act S (Option Err) → Act S (Option Err) → Act S (Option Err)
or_return m k = m >>= λ e. elim e [ some x ↦ pure (some x) | none ↦ k ]

-- errors.Wrap(err, msg), which is nil for nil
abbrev pub wrap_error : Option Err → String → Option Err
wrap_error none m = none
wrap_error (some e) m = some (wrap e m)

-- `if err != nil && !IsX(err)`: the error is dropped if it is an `is_x`.
abbrev pub unless : (Err → Bool) → Option Err → Option Err
unless is_x none = none
unless is_x (some e) = elim (is_x e) [ true ↦ none | false ↦ some e ]

-- ctrl.Result; `requeue_after` in seconds
pub record CtrlResult : Type 0 where
  pub requeue : Bool
  pub requeue_after : ℕ

-- A (ctrl.Result, error) pair.
abbrev pub Outcome : Type 0
Outcome = CtrlResult × Option Err

-- DoNotRequeue, Requeue and RequeueWithDefaultBackOff of ctrl_utils.go
abbrev pub do_not_requeue : CtrlResult
do_not_requeue = record { requeue = false; requeue_after = 0 }

abbrev pub requeue_in : ℕ → CtrlResult
requeue_in seconds = record { requeue = true; requeue_after = seconds }

abbrev pub requeue_with_default_back_off : CtrlResult
requeue_with_default_back_off = record { requeue = true; requeue_after = 0 }
