-- ===== src/Reconcile/Errors.antt =====
-- What a whole cycle returns to controller-runtime.
use nvmesh_k8s_operator.Prelude.{
  String, Bool, true, false, if◌then◌else◌, Option, none, some, ◌≡◌, refl, arith, Bool-cases, inl,
  inr,
}
use nvmesh_k8s_operator.Api.{NvMesh, empty_nvmesh}
use nvmesh_k8s_operator.Kube.{
  Act, pure, Ran, returned, panicked, and_then, ◌>>=◌, Err, Result, ok, err, is_not_found,
  CtrlResult, Outcome, requeue_with_default_back_off,
}
use nvmesh_k8s_operator.Operator.{Operator}
use nvmesh_k8s_operator.Status.{after_update, manage_success, manage_success_nil, manage_error}
use nvmesh_k8s_operator.Reconcile.{
  actions_handled, handle_pending_actions, statuses_removed, components_reconciled,
  finalizer_handled, account_exists, validated, fetched_cr, read_cr, reconcile,
}

abbrev HasNoError : Ran Outcome → Type 0
HasNoError panicked = Unit
HasNoError (returned (_, e)) = e ≡ none

record NeverFails {S : Type 0} (m : Act S Outcome) : Type 0 where
  after : (s : S) → HasNoError (m s).0

module _ {S : Type 0} where
  NeverFails-pure : (o : Outcome) → o.1 ≡ none → NeverFails (pure {S = S} o)
  NeverFails-pure (result, e) h = record { after = λ s. h }

  NeverFails-if :
      (b : Bool) (m n : Act S Outcome)
      → NeverFails m
      → NeverFails n
      → NeverFails (if b then m else n)
  NeverFails-if true m n km kn = km
  NeverFails-if false m n km kn = kn

  -- The end of an action decides.
  NeverFails-bind :
      {A : Type 0} (m : Act S A) (f : A → Act S Outcome)
      → ((a : A) → NeverFails (f a))
      → NeverFails (m >>= f)
  NeverFails-bind {A} m f h = record { after = λ s. go (m s).0 (m s).1 }
    where
      go : (r : Ran A) (s : S) → HasNoError (and_then r f s).0
      go panicked s = tt
      go (returned a) s = (h a).after s

  -- A changed result keeps the error.
  NeverFails-change :
      (m : Act S Outcome) (result : CtrlResult)
      → NeverFails m
      → NeverFails (m >>= λ (_, e). pure (result, e))
  NeverFails-change m result h = record { after = λ s. go (m s).0 (m s).1 (h.after s) }
    where
      go :
          (r : Ran Outcome) (s : S)
          → HasNoError r
          → HasNoError (and_then r (λ (_, e). pure (result, e)) s).0
      go panicked s k = tt
      go (returned (_, e)) s k = k

ruleset never_fails_rules = (NeverFails-pure, NeverFails-if, NeverFails-bind, NeverFails-change)

module _ {W : Type 0} (op : Operator W) where
  after_update-none : (result : CtrlResult) (e : Option Err) → (after_update op result e).1 ≡ none
  unfolding after_update
  after_update-none result e = ground arith

  manage_success-NeverFails : (result : CtrlResult) → NeverFails (manage_success op result)
  unfolding manage_success
  manage_success-NeverFails result = search (never_fails_rules, after_update-none) depth 9

  manage_error-NeverFails : (x : Err) (result : CtrlResult) → NeverFails (manage_error op x result)
  unfolding manage_error
  manage_error-NeverFails x result = search (never_fails_rules, after_update-none) depth 9

  actions_handled-NeverFails : (o : Outcome) → NeverFails (actions_handled op o)
  unfolding actions_handled
  actions_handled-NeverFails (result, some x) = manage_error-NeverFails x result
  actions_handled-NeverFails (result, none) = search (never_fails_rules, manage_success-NeverFails)

  pending-NeverFails : NeverFails (handle_pending_actions op)
  unfolding handle_pending_actions
  pending-NeverFails =
      search (never_fails_rules, actions_handled-NeverFails, manage_success-NeverFails)

  removed-NeverFails : (result : CtrlResult) → NeverFails (statuses_removed op result)
  unfolding statuses_removed
  removed-NeverFails result =
      search (never_fails_rules, pending-NeverFails, manage_success-NeverFails)

  components-NeverFails : (o : Outcome) → NeverFails (components_reconciled op o)
  unfolding components_reconciled
  components-NeverFails (result, none) = search (never_fails_rules, removed-NeverFails)
  components-NeverFails (result, some x) =
      search (never_fails_rules, manage_error-NeverFails, removed-NeverFails)

  finalizer-NeverFails : (o : Outcome) → NeverFails (finalizer_handled op o)
  unfolding finalizer_handled
  finalizer-NeverFails (result, some x) = manage_error-NeverFails x requeue_with_default_back_off
  finalizer-NeverFails (result, none) =
      search (never_fails_rules, components-NeverFails, manage_success-NeverFails)

  account-NeverFails : (e : Option Err) → NeverFails (account_exists op e)
  unfolding account_exists
  account-NeverFails (some x) = manage_error-NeverFails x requeue_with_default_back_off
  account-NeverFails none = search (never_fails_rules, finalizer-NeverFails)

  validated-NeverFails : (e : Option Err) → NeverFails (validated op e)
  unfolding validated
  validated-NeverFails (some x) = manage_error-NeverFails x requeue_with_default_back_off
  validated-NeverFails none = search (never_fails_rules, account-NeverFails)

  fetched-NeverFails : NeverFails (fetched_cr op)
  unfolding fetched_cr
  fetched-NeverFails = search (never_fails_rules, validated-NeverFails)

  read-HasNoError : (r : Result NvMesh × W) → HasNoError (read_cr op r).0
  unfolding read_cr manage_success_nil
  read-HasNoError (ok cr, w) = fetched-NeverFails.after (record { cr = cr; world = w })
  read-HasNoError (err e, w) = elim (Bool-cases (is_not_found e)) [
    | inl q ↦ rw q refl
    | inr q ↦ rw q (
        (manage_error-NeverFails e requeue_with_default_back_off).after
          (record { cr = empty_nvmesh; world = w }))
  ]

  no_error :
      (r : Ran Outcome) (result : CtrlResult) (x : Err)
      → HasNoError r
      → ¬ (r ≡ returned (result, some x))
  no_error panicked result x h = cc
  no_error (returned (_, e)) result x h = cc

  -- A cycle never returns an error to controller-runtime, whatever fails in it: an error is put into the
  -- status or dropped.
  pub reconcile-ne-error :
      (namespace name : String) (w : W) (result : CtrlResult) (x : Err)
      → ¬ ((reconcile op namespace name w).0 ≡ returned (result, some x))
  unfolding reconcile
  reconcile-ne-error namespace name w result x =
      no_error (reconcile op namespace name w).0 result x
        (read-HasNoError (op.client.get_nvmesh namespace name w))
