-- ===== src/Approval/Examples.antt =====
-- The properties of the wait for a decision at a concrete proposal.
use mogenius_operator.Prelude.{false, [], ◌∷◌, ◌==◌, ◌≡◌, refl}
use mogenius_operator.Prelude.Assoc.{lookup}
use mogenius_operator.Prelude.Text.{has_prefix}
use mogenius_operator.Access.{zero_user}
use mogenius_operator.Task.{proposed, solved}
use mogenius_operator.Task.Store.{World}
use mogenius_operator.Task.Examples.{new_task, reliable, run_key, world_with, ada}
use mogenius_operator.Task.Machine.{approve, set_to}
use mogenius_operator.Approval.{approved, user_call, tick, receive, wait_for_decision}
use mogenius_operator.Approval.Attributed.{approval_attributed}
use mogenius_operator.Approval.Laws.{solved_counts_as_approval, approval_reaches_run}

abbrev waiting_world : World
waiting_world = record (world_with proposed) { pending_approvals = (run_key, []) ∷ [] }

solved_counts_as_approval_example :
    (wait_for_decision reliable run_key
      (user_call reliable (set_to solved) ∷ tick ∷ [])
      waiting_world).0
    ≡ approved zero_user
unfolding has_prefix lookup
solved_counts_as_approval_example =
    solved_counts_as_approval reliable reliable run_key waiting_world (new_task run_key proposed) []
      refl refl refl refl refl refl

approval_reaches_run_example :
    ((wait_for_decision reliable run_key
        (user_call reliable (approve ada) ∷ receive ∷ [])
        waiting_world).0
      ≡ approved ada)
    × ((wait_for_decision reliable run_key
          (user_call reliable (approve ada) ∷ tick ∷ [])
          waiting_world).0
        ≡ approved ada)
unfolding has_prefix lookup
approval_reaches_run_example =
    approval_reaches_run reliable reliable run_key waiting_world (new_task run_key proposed) ada []
      refl refl refl refl refl refl refl refl

goes_ahead :
    (wait_for_decision reliable run_key
      (user_call reliable (approve ada) ∷ tick ∷ [])
      waiting_world).0
    ≡ approved ada
unfolding has_prefix lookup
goes_ahead =
    (approval_reaches_run reliable reliable run_key waiting_world (new_task run_key proposed) ada []
      refl refl refl refl refl refl refl refl).1

approval_attributed_example : (ada.email == "") ≡ false
unfolding has_prefix lookup
approval_attributed_example =
    approval_attributed reliable run_key (user_call reliable (approve ada) ∷ tick ∷ [])
      waiting_world (new_task run_key proposed) ada refl refl refl refl refl goes_ahead
