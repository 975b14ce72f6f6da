-- ===== src/Sync/Machine.antt =====
-- sync.rs: `SyncStateMachine`, the roots of the two sides of a synchronisation.
use post_urbit.Prelude.{Bytes, Bool, true, false, not, ◌≡◌, refl, ◌==◌, list_eq, nat_eq}

pub record SyncStateMachine : Type 0 where
  pub local_root : Bytes
  pub remote_root : Bytes

unfoldable pub new : Bytes → SyncStateMachine
new local_root = record { local_root = local_root; remote_root = local_root }

unfoldable pub request_diff : SyncStateMachine → Bytes → Bool
request_diff m remote_root = not (m.local_root == remote_root)

unfoldable pub apply_remote_root : Bytes → SyncStateMachine → SyncStateMachine
apply_remote_root remote_root m = record m { remote_root = remote_root }

unfoldable pub apply_local_root : Bytes → SyncStateMachine → SyncStateMachine
apply_local_root local_root m = record m { local_root = local_root }

unfoldable pub converged : SyncStateMachine → Bool
converged m = m.local_root == m.remote_root

-- A machine has converged exactly if it would not ask for the difference to the root that it was
-- last given.
pub converged-request_diff :
    (m : SyncStateMachine) (root : Bytes)
    → converged (apply_remote_root root m) ≡ not (request_diff m root)
unfolding converged apply_remote_root request_diff
converged-request_diff m root = not_not (m.local_root == root)
  where
    not_not : (b : Bool) → b ≡ not (not b)
    not_not true = refl
    not_not false = refl
