-- ===== src/Workflow/CoAllocation.antt =====
-- How long a co-allocation runs (src/vrm/workflow/co_allocation.rs).
use vrm_rust.Base.{
  String, Option, none, some, List, [], ◌∷◌, if◌then◌else◌, ◌>>=◌, string_eq, map_option,
}
use vrm_rust.Base.Int.{ℤ, pos, ltb_ℤ}
use vrm_rust.Base.Dict
use vrm_rust.Base.Dict.{Dict}
use vrm_rust.Store.{Store}
use vrm_rust.Store.Read
use vrm_rust.Workflow.Types.{WorkflowNode, CoAllocation}

-- A member that is no node of the workflow is passed over; `none` is the panic of
-- `get_task_duration` at an unknown reservation.
unfoldable pub longer : Store → ℤ → Option WorkflowNode → Option ℤ
longer s longest none = some longest
longer s longest (some member) =
    map_option (λ duration. if ltb_ℤ longest duration then duration else longest)
      (Read.get_task_duration s member.reservation_id)

unfoldable pub longest_of : Store → Dict String WorkflowNode → ℤ → List String → Option ℤ
unfolding longer
longest_of s nodes longest [] = some longest
longest_of s nodes longest (key ∷ keys) = do
  longest' ← longer s longest (Dict.get key nodes)
  longest_of s nodes longest' keys

unfoldable pub get_co_allocation_duration :
    CoAllocation → Dict String WorkflowNode → Store → Option ℤ
unfolding longest_of
get_co_allocation_duration g nodes s = longest_of s nodes (pos 0) g.members
