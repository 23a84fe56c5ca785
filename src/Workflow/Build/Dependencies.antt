-- ===== src/Workflow/Build/Dependencies.antt =====
-- The dependencies of a workflow, phase 2 of its construction (src/vrm/workflow/workflow.rs).
use Prim.Native.String.{◌++◌ as str_append}
use vrm_rust.Base.{
  ℕ, String, Bool, true, false, Option, none, some, List, [], ◌∷◌, if◌then◌else◌, ◌>>=◌, string_eq,
  nat_eq, ◌==◌,
}
use vrm_rust.Base.Int.{ℤ, pos}
use vrm_rust.Base.I64.{◌*i◌}
use vrm_rust.Base.Dict
use vrm_rust.Base.Dict.{Dict}
use vrm_rust.Reservation.Fields.{ReservationBase, open_state}
use vrm_rust.Reservation.Kinds.{Reservation, link}
use vrm_rust.Store.{Store, add}
use vrm_rust.Store.Read
use vrm_rust.Workflow.Types.{DataDependency, SyncDependency}
use vrm_rust.Workflow.Dto.{
  WorkflowDto, TaskDto, DataOutDto, DataInDto, map_reservation_state, map_reservation_proceeding,
}
use vrm_rust.Workflow.Build.{fresh_base}

-- A dependency that has a source and no target yet.
pub data DanglingDependency : Type 0 where
  data_dangling : DataDependency → DanglingDependency
  sync_dangling : SyncDependency → DanglingDependency

pub record Dependencies : Type 0 where
  pub data_dependencies : Dict String DataDependency
  pub sync_dependencies : Dict String SyncDependency

-- The key of an output of a task, and the name of its dependency.
unfoldable pub dangling_key : String → String → String
dangling_key source port = str_append source (str_append "/" port)

unfoldable pub port_dependency_name : String → String → String → String
port_dependency_name workflow_id source port =
    str_append workflow_id (str_append "." (str_append source (str_append "." port)))

unfoldable pub implicit_dependency_name : String → String → String → String → String
implicit_dependency_name workflow_id dep_type source target = str_append workflow_id (
    str_append "."
      (str_append dep_type (str_append "." (str_append source (str_append "." target)))))

unfoldable pub new_link : ReservationBase → Reservation
new_link base = link (record { base = base; start_point = none; end_point = none })

module _ (new_key : Dict ℕ Reservation → ℕ) (dto : WorkflowDto) (client_id : String) where
  -- Phase 2.1. The reservation of an output, with the amount as its capacity.
  unfoldable pub output_reservation : TaskDto → String → ℤ → Bool → Reservation
  unfolding fresh_base new_link port_dependency_name map_reservation_state
      map_reservation_proceeding
  output_reservation task port amount moldable = new_link (
      fresh_base (port_dependency_name dto.id task.id port) client_id
        (map_reservation_state task.reservation_state)
        (map_reservation_proceeding task.request_proceeding) dto (pos 1) amount moldable
        (amount *i pos 1))

  unfoldable pub data_out_sized :
      TaskDto
      → DataOutDto
      → Dict String DanglingDependency
      → Store
      → ℤ
      → Dict String DanglingDependency × Store
  unfolding add output_reservation dangling_key
  data_out_sized task out dangling s size =
      let (s', id) = add new_key s (output_reservation task out.name size true) in
      (
        Dict.insert (dangling_key task.id out.name)
            (data_dangling (record {
              reservation_id = id;
              source_node = some task.id;
              target_node = none;
              port_name = out.name;
              size = size;
            }))
            dangling,
        s',
      )

  -- An output with neither a size nor a bandwidth makes no dependency.
  unfoldable pub data_out_streamed :
      TaskDto
      → DataOutDto
      → Dict String DanglingDependency
      → Store
      → Option ℤ
      → Dict String DanglingDependency × Store
  unfolding add output_reservation dangling_key
  data_out_streamed task out dangling s none = (dangling, s)
  data_out_streamed task out dangling s (some bandwidth) =
      let (s', id) = add new_key s (output_reservation task out.name bandwidth false) in
      (
        Dict.insert (dangling_key task.id out.name)
            (sync_dangling (record {
              reservation_id = id;
              source_node = some task.id;
              target_node = none;
              port_name = out.name;
              bandwidth = bandwidth;
            }))
            dangling,
        s',
      )

  unfoldable pub process_data_out :
      TaskDto
      → DataOutDto
      → Dict String DanglingDependency
      → Store
      → Option ℤ
      → Dict String DanglingDependency × Store
  unfolding data_out_sized data_out_streamed
  process_data_out task out dangling s none = data_out_streamed task out dangling s out.bandwidth
  process_data_out task out dangling s (some size) = data_out_sized task out dangling s size

  unfoldable pub outputs_of :
      TaskDto
      → List DataOutDto
      → Dict String DanglingDependency
      → Store
      → Dict String DanglingDependency × Store
  unfolding process_data_out
  outputs_of task [] dangling s = (dangling, s)
  outputs_of task (out ∷ outs) dangling s =
      let (dangling', s') = process_data_out task out dangling s out.size in
      outputs_of task outs dangling' s'

  unfoldable pub all_outputs :
      List TaskDto → Dict String DanglingDependency → Store → Dict String DanglingDependency × Store
  unfolding outputs_of
  all_outputs [] dangling s = (dangling, s)
  all_outputs (task ∷ tasks) dangling s =
      let (dangling', s') = outputs_of task task.node_reservation.data_out dangling s in
      all_outputs tasks dangling' s'

-- Phase 2.2. `none` is the panic of `unwrap` at a reservation without a name.
unfoldable pub connect :
    Store → String → Option DanglingDependency → Dependencies → Option Dependencies
unfolding Read.get_name_for_key
connect s target none deps = some deps
connect s target (some (data_dangling dep)) deps = do
  name ← Read.get_name_for_key s dep.reservation_id
  some (record deps {
    data_dependencies =
        Dict.insert name (record dep { target_node = some target }) deps.data_dependencies;
  })
connect s target (some (sync_dangling dep)) deps = do
  name ← Read.get_name_for_key s dep.reservation_id
  some (record deps {
    sync_dependencies =
        Dict.insert name (record dep { target_node = some target }) deps.sync_dependencies;
  })

unfoldable pub inputs_of :
    Store
    → String
    → List DataInDto
    → Dict String DanglingDependency
    → Dependencies
    → Option (Dict String DanglingDependency × Dependencies)
unfolding connect dangling_key
inputs_of s target [] dangling deps = some (dangling, deps)
inputs_of s target (input ∷ inputs) dangling deps = do
  let key = dangling_key input.source_reservation input.source_port
  deps' ← connect s target (Dict.get key dangling) deps
  inputs_of s target inputs (Dict.remove key dangling) deps'

unfoldable pub all_inputs :
    Store → List TaskDto → Dict String DanglingDependency → Dependencies → Option Dependencies
unfolding inputs_of
all_inputs s [] dangling deps = some deps
all_inputs s (task ∷ tasks) dangling deps = do
  (dangling', deps') ← inputs_of s task.id task.node_reservation.data_in dangling deps
  all_inputs s tasks dangling' deps'

module _ (new_key : Dict ℕ Reservation → ℕ) (dto : WorkflowDto) (client_id : String) where
  unfoldable pub implicit_dependency : TaskDto → String → String → ℕ → Dependencies → Dependencies
  unfolding implicit_dependency_name
  implicit_dependency task dep_type source id deps =
      let name = implicit_dependency_name dto.id dep_type source task.id in
      if dep_type == "data"
      then record deps {
        data_dependencies =
            Dict.insert name
              (record {
                reservation_id = id;
                source_node = some source;
                target_node = some task.id;
                port_name = "data";
                size = pos 0;
              })
              deps.data_dependencies;
      }
      else if dep_type == "sync"
      then record deps {
        sync_dependencies =
            Dict.insert name
              (record {
                reservation_id = id;
                source_node = some source;
                target_node = some task.id;
                port_name = "sync";
                bandwidth = pos 0;
              })
              deps.sync_dependencies;
      }
      else deps

  -- Phase 2.3. An implicit dependency is open, whatever the state of its task.
  unfoldable pub create_implicit_dependencies :
      TaskDto → List String → String → Dependencies → Store → Dependencies × Store
  unfolding add fresh_base new_link implicit_dependency implicit_dependency_name
      map_reservation_proceeding
  create_implicit_dependencies task [] dep_type deps s = (deps, s)
  create_implicit_dependencies task (source ∷ sources) dep_type deps s =
      let name = implicit_dependency_name dto.id dep_type source task.id in
      let base =
        fresh_base name client_id open_state (map_reservation_proceeding task.request_proceeding)
          dto (pos 0) (pos 0) false (pos 0) in
      let (s', id) = add new_key s (new_link base) in
      create_implicit_dependencies task sources dep_type
        (implicit_dependency task dep_type source id deps) s'

  unfoldable pub all_implicit : List TaskDto → Dependencies → Store → Dependencies × Store
  unfolding create_implicit_dependencies
  all_implicit [] deps s = (deps, s)
  all_implicit (task ∷ tasks) deps s =
      let needs = task.node_reservation.dependencies in
      let (deps1, s1) = create_implicit_dependencies task needs.to_data "data" deps s in
      let (deps2, s2) = create_implicit_dependencies task needs.to_sync "sync" deps1 s1 in
      all_implicit tasks deps2 s2

  unfoldable pub build_all_dependencies : Store → Option (Dependencies × Store)
  unfolding all_outputs all_inputs all_implicit
  build_all_dependencies s = do
    let (dangling, s1) = all_outputs new_key dto client_id dto.tasks [] s
    deps ←
        all_inputs s1 dto.tasks dangling (record { data_dependencies = []; sync_dependencies = [] })
    some (all_implicit dto.tasks deps s1)
