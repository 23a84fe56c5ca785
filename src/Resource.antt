-- ===== src/Resource.antt =====
-- The resources of a component, its nodes and links, and the store of them
-- (src/vrm/resource/resource_store.rs, resources.rs, node_resource.rs, link_resource.rs and
-- resource_trait.rs). `none` stands for a panic at an unknown link.
use vrm_rust.Base.{
  ℕ, String, Bool, true, false, Option, none, some, List, [], ◌∷◌, string_eq, nat_eq, if◌then◌else◌,
  ◌==◌, ◌>>=◌, ◌&&◌, ◌||◌, not, is_some, length, map_option, pair_eq, unwrap_or,
}
use vrm_rust.Base.Int.{ℤ, pos, leb_ℤ, ltb_ℤ}
use vrm_rust.Base.I64.{◌+i◌}
use vrm_rust.Base.Dict
use vrm_rust.Base.Dict.{Dict, values}
use vrm_rust.Base.HashSet
use vrm_rust.Reservation.Kinds.{Reservation, node, link, workflow}
use vrm_rust.Schedule.Context.{Context}
use vrm_rust.Schedule.NodeStrategy.{NodeStrategy}
use vrm_rust.Store.{Store}
use vrm_rust.Store.Read

pub record BaseResource : Type 0 where
  pub name : String
  pub capacity : ℤ

pub record NodeResource : Type 0 where
  pub base : BaseResource

-- The schedule of a link shares the store of the reservations; what is called on it here does not
-- read that store.
pub record LinkResource : Type 0 where
  pub base : BaseResource
  pub source : String
  pub target : String
  pub schedule : Context NodeStrategy

pub data FeasibilityRequest : Type 0 where
  node_request : ℤ → Bool → FeasibilityRequest
  link_request : String → String → ℤ → Bool → FeasibilityRequest

-- A moldable reservation always fits, and so does one of no capacity.
unfoldable pub can_handle : BaseResource → Bool → ℤ → Bool
can_handle b moldable capacity =
    if not moldable && ltb_ℤ (pos 0) capacity then leb_ℤ capacity b.capacity else true

unfoldable pub node_can_handle : NodeResource → FeasibilityRequest → Bool
unfolding can_handle
node_can_handle n (node_request capacity moldable) = can_handle n.base moldable capacity
node_can_handle n (link_request source target capacity moldable) = false

unfoldable pub link_can_handle : LinkResource → FeasibilityRequest → Bool
unfolding can_handle
link_can_handle l (node_request capacity moldable) = false
link_can_handle l (link_request source target capacity moldable) =
    if source == l.source && target == l.target then can_handle l.base moldable capacity else false

-- A path is the ids of its links, in order.
abbrev pub LinkPath : Type 0
LinkPath = List ℕ

pub record ResourceStore : Type 0 where
  pub nodes : Dict ℕ NodeResource
  pub links : Dict ℕ LinkResource
  pub k_shortest_paths : Dict (String × String) (List LinkPath)
  pub node_index : Dict String ℕ
  pub router_list : List String

unfoldable pub new : ResourceStore
new = record { nodes = []; links = []; k_shortest_paths = []; node_index = []; router_list = [] }

-- The slot maps pick the keys of new entries.
unfoldable pub add_node :
    (Dict ℕ NodeResource → ℕ) → ResourceStore → NodeResource → ResourceStore × ℕ
add_node new_key s n =
    let key = new_key s.nodes in
    (
      record s {
        nodes = Dict.insert key n s.nodes;
        node_index = Dict.insert n.base.name key s.node_index;
      },
      key,
    )

unfoldable pub contains_node : ResourceStore → String → Bool
contains_node s name = is_some (Dict.get name s.node_index)

unfoldable pub remove_key : ResourceStore → Option ℕ → ResourceStore
remove_key s none = s
remove_key s (some key) = record s { nodes = Dict.remove key s.nodes }

unfoldable pub remove_node : ResourceStore → String → ResourceStore
unfolding remove_key
remove_node s name =
    remove_key (record s { node_index = Dict.remove name s.node_index })
      (Dict.get name s.node_index)

unfoldable pub get_node : ResourceStore → ℕ → Option NodeResource
get_node s id = Dict.get id s.nodes

unfoldable pub sum_of {ℓ} : {A : Type ℓ} → (A → ℤ) → List A → ℤ
sum_of f [] = pos 0
sum_of f (x ∷ xs) = f x +i sum_of f xs

unfoldable pub get_total_node_capacity : ResourceStore → ℤ
unfolding sum_of
get_total_node_capacity s = sum_of (λ (n : NodeResource). n.base.capacity) (values s.nodes)

unfoldable pub get_num_of_nodes : ResourceStore → ℤ
get_num_of_nodes s = pos (length s.nodes)

unfoldable pub add_link :
    (Dict ℕ LinkResource → ℕ) → ResourceStore → LinkResource → ResourceStore × ℕ
add_link new_key s l =
    let key = new_key s.links in (record s { links = Dict.insert key l s.links }, key)

-- `get_link` and `get_mut_link`.
unfoldable pub get_link : ResourceStore → ℕ → Option LinkResource
get_link s id = Dict.get id s.links

unfoldable pub get_source : ResourceStore → ℕ → Option String
unfolding get_link
get_source s id = map_option (λ l. l.source) (get_link s id)

unfoldable pub get_target : ResourceStore → ℕ → Option String
unfolding get_link
get_target s id = map_option (λ l. l.target) (get_link s id)

unfoldable pub get_name : ResourceStore → ℕ → Option String
unfolding get_link
get_name s id = map_option (λ l. l.base.name) (get_link s id)

unfoldable pub get_capacity : ResourceStore → ℕ → Option ℤ
unfolding get_link
get_capacity s id = map_option (λ l. l.base.capacity) (get_link s id)

unfoldable pub get_total_link_capacity : ResourceStore → ℤ
unfolding sum_of
get_total_link_capacity s = sum_of (λ (l : LinkResource). l.base.capacity) (values s.links)

unfoldable pub get_num_of_links : ResourceStore → ℕ
get_num_of_links s = length s.links

unfoldable pub get_total_capacity : ResourceStore → ℤ
unfolding get_total_link_capacity get_total_node_capacity
get_total_capacity s = get_total_link_capacity s +i get_total_node_capacity s

-- `with_mut_slotted_schedule_strategy` with a function that reads, and with one that writes.
unfoldable pub read_schedule {ℓ} :
    {A : Type ℓ} → ResourceStore → ℕ → (Context NodeStrategy → A) → Option A
unfolding get_link
read_schedule s id f = map_option (λ l. f l.schedule) (get_link s id)

unfoldable pub with_mut_slotted_schedule_strategy :
    ResourceStore → ℕ → (Context NodeStrategy → Context NodeStrategy) → Option ResourceStore
unfolding get_link
with_mut_slotted_schedule_strategy s id f =
    map_option
      (λ l. record s { links = Dict.insert id (record l { schedule = f l.schedule }) s.links })
      (get_link s id)

unfoldable pub add_k_shortest_paths :
    ResourceStore → Dict (String × String) (List LinkPath) → ResourceStore
add_k_shortest_paths s paths = record s { k_shortest_paths = paths }

unfoldable pub get_k_shortest_paths : ResourceStore → String → String → Option (List LinkPath)
get_k_shortest_paths s source target = Dict.get (source, target) s.k_shortest_paths

unfoldable pub contains_valid_path : ResourceStore → String → String → Bool
contains_valid_path s source target = is_some (Dict.get (source, target) s.k_shortest_paths)

unfoldable pub add_routers : ResourceStore → List String → ResourceStore
add_routers s [] = s
add_routers s (r ∷ rs) =
    add_routers (record s { router_list = (HashSet.insert r s.router_list).0 }) rs

unfoldable pub contains_router_id : ResourceStore → String → Bool
contains_router_id s router = HashSet.contains router s.router_list

unfoldable pub any_node : FeasibilityRequest → List NodeResource → Bool
unfolding node_can_handle
any_node request [] = false
any_node request (n ∷ ns) = node_can_handle n request || any_node request ns

unfoldable pub can_handle_node_request : ResourceStore → FeasibilityRequest → Bool
unfolding any_node
can_handle_node_request s request = any_node request (values s.nodes)

-- Whether one link of a path can take the request; a link that is not there cannot.
unfoldable pub link_on_path : Bool → ℤ → Option LinkResource → Bool
unfolding link_can_handle
link_on_path moldable capacity none = false
link_on_path moldable capacity (some l) =
    link_can_handle l (link_request l.source l.target capacity moldable)

unfoldable pub whole_path : ResourceStore → Bool → ℤ → LinkPath → Bool
unfolding link_on_path
whole_path s moldable capacity [] = true
whole_path s moldable capacity (id ∷ ids) =
    link_on_path moldable capacity (Dict.get id s.links) && whole_path s moldable capacity ids

-- An empty path is passed over.
unfoldable pub valid_path : ResourceStore → Bool → ℤ → LinkPath → Bool
unfolding whole_path
valid_path s moldable capacity [] = false
valid_path s moldable capacity (id ∷ ids) = whole_path s moldable capacity (id ∷ ids)

unfoldable pub any_path : ResourceStore → Bool → ℤ → List LinkPath → Bool
unfolding valid_path
any_path s moldable capacity [] = false
any_path s moldable capacity (p ∷ ps) =
    valid_path s moldable capacity p || any_path s moldable capacity ps

unfoldable pub can_handle_link_request : ResourceStore → String → String → Bool → ℤ → Bool
unfolding any_path contains_router_id get_k_shortest_paths
can_handle_link_request s source target moldable capacity =
    if source == target
    then true
    else if leb_ℤ capacity (pos 0) && not moldable
    then true
    else if not (contains_router_id s source) && not (contains_router_id s target)
    then true
    else any_path s moldable capacity (unwrap_or (get_k_shortest_paths s source target) [])

unfoldable pub link_ends_request : ResourceStore → Option String → Option String → Bool → ℤ → Bool
unfolding can_handle_link_request
link_ends_request s none target moldable capacity = false
link_ends_request s (some source) none moldable capacity = false
link_ends_request s (some source) (some target) moldable capacity =
    can_handle_link_request s source target moldable capacity

unfoldable pub can_handle_adc_request : ResourceStore → Reservation → Bool
unfolding link_ends_request can_handle_node_request
can_handle_adc_request s (link l) =
    link_ends_request s l.start_point l.end_point l.base.is_moldable l.base.reserved_capacity
can_handle_adc_request s (node n) =
    can_handle_node_request s (node_request n.base.reserved_capacity n.base.is_moldable)
can_handle_adc_request s (workflow w) = false

unfoldable pub can_handle_aci_request : ResourceStore → Store → ℕ → Option Bool
unfolding link_ends_request can_handle_node_request Read.is_link Read.is_node Read.is_moldable
    Read.get_reserved_capacity Read.get_start_point Read.get_end_point
can_handle_aci_request s store id =
    let moldable = Read.is_moldable store id in
    let capacity = Read.get_reserved_capacity store id in
    if Read.is_link store id
    then (do
      source ← Read.get_start_point store id
      target ← Read.get_end_point store id
      some (link_ends_request s source target moldable capacity))
    else if Read.is_node store id
    then some (can_handle_node_request s (node_request capacity moldable))
    else some false
