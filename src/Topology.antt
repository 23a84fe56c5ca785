-- ===== src/Topology.antt =====
-- The network of a component: its routers and links, and the search for the shortest paths between
-- grid access points (src/vrm/schedule/slotted_schedule/strategy/link/topology.rs). `none` stands
-- for a panic, or for a search that does not end on its fuel.
pub mod Paths
pub mod Search
pub mod Adjacency
use Prim.Native.String.{◌++◌ as str_append}
use vrm_rust.Base.{
  ℕ, zero, suc, ◌+◌, ◌*◌, ◌-◌, String, Bool, true, false, Option, none, some, List, [], ◌∷◌, ◌++◌,
  string_eq, nat_eq, pair_eq, if◌then◌else◌, ◌==◌, ◌>>=◌, ◌||◌, not, is_some, length, map, leb,
  unwrap_or,
}
use vrm_rust.Base.Int.{ℤ, pos, negsuc, ltb_ℤ, div_trunc}
use vrm_rust.Base.I64.{◌+i◌, i64_max}
use vrm_rust.Base.Dict
use vrm_rust.Base.Dict.{Dict, keys}
use vrm_rust.Base.HashSet
use vrm_rust.Resource
use vrm_rust.Resource.{ResourceStore, LinkResource, LinkPath}
use vrm_rust.Schedule.Update
use vrm_rust.Store.{Store}

pub record Link : Type 0 where
  pub id : String
  pub source : String
  pub target : String
  pub capacity : ℤ

pub record Node : Type 0 where
  pub name : String
  pub cpus : ℤ
  pub connected_to_router : List String

pub record Router : Type 0 where
  pub id : String
  pub is_grid_access_point : Bool

pub record VirtualLinkResource : Type 0 where
  pub source_router : String
  pub target_router : String
  pub capacity : ℤ
  pub avg_bandwidth : ℤ

-- The store of the resources, which the topology shares, is an argument of what reads it.
pub record NetworkTopology : Type 0 where
  pub routers : Dict String Router
  pub link_ids : List ℕ
  pub adjacency : Dict String (List ℕ)
  pub path_cache : Dict (String × String) (List LinkPath)
  pub virtual_link_resources : List VirtualLinkResource
  pub max_bandwidth_all_paths : ℤ

-- `K_NUMBER_OF_PATHS`.
abbrev pub k_number_of_paths : ℕ
k_number_of_paths = 10

unfoldable pub last : List ℕ → Option ℕ
last [] = none
last (x ∷ []) = some x
last (x ∷ y ∷ xs) = last (y ∷ xs)

module _ (s : ResourceStore) where
  -- Whether a link on the path leaves the router.
  unfoldable pub visits : String → LinkPath → Option Bool
  visits router [] = some false
  visits router (id ∷ ids) = do
    source ← Resource.get_source s id
    let rest = visits router ids
    if source == router then some true else rest

  -- The paths that go on over one of the links and make no loop.
  unfoldable pub extend : LinkPath → List ℕ → Option (List LinkPath)
  unfolding visits
  extend path [] = some []
  extend path (out ∷ outs) = do
    target ← Resource.get_target s out
    is_loop ← visits target path
    rest ← extend path outs
    some (if is_loop then rest else (path ++ (out ∷ [])) ∷ rest)

  module _ (link_ids : List ℕ) (adjacency : Dict String (List ℕ)) (goal : String) where
    -- A path that ends at `target` is a solution, or goes on from there; a router without outgoing
    -- links ends it.
    unfoldable pub expand : LinkPath → String → Option (List ℕ) → Option (List LinkPath)
    unfolding extend
    expand path target none = some []
    expand path target (some outs) = extend path outs

    -- Where a path ends. `none` is the panic at an empty path or an unknown link.
    unfoldable pub end_of : LinkPath → Option String
    unfolding last
    end_of path = do
      id ← last path
      if HashSet.contains id link_ids then Resource.get_target s id else none

    -- The `while` loop over the queue.
    unfoldable pub search_paths : ℕ → List LinkPath → List LinkPath → Option (List LinkPath)
    unfolding expand end_of
    search_paths fuel [] found = some found
    search_paths zero (path ∷ queue) found = none
    search_paths (suc fuel) (path ∷ queue) found = do
      target ← end_of path
      let found' = found ++ (path ∷ [])
      let after_found = search_paths fuel queue found'
      let goes_on = expand path target (Dict.get target adjacency) >>= λ new_paths.
          search_paths fuel (queue ++ new_paths) found
      if target == goal
          then (if leb k_number_of_paths (length found') then some found' else after_found)
          else goes_on

-- One path for each outgoing link of the source.
unfoldable pub first_paths : List ℕ → List ℕ → List LinkPath
first_paths link_ids [] = []
first_paths link_ids (id ∷ ids) =
    let rest = first_paths link_ids ids in
    if HashSet.contains id link_ids then (id ∷ []) ∷ rest else rest

-- A path to which `left` links can still be added is worth this many rounds.
unfoldable pub path_cost : ℕ → ℕ → ℕ
path_cost links zero = 1
path_cost links (suc left) = 1 + links * path_cost links left

unfoldable pub path_fuel : List ℕ → List LinkPath → ℕ
unfolding path_cost
path_fuel link_ids queue = length queue * path_cost (length link_ids) (length link_ids)

module _ (s : ResourceStore) where
  -- The smallest capacity of the links of a path.
  unfoldable pub bottleneck : ℤ → LinkPath → Option ℤ
  bottleneck least [] = some least
  bottleneck least (id ∷ ids) = do
    capacity ← Resource.get_capacity s id
    bottleneck (if ltb_ℤ capacity least then capacity else least) ids

  -- The sum of the bottlenecks, and the largest one so far.
  unfoldable pub bandwidths : ℤ → ℤ → List LinkPath → Option (ℤ × ℤ)
  unfolding bottleneck
  bandwidths total largest [] = some (total, largest)
  bandwidths total largest (p ∷ ps) = do
    b ← bottleneck i64_max p
    bandwidths (total +i b) (if ltb_ℤ largest b then b else largest) ps

  unfoldable pub find_paths : NetworkTopology → String → String → Option (List LinkPath)
  unfolding search_paths first_paths path_fuel
  find_paths t source target =
      let queue = first_paths t.link_ids (unwrap_or (Dict.get source t.adjacency) []) in
      search_paths s t.link_ids t.adjacency target (path_fuel t.link_ids queue) queue []

  -- Without a path nothing changes.
  unfoldable pub cache_paths :
      NetworkTopology
      → String
      → String
      → List LinkPath
      → Option (NetworkTopology × Option VirtualLinkResource)
  unfolding bandwidths
  cache_paths t source target [] = some (t, none)
  cache_paths t source target (p ∷ ps) = do
    (total, largest) ← bandwidths (pos 0) t.max_bandwidth_all_paths (p ∷ ps)
    some (
      record t {
        path_cache = Dict.insert (source, target) (p ∷ ps) t.path_cache;
        max_bandwidth_all_paths = largest;
      },
      some (record {
        source_router = source;
        target_router = target;
        capacity = total;
        avg_bandwidth = div_trunc total (pos (length (p ∷ ps)));
      }),
    )

  unfoldable pub calc_k_shortest_paths :
      NetworkTopology → String → String → Option (NetworkTopology × Option VirtualLinkResource)
  unfolding find_paths cache_paths
  calc_k_shortest_paths t source target = do
    found ← find_paths t source target
    cache_paths t source target found

  unfoldable pub push_virtual : NetworkTopology × Option VirtualLinkResource → NetworkTopology
  push_virtual (t, none) = t
  push_virtual (t, some v) = record t {
    virtual_link_resources = t.virtual_link_resources ++ (v ∷ []);
  }

  -- `self.routers.get(id).unwrap()`.
  unfoldable pub is_access_point : NetworkTopology → String → Option Bool
  is_access_point t id = do r ← Dict.get id t.routers; some r.is_grid_access_point

  unfoldable pub paths_to : NetworkTopology → String → List String → Option NetworkTopology
  unfolding calc_k_shortest_paths push_virtual is_access_point
  paths_to t source [] = some t
  paths_to t source (target ∷ targets) = do
    access ← is_access_point t target
    t' ←
        (if not access || (source == target)
          then some t
          else do r ← calc_k_shortest_paths t source target; some (push_virtual r))
    paths_to t' source targets

  unfoldable pub paths_from : NetworkTopology → List String → List String → Option NetworkTopology
  unfolding paths_to is_access_point
  paths_from t all [] = some t
  paths_from t all (source ∷ sources) = do
    access ← is_access_point t source
    t' ← (if access then paths_to t source all else some t)
    paths_from t' all sources

  -- The cache goes to the store of the resources at the end.
  unfoldable pub calc_all_paths : NetworkTopology → Option (NetworkTopology × ResourceStore)
  unfolding paths_from Resource.add_k_shortest_paths
  calc_all_paths t = do
    t' ← paths_from t (keys t.routers) (keys t.routers)
    some (t', Resource.add_k_shortest_paths s t'.path_cache)

  -- A link belongs to the router that it leaves, if the network has that router.
  unfoldable pub setup_adjacency_matrix :
      List ℕ → Dict String Router → Dict String (List ℕ) → Option (Dict String (List ℕ))
  setup_adjacency_matrix [] routers adjacency = some adjacency
  setup_adjacency_matrix (id ∷ ids) routers adjacency = do
    source ← Resource.get_source s id
    target ← Resource.get_target s id
    setup_adjacency_matrix ids routers (
        if is_some (Dict.get source routers)
        then Dict.insert source (HashSet.insert id (unwrap_or (Dict.get source adjacency) [])).0
            adjacency
        else adjacency)

unfoldable pub leaf_routers : List Node → Dict String Router → Dict String Router
leaf_routers [] routers = routers
leaf_routers (n ∷ ns) routers =
    leaf_routers ns
      (Dict.insert n.name (record { id = n.name; is_grid_access_point = true }) routers)

unfoldable pub inner_router : String → Dict String Router → Dict String Router
inner_router id routers =
    if is_some (Dict.get id routers)
    then routers
    else Dict.insert id (record { id = id; is_grid_access_point = false }) routers

unfoldable pub inner_routers : List Link → Dict String Router → Dict String Router
unfolding inner_router
inner_routers [] routers = routers
inner_routers (l ∷ ls) routers =
    inner_routers ls (inner_router l.source (inner_router l.target routers))

unfoldable pub setup_routers : List Node → List Link → Dict String Router
unfolding leaf_routers inner_routers
setup_routers nodes links = inner_routers links (leaf_routers nodes [])

module _ (new_key : Dict ℕ LinkResource → ℕ) (num_of_slots slot_width time : ℤ)
    (reservations : Store) where
  -- Every link gets a schedule of its own.
  unfoldable pub setup_network_links :
      List Link → List ℕ → ResourceStore → Option (List ℕ × ResourceStore)
  unfolding Update.new Resource.add_link
  setup_network_links [] ids s = some (ids, s)
  setup_network_links (l ∷ ls) ids s = do
    schedule ←
        Update.new
          (str_append "Schedule LinkResource " (str_append l.source (str_append " -> " l.target)))
          num_of_slots slot_width l.capacity true tt reservations time 0
    let (s', id) = Resource.add_link new_key s (record {
      base = record { name = l.id; capacity = l.capacity };
      source = l.source;
      target = l.target;
      schedule = schedule;
    })
    setup_network_links ls (HashSet.insert id ids).0 s'

  unfoldable pub new :
      List Link → List Node → ResourceStore → Option (NetworkTopology × ResourceStore)
  unfolding setup_network_links setup_routers setup_adjacency_matrix calc_all_paths
      Resource.add_routers
  new links nodes s = do
    (link_ids, s1) ← setup_network_links links [] s
    let routers = setup_routers nodes links
    let s2 = Resource.add_routers s1 (keys routers)
    adjacency ← setup_adjacency_matrix s2 link_ids routers []
    calc_all_paths s2 (record {
      routers = routers;
      link_ids = link_ids;
      adjacency = adjacency;
      path_cache = [];
      virtual_link_resources = [];
      max_bandwidth_all_paths = negsuc 0;
    })
