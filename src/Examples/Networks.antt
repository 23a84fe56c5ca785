-- ===== src/Examples/Networks.antt =====
-- A network of two routers and the link between them.
use vrm_rust.Base.{String, true, some, List, [], ◌∷◌, string_eq, ◌≡◌, ◌≤◌, refl, All, length}
use vrm_rust.Base.Dict
use vrm_rust.Base.Dict.{Dict}
use vrm_rust.Base.HashSet
use vrm_rust.Base.Int.{pos, negsuc}
use vrm_rust.Resource
use vrm_rust.Resource.{ResourceStore, LinkResource, LinkPath}
use vrm_rust.Topology.{
  Router, NetworkTopology, k_number_of_paths, setup_adjacency_matrix, find_paths,
}
use vrm_rust.Topology.Search.{IsNetwork, IsRoute}
use vrm_rust.Topology.Search.Found.{find_paths-IsRoute}
use vrm_rust.Topology.Adjacency.{setup_adjacency_matrix-IsNetwork}
use vrm_rust.Examples.Data.{schedule}

abbrev cable : LinkResource
cable = record {
  base = record { name = "cable"; capacity = pos 8 };
  source = "west";
  target = "east";
  schedule = schedule;
}

abbrev pub network : ResourceStore
network = record Resource.new { links = (7, cable) ∷ [] }

abbrev routers : Dict String Router
routers =
    ("west", record { id = "west"; is_grid_access_point = true })
    ∷ ("east", record { id = "east"; is_grid_access_point = true })
    ∷ []

abbrev pub topology : NetworkTopology
topology = record {
  routers = routers;
  link_ids = 7 ∷ [];
  adjacency = ("west", 7 ∷ []) ∷ [];
  path_cache = [];
  virtual_link_resources = [];
  max_bandwidth_all_paths = negsuc 0;
}

setup_adjacency_matrix-IsNetwork_example : IsNetwork network (7 ∷ []) (("west", 7 ∷ []) ∷ [])
unfolding Resource.get_source Resource.get_target Resource.get_link Resource.new
    setup_adjacency_matrix Dict.get Dict.insert HashSet.insert HashSet.contains
setup_adjacency_matrix-IsNetwork_example =
    setup_adjacency_matrix-IsNetwork network (7 ∷ []) routers (("west", 7 ∷ []) ∷ []) refl

is_network : IsNetwork network topology.link_ids topology.adjacency
unfolding Resource.get_source Resource.get_target Resource.get_link Resource.new
    setup_adjacency_matrix Dict.get Dict.insert HashSet.insert HashSet.contains
is_network = setup_adjacency_matrix-IsNetwork network (7 ∷ []) routers (("west", 7 ∷ []) ∷ []) refl

find_paths-IsRoute_example :
    (paths : List LinkPath) × (find_paths network topology "west" "east" ≡ some paths)
    × All (IsRoute network (7 ∷ []) "west" "east") paths
    × (length paths ≤ k_number_of_paths)
find_paths-IsRoute_example = find_paths-IsRoute network topology "west" "east" is_network
