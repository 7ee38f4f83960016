-- ===== src/Ndp/Cluster.antt =====
-- nps_sdk/ndp/cluster.py: the election of a cluster's anchor by the highest epoch.
mod Examples
pub mod Election
use nps_sdk_python.Prelude.{
  ℕ, ◌≤◌, String, Bool, true, false, Option, none, some, List, [], ◌∷◌, Result, ok, err, ◌==◌,
  if◌then◌else◌, eqb, string_eq, select, max,
}

-- frames.py: what the registries read of an NdpAddress and an AnnounceFrame
pub record Address : Type 0 where
  pub host : String
  pub port : ℕ
  pub protocol : String

pub record AnnounceFrame : Type 0 where
  pub nid : String
  pub addresses : List Address
  pub ttl : ℕ
  pub cluster_anchor : Option String
  pub cluster_epoch : Option ℕ

pub data ClusterError : Type 0 where
  value_error : ClusterError
  cluster_split : String → ℕ → ClusterError  -- NdpClusterSplitError

abbrev default_cluster_epoch : ℕ
default_cluster_epoch = 1

-- effective_cluster_epoch
pub effective_cluster_epoch : AnnounceFrame → ℕ
effective_cluster_epoch f = elim f.cluster_epoch [ none ↦ default_cluster_epoch | some e ↦ e ]

-- `f.cluster_anchor == cluster_anchor`
pub names : String → AnnounceFrame → Bool
names anchor f = elim f.cluster_anchor [ none ↦ false | some c ↦ eqb c anchor ]

-- `max(...)` of the epochs of a list that is not empty
pub top_epoch : AnnounceFrame → List AnnounceFrame → ℕ
top_epoch f [] = effective_cluster_epoch f
top_epoch f (g ∷ gs) = max (effective_cluster_epoch f) (top_epoch g gs)

abbrev pub leaders_at : ℕ → List AnnounceFrame → List AnnounceFrame
leaders_at top fs = select (λ f. effective_cluster_epoch f == top) fs

-- `leaders` is never empty: the last clause is Python's IndexError, which no call reaches
abbrev pub choose : String → ℕ → List AnnounceFrame → Result ClusterError (Option AnnounceFrame)
choose anchor top (f ∷ []) = ok (some f)
choose anchor top (f ∷ g ∷ fs) = err (cluster_split anchor top)
choose anchor top [] = err value_error

abbrev pub elect : String → List AnnounceFrame → Result ClusterError (Option AnnounceFrame)
elect anchor [] = ok none
elect anchor (f ∷ fs) = let top = top_epoch f fs in choose anchor top (leaders_at top (f ∷ fs))

-- resolve_cluster_from
pub resolve_cluster_from : List AnnounceFrame → String → Result ClusterError (Option AnnounceFrame)
resolve_cluster_from members anchor =
    if eqb anchor "" then err value_error else elect anchor (select (names anchor) members)
