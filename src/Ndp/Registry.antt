-- ===== src/Ndp/Registry.antt =====
-- nps_sdk/ndp/registry.py: the in-memory registry of announcements. Times are in microseconds and
-- `now` is the reading of `clock` in the call; a lock makes each call one step.
mod Examples
pub mod Target
pub mod Liveness
use nps_sdk_python.Prelude.{
  ℕ, ◌+◌, ◌-◌, ◌*◌, ◌/◌, String, Bool, true, false, not, ◌&&◌, Option, none, some, List, [], ◌∷◌,
  Result, ok, err, ltb, leb, ◌==◌, if◌then◌else◌, eqb, string_eq, first, codes,
}
use nps_sdk_python.Prelude.Dict
use nps_sdk_python.Prelude.Dict.{Dict}
use nps_sdk_python.Ndp.Cluster.{Address, AnnounceFrame, ClusterError, resolve_cluster_from}
use Target.{target_matches_nid}

pub record ResolveResult : Type 0 where
  pub host : String
  pub port : ℕ
  pub ttl : ℕ

-- nid → (frame, expiry)
abbrev pub Registry : Type 0
Registry = Dict String (AnnounceFrame × ℕ)

abbrev pub microseconds : ℕ → ℕ
microseconds n = n * 1000000

-- announce
pub announce : ℕ → AnnounceFrame → Registry → Registry
announce now frame store =
    if frame.ttl == 0
    then Dict.remove store frame.nid
    else Dict.put store frame.nid (frame, now + microseconds frame.ttl)

is_https : Address → Bool
is_https a = eqb a.protocol "https"

first_address : List Address → Option Address
first_address [] = none
first_address (a ∷ as') = some a

-- the first https address, else the first address
pub pick_address : List Address → Option Address
unfolding is_https first_address
pick_address addresses = elim (first is_https addresses) [
  | some a ↦ some a
  | none ↦ first_address addresses
]

abbrev pub answer : ℕ → ℕ → Address → ResolveResult
answer now expiry a = record { host = a.host; port = a.port; ttl = (expiry - now) / 1000000 }

-- the loop of `resolve` over a snapshot
pub resolve_in : ℕ → String → Registry → Option ResolveResult
resolve_in now target [] = none
resolve_in now target ((k, (frame, expiry)) ∷ rest) =
    let later = resolve_in now target rest in
    if leb expiry now
    then later
    else if target_matches_nid (codes frame.nid) (codes target)
    then elim (pick_address frame.addresses) [ none ↦ later | some a ↦ some (answer now expiry a) ]
    else later

-- resolve
abbrev pub resolve : ℕ → String → Registry → Option ResolveResult
resolve now target store = resolve_in now target store

-- get_all
pub get_all : ℕ → Registry → List AnnounceFrame
get_all now [] = []
get_all now ((k, (frame, expiry)) ∷ rest) =
    let others = get_all now rest in if ltb now expiry then frame ∷ others else others

-- get_by_nid
pub get_by_nid : ℕ → String → Registry → Option AnnounceFrame
get_by_nid now nid store = elim (Dict.get store nid) [
  | none ↦ none
  | some (frame, expiry) ↦ if ltb now expiry then some frame else none
]

-- NdpClusterResolutionMixin.resolve_cluster
unfoldable resolve_cluster : ℕ → String → Registry → Result ClusterError (Option AnnounceFrame)
resolve_cluster now anchor store = resolve_cluster_from (get_all now store) anchor
