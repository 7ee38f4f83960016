-- ===== src/Nop/Delegation.antt =====
-- nps_sdk/nop/cluster_delegation.py: the cache of each cluster's active anchor. `resolve_active` takes
-- the lock twice and looks the cluster up in between, so it is the two steps `cached` and
-- `store_fresh`; the injected lookup is the parameter `lookup`.
mod Examples
use nps_sdk_python.Prelude.{
  ℕ, ◌≤◌, ◌<◌, ◌≡◌, refl, String, Bool, true, false, not, Option, none, some, List, [], ◌∷◌, Result,
  ok, err, leb, if◌then◌else◌, eqb, string_eq, arith,
}
use nps_sdk_python.Prelude.Dict
use nps_sdk_python.Prelude.Dict.{Dict}

pub record ClusterAnchorInfo : Type 0 where
  pub active_nid : String
  pub cluster_epoch : ℕ

abbrev pub Cache : Type 0
Cache = Dict String ClusterAnchorInfo

-- ValueError
pub data DelegationError : Type 0 where
  value_error : DelegationError

-- on_anchor_failover
pub on_anchor_failover : String → String → ℕ → Cache → Result DelegationError (Cache × Bool)
on_anchor_failover cluster nid epoch active =
    if eqb cluster ""
    then err value_error
    else if eqb nid ""
    then err value_error
    else elim (Dict.get active cluster) [
      | none ↦
          ok (Dict.put active cluster (record { active_nid = nid; cluster_epoch = epoch }), true)
      | some current ↦
          if leb epoch current.cluster_epoch
          then ok (active, false)
          else ok
              (Dict.put active cluster (record { active_nid = nid; cluster_epoch = epoch }), true)
    ]

-- invalidate
abbrev invalidate : String → Cache → Cache
invalidate cluster active = Dict.remove active cluster

-- resolve_active, behind a miss: what the lookup returned is stored
pub store_fresh : String → Option ClusterAnchorInfo → Cache → Cache
store_fresh cluster none active = active
store_fresh cluster (some fresh) active = Dict.put active cluster fresh

-- resolve_active, when no other call comes between its steps
pub resolve_active :
    (String → Option ClusterAnchorInfo)
    → String
    → Cache
    → Result DelegationError (Cache × Option ClusterAnchorInfo)
resolve_active lookup cluster active =
    if eqb cluster "" then err value_error else elim (Dict.get active cluster) [
      | some cached ↦ ok (active, some cached)
      | none ↦ ok (store_fresh cluster (lookup cluster) active, lookup cluster)
    ]

active_nid_of : Option ClusterAnchorInfo → Option String
active_nid_of none = none
active_nid_of (some info) = some info.active_nid

nid_answer :
    Result DelegationError (Cache × Option ClusterAnchorInfo)
    → Result DelegationError (Cache × Option String)
unfolding active_nid_of
nid_answer (ok (active, info)) = ok (active, active_nid_of info)
nid_answer (err e) = err e

-- resolve_delegate_target, on the frame's target_agent_nid and target_cluster_anchor
unfoldable resolve_delegate_target :
    (String → Option ClusterAnchorInfo)
    → String
    → Option String
    → Cache
    → Result DelegationError (Cache × Option String)
unfolding nid_answer
resolve_delegate_target lookup agent none active = ok (active, some agent)
resolve_delegate_target lookup agent (some cluster) active =
    if eqb cluster ""
    then ok (active, some agent)
    else nid_answer (resolve_active lookup cluster active)

-- The epoch cached for a cluster is not lost and does not fall.
abbrev pub Grows : String → Cache → Cache → Type 0
Grows cluster before after =
    (old : ClusterAnchorInfo)
    → Dict.get before cluster ≡ some old
    → Dict.holds (λ new. leb old.cluster_epoch new.cluster_epoch) (Dict.get after cluster) ≡ true

-- An observed failover, applied or ignored, never lowers the epoch cached for any cluster.
pub on_anchor_failover-Grows :
    (c nid : String) (epoch : ℕ) (active new : Cache) (b : Bool) (cluster : String)
    → on_anchor_failover c nid epoch active ≡ ok (new, b)
    → Grows cluster active new
unfolding on_anchor_failover
on_anchor_failover-Grows c nid epoch active new b cluster h old o = ground (
  arith,
  Dict.get-put active c cluster (record { active_nid = nid; cluster_epoch = epoch }),
  string_eq.beq_iff c cluster,
)

-- It is applied exactly if the cluster is not cached or its cached epoch is lower; if it is not,
-- the cache stays as it is, and if it is, the successor is what the next resolution answers,
-- without a lookup.
pub on_anchor_failover_applied :
    (lookup : String → Option ClusterAnchorInfo) (c nid : String) (epoch : ℕ) (active new : Cache)
    (b : Bool)
    → on_anchor_failover c nid epoch active ≡ ok (new, b)
    → (b ≡ not (Dict.holds (λ old. leb epoch old.cluster_epoch) (Dict.get active c)))
      × (b ≡ false → new ≡ active)
      × (b ≡ true
          → resolve_active lookup c new
            ≡ ok (new, some (record { active_nid = nid; cluster_epoch = epoch })))
unfolding on_anchor_failover resolve_active
on_anchor_failover_applied lookup c nid epoch active new b h = ground (
  arith,
  Dict.get-put active c c (record { active_nid = nid; cluster_epoch = epoch }),
  string_eq.beq_iff c c,
)

store_fresh-Grows :
    (c cluster : String) (fresh : Option ClusterAnchorInfo) (active : Cache)
    (old : ClusterAnchorInfo)
    → Dict.get active c ≡ none
    → Dict.get active cluster ≡ some old
    → Dict.holds
        (λ new. leb old.cluster_epoch new.cluster_epoch)
        (Dict.get (store_fresh c fresh active) cluster)
      ≡ true
unfolding store_fresh
store_fresh-Grows c cluster none active old h o = ground arith
store_fresh-Grows c cluster (some fresh) active old h o =
    ground (arith, Dict.get-put active c cluster fresh, string_eq.beq_iff c cluster)

-- If no other call comes between its two steps, a resolution never lowers a cached epoch either.
pub resolve_active-Grows :
    (lookup : String → Option ClusterAnchorInfo) (c : String) (active new : Cache)
    (r : Option ClusterAnchorInfo) (cluster : String)
    → resolve_active lookup c active ≡ ok (new, r)
    → Grows cluster active new
unfolding resolve_active
resolve_active-Grows lookup c active new r cluster h old o =
    ground (arith, store_fresh-Grows c cluster (lookup c) active old)
