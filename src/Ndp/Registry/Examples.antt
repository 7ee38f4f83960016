-- ===== src/Ndp/Registry/Examples.antt =====
-- A node announced to the registry of ndp/registry.py, and queries for it.
use nps_sdk_python.Prelude.{
  ◌≡◌, ◌⊎◌, ◌≤◌, ◌+◌, ◌&&◌, refl, String, not, none, some, [], ◌∷◌, here, eqb, string_eq, ltb, ◌==◌,
  if◌then◌else◌,
}
use nps_sdk_python.Ndp.Cluster.{AnnounceFrame}
use nps_sdk_python.Ndp.Registry
use nps_sdk_python.Ndp.Registry.Target.{
  target_matches_nid, cut, split, strip_prefix, covers, match_parts, target_covered,
}
use nps_sdk_python.Ndp.Registry.Liveness.{get_by_nid-announce, resolve-none}

abbrev node : AnnounceFrame
node = record {
  nid = "urn:nps:node:h:p";
  addresses = record { host = "10.0.0.1"; port = 17433; protocol = "nwp" } ∷ [];
  ttl = 60;
  cluster_anchor = none;
  cluster_epoch = none;
}

abbrev stored : Registry.Registry
stored = ("urn:nps:node:h:p", (node, 70000000)) ∷ []

abbrev answered : Registry.ResolveResult
answered = record { host = "10.0.0.1"; port = 17433; ttl = 65 }

get_by_nid-announce_example :
    Registry.get_by_nid 5000001 "urn:nps:node:h:p" (Registry.announce 5000000 node []) ≡ (
      if eqb {A = String} "urn:nps:node:h:p" "urn:nps:node:h:p"
      then (if not (60 == 0) && ltb 5000001 (5000000 + Registry.microseconds 60)
          then some node
          else none)
      else Registry.get_by_nid 5000001 "urn:nps:node:h:p" [])
get_by_nid-announce_example = get_by_nid-announce 5000000 5000001 node "urn:nps:node:h:p" []

resolve-none_example : (70000000 ≤ 80000000) ⊎ (Registry.pick_address node.addresses ≡ none)
unfolding Registry.resolve_in Registry.pick_address Registry.first_address target_matches_nid cut
    split strip_prefix covers match_parts target_covered
resolve-none_example =
    resolve-none 80000000 "nwp://h/p" stored "urn:nps:node:h:p" node 70000000 refl here refl
