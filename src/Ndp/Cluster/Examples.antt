-- ===== src/Ndp/Cluster/Examples.antt =====
-- Elections of ndp/cluster.py among three announcements.
use nps_sdk_python.Prelude.{
  ℕ, ◌≡◌, ◌↔◌, ◌&&◌, refl, String, none, some, ok, List, [], ◌∷◌, select, leb,
}
use nps_sdk_python.Ndp.Cluster.{AnnounceFrame, effective_cluster_epoch, names, resolve_cluster_from}
use nps_sdk_python.Ndp.Cluster.Election.{elected_iff, unelected_iff}

abbrev member : String → ℕ → AnnounceFrame
member nid epoch = record {
  nid = nid;
  addresses = [];
  ttl = 60;
  cluster_anchor = some "c";
  cluster_epoch = some epoch;
}

abbrev members : List AnnounceFrame
members = member "a" 2 ∷ member "b" 5 ∷ []

elected_example :
    (resolve_cluster_from members "c" ≡ ok (some (member "b" 5)))
    ↔ (select (λ g. names "c" g && leb 5 (effective_cluster_epoch g)) members ≡ member "b" 5 ∷ [])
unfolding effective_cluster_epoch
elected_example = elected_iff members "c" (member "b" 5) refl

unelected_example : (resolve_cluster_from members "d" ≡ ok none) ↔ (select (names "d") members ≡ [])
unelected_example = unelected_iff members "d" refl
