-- ===== src/Nop/Delegation/Examples.antt =====
-- Failovers of one cluster seen by the resolver of nop/cluster_delegation.py.
use nps_sdk_python.Prelude.{ℕ, ◌≡◌, refl, true, some, ok, [], ◌∷◌, string_eq}
use nps_sdk_python.Prelude.Dict
use nps_sdk_python.Nop.Delegation.{
  ClusterAnchorInfo, Cache, Grows, on_anchor_failover, store_fresh, resolve_active,
  on_anchor_failover-Grows, resolve_active-Grows,
}

abbrev leader : ℕ → ClusterAnchorInfo
leader epoch = record { active_nid = "urn:b"; cluster_epoch = epoch }

abbrev at_three : Cache
at_three = ("c", leader 3) ∷ []

abbrev at_four : Cache
at_four = ("c", leader 4) ∷ []

on_anchor_failover-Grows_example : Grows "c" at_three at_four
unfolding on_anchor_failover Dict.get Dict.put
on_anchor_failover-Grows_example =
    on_anchor_failover-Grows "c" "urn:b" 4 at_three at_four true "c" refl

resolve_active-Grows_example : Grows "c" at_three (("c", leader 3) ∷ ("d", leader 9) ∷ [])
unfolding resolve_active store_fresh Dict.get Dict.put
resolve_active-Grows_example =
    resolve_active-Grows (λ _. some (leader 9)) "d" at_three
      (("c", leader 3) ∷ ("d", leader 9) ∷ []) (some (leader 9)) "c" refl

-- A failover to epoch 4 is applied between the two steps of a resolution that has looked up epoch 2:
-- the second step overwrites it.
overwritten_test :
    (on_anchor_failover "c" "urn:b" 4 [] ≡ ok (at_four, true))
    × (store_fresh "c" (some (leader 2)) at_four ≡ ("c", leader 2) ∷ [])
unfolding on_anchor_failover store_fresh Dict.get Dict.put
overwritten_test = (refl, refl)
