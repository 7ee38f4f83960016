-- ===== src/Ncp/Failover/Examples.antt =====
-- The connector of ncp/failover.py where the anchor is lost once, and where it is lost for good.
use nps_sdk_python.Prelude.{
  ℕ, zero, suc, ◌≡◌, ◌≤◌, ◌<◌, refl, String, true, none, Result, ok, err, arith,
}
use nps_sdk_python.Ncp.Failover.{
  Failure, session, raised, is_failover_shaped, connect_active, connected, connect-Final,
  connect_exhausted,
}

abbrev refused_connection : Failure
refused_connection = record { os_error = true; protocol_error_code = none }

abbrev resolve_nth : ℕ → Result Failure ℕ
resolve_nth n = ok n

abbrev second_works : ℕ → ℕ → Result Failure String
second_works n zero = err refused_connection
second_works n (suc p) = ok "session"

abbrev never_works : ℕ → ℕ → Result Failure String
never_works n p = err refused_connection

first_lost :
    (i : ℕ)
    → i < 1
    → (p : ℕ) × (resolve_nth i ≡ ok p)
      × (second_works i p ≡ err refused_connection)
      × (is_failover_shaped refused_connection ≡ true)
unfolding is_failover_shaped
first_lost zero h = (0, refl, refl, refl)
first_lost (suc i) h = ground arith

connect-Final_example : connect_active resolve_nth second_works 2 ≡ (session "session", 2)
connect-Final_example =
    connect-Final resolve_nth second_works 1 2 (λ _. refused_connection) (session "session")
      (omega arith) first_lost (connected refl refl)

always_lost :
    (i : ℕ)
    → i ≤ 1
    → (p : ℕ) × (resolve_nth i ≡ ok p)
      × (never_works i p ≡ err refused_connection)
      × (is_failover_shaped refused_connection ≡ true)
unfolding is_failover_shaped
always_lost i h = (i, refl, refl, refl)

connect_exhausted_example :
    connect_active resolve_nth never_works 2 ≡ (raised refused_connection, 2)
connect_exhausted_example =
    connect_exhausted resolve_nth never_works 1 (λ _. refused_connection) always_lost
