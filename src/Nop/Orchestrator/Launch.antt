-- ===== src/Nop/Orchestrator/Launch.antt =====
-- nps_sdk/nop/orchestrator.py, `_run_dag` from `while` to asyncio.wait: the pass that fails hopeless
-- nodes and the one that launches keep the state sound.
use nps_sdk_python.Prelude.{
  ℕ, suc, ◌≤◌, ◌≡◌, refl, ap, ◌⊎◌, String, Bool, true, false, not, ◌&&◌, ◌||◌, inl, inr, List, [],
  ◌∷◌, ◌++◌, arith, ltb, leb, length, length-append, mem, mem-append, Nodup, Nodup-snoc, eqb,
  eqb_refl, eqb→eq, string_eq, Bool-cases, All,
}
use nps_sdk_python.Prelude.Dict.{keys, mem-keys-put, get-absent}
use nps_sdk_python.Nop.Models.{DagNode, failed, is_empty}
use nps_sdk_python.Nop.Orchestrator.Plan.{States, required, successes, IsEnabled, IsEnabled-put}
use nps_sdk_python.Nop.Orchestrator.Loop.{
  RunState, ids, is_hopeless, fail_node, fail_impossible, launch, ready, prepare,
}
use nps_sdk_python.Nop.Orchestrator.Invariant.{
  IsSound, IsFresh, fail_node-IsSound, fail_node-IsFresh, tail-IsFresh, ready-IsFresh,
}

-- A node that the K-of-N pass keeps has its K dependencies.
not_hopeless : (n : DagNode) (states : States) → is_hopeless n states ≡ false → IsEnabled states n
not_hopeless n states h =
    elim n.input_from
        as (λ deps.
          (not (is_empty deps) && ltb (successes states n) (required n)) ≡ false
          → (deps ≡ []) ⊎ (required n ≤ successes states n)) [
            | [] ↦ λ h. inl refl
            | d ∷ deps ↦ λ h. inr (ground (arith, h))
          ]
      h

contrapose : (a b : Bool) → (a ≡ true → b ≡ true) → b ≡ false → a ≡ false
contrapose a b h f = ground (arith, h, f)

ids-append : (ns : List DagNode) (n : DagNode) → ids (ns ++ n ∷ []) ≡ ids ns ++ n.id ∷ []
ids-append [] n = refl
ids-append (m ∷ ns) n = ap (λ r. m.id ∷ r) (ids-append ns n)

mem-launched :
    (ns : List DagNode) (n : DagNode) (k : String)
    → mem k (ids (ns ++ n ∷ [])) ≡ (mem k (ids ns) || eqb n.id k)
mem-launched ns n k = rw (ids-append ns n) (ground (arith, mem-append k (ids ns) (n.id ∷ [])))

All-snoc :
    {A : Type 0} (P : A → Type 0) (xs : List A) (a : A) → All P xs → P a → All P (xs ++ a ∷ [])
All-snoc P [] a h p = (p, tt)
All-snoc P (x ∷ xs) a h p = (h.0, All-snoc P xs a h.1 p)

-- What the K-of-N pass returns for the nodes `ns`: the kept ones and the new state.
record IsKept {ℓ} {V : Type ℓ} (max : ℕ) (nodes : List DagNode) (s : RunState V)
    (ns kept : List DagNode) (next : RunState V) : Type 0 where
  sound : IsSound max nodes next
  fresh : IsFresh nodes next kept
  enabled : All (IsEnabled next.states) kept
  grows : (n : DagNode) → IsEnabled s.states n → IsEnabled next.states n
  subset : (k : String) → mem k (ids kept) ≡ true → mem k (ids ns) ≡ true
  others :
      (k : String)
      → mem k (ids ns) ≡ false
      → mem k (keys s.states) ≡ false
      → mem k (keys next.states) ≡ false
  flight : (k : String) → mem k (ids s.in_flight) ≡ false → mem k (ids next.in_flight) ≡ false

module _ {ℓ} {V : Type ℓ} (max : ℕ) (nodes : List DagNode) where
  keep-IsKept :
      (n : DagNode) (ns kept : List DagNode) (s next : RunState V)
      → IsFresh nodes s (n ∷ ns)
      → IsEnabled s.states n
      → IsKept max nodes s ns kept next
      → IsKept max nodes s (n ∷ ns) (n ∷ kept) next
  keep-IsKept n ns kept s next f able r =
      let new : mem n.id (keys next.states) ≡ false =
        r.others n.id f.once.0 (f.stateless n.id (rw (eqb_refl n.id) refl)) in
      let away : mem n.id (ids next.in_flight) ≡ false =
        r.flight n.id (f.landed n.id (rw (eqb_refl n.id) refl)) in
      let known : mem n.id (ids nodes) ≡ true = f.known n.id (rw (eqb_refl n.id) refl) in
      record {
        sound = r.sound;
        fresh = record {
          once = (
            contrapose (mem n.id (ids kept)) (mem n.id (ids ns)) (r.subset n.id) f.once.0,
            r.fresh.once,
          );
          stateless = λ k m. ground (arith, m, new, r.fresh.stateless k, eqb→eq n.id k);
          landed = λ k m. ground (arith, m, away, r.fresh.landed k, eqb→eq n.id k);
          known = λ k m. ground (arith, m, known, r.fresh.known k, eqb→eq n.id k);
        };
        enabled = (r.grows n able, r.enabled);
        grows = r.grows;
        subset = λ k m. ground (arith, m, r.subset k);
        others = λ k m h. r.others k (ground (arith, m)) h;
        flight = r.flight;
      }

  fail-IsKept :
      (n : DagNode) (ns kept : List DagNode) (s next : RunState V)
      → IsFresh nodes s (n ∷ ns)
      → IsKept max nodes (fail_node n s) ns kept next
      → IsKept max nodes s (n ∷ ns) kept next
  fail-IsKept n ns kept s next f r =
      let absent : mem n.id (keys s.states) ≡ false = f.stateless n.id (rw (eqb_refl n.id) refl) in
      record {
        sound = r.sound;
        fresh = r.fresh;
        enabled = r.enabled;
        grows = λ m able.
            r.grows m (IsEnabled-put s.states n.id failed m (get-absent s.states n.id absent) able);
        subset = λ k m. ground (arith, r.subset k m);
        others = λ k m h.
            r.others k (ground (arith, m))
              (ground (arith, m, h, mem-keys-put s.states n.id k failed));
        flight = r.flight;
      }

  fail_impossible-IsKept :
      (ns : List DagNode) (s : RunState V)
      → IsFresh nodes s ns
      → IsSound max nodes s
      → IsKept max nodes s ns (fail_impossible ns s).0 (fail_impossible ns s).1
  unfolding fail_impossible
  fail_impossible-IsKept [] s f i = record {
    sound = i;
    fresh = f;
    enabled = tt;
    grows = λ n able. able;
    subset = λ k m. m;
    others = λ k m h. h;
    flight = λ k m. m;
  }
  fail_impossible-IsKept (n ∷ ns) s f i = elim (Bool-cases (is_hopeless n s.states)) [
    | inl hopeless ↦
        rw (fail_impossible, hopeless)
          (fail-IsKept n ns (fail_impossible ns (fail_node n s)).0 s
            (fail_impossible ns (fail_node n s)).1 f
            (fail_impossible-IsKept ns (fail_node n s) (fail_node-IsFresh nodes n ns s f) (
              fail_node-IsSound nodes max n s (f.stateless n.id (rw (eqb_refl n.id) refl))
                (f.landed n.id (rw (eqb_refl n.id) refl)) (f.known n.id (rw (eqb_refl n.id) refl))
                i)))
    | inr able ↦
        rw (fail_impossible, able)
          (keep-IsKept n ns (fail_impossible ns s).0 s (fail_impossible ns s).1 f
            (not_hopeless n s.states able)
            (fail_impossible-IsKept ns s (tail-IsFresh nodes n ns s f) i))
  ]

  -- Launching a node that is fresh and has its dependencies.
  launch_one-IsSound :
      (n : DagNode) (ns : List DagNode) (s : RunState V)
      → IsFresh nodes s (n ∷ ns)
      → IsEnabled s.states n
      → suc (length s.in_flight) ≤ max
      → IsSound max nodes s
      → IsSound max nodes (record s { in_flight = s.in_flight ++ n ∷ [] })
  launch_one-IsSound n ns s f able room i = record {
    states_once = i.states_once;
    flight_once =
        rw (ids-append s.in_flight n) (
          Nodup-snoc (ids s.in_flight) n.id i.flight_once
            (f.landed n.id (rw (eqb_refl n.id) refl)));
    apart = λ k m.
        ground (arith, mem-launched s.in_flight n k, m, i.apart k, f.stateless k, eqb→eq n.id k);
    states_known = i.states_known;
    flight_known = λ k m.
        ground (arith, mem-launched s.in_flight n k, m, i.flight_known k, f.known k, eqb→eq n.id k);
    few = omega (arith, room, length-append s.in_flight (n ∷ []));
    enabled = All-snoc (IsEnabled s.states) s.in_flight n i.enabled able;
  }

  launch_one-IsFresh :
      (n : DagNode) (ns : List DagNode) (s : RunState V)
      → IsFresh nodes s (n ∷ ns)
      → IsFresh nodes (record s { in_flight = s.in_flight ++ n ∷ [] }) ns
  launch_one-IsFresh n ns s f = record {
    once = f.once.1;
    stateless = λ k m. f.stateless k (ground (arith, m));
    landed =
        λ k m. ground (arith, mem-launched s.in_flight n k, m, f.landed k, f.once.0, eqb→eq n.id k);
    known = λ k m. f.known k (ground (arith, m));
  }

  launch-IsSound :
      (ns : List DagNode) (s : RunState V)
      → IsFresh nodes s ns
      → All (IsEnabled s.states) ns
      → IsSound max nodes s
      → IsSound max nodes (record s { in_flight = launch max ns s.in_flight })
  unfolding launch
  launch-IsSound [] s f able i = i
  launch-IsSound (n ∷ ns) s f able i = elim (Bool-cases (leb max (length s.in_flight))) [
    | inl full ↦ rw (launch, full) i
    | inr room ↦
        rw (launch, room)
          (launch-IsSound ns (record s { in_flight = s.in_flight ++ n ∷ [] })
            (launch_one-IsFresh n ns s f) able.1
            (launch_one-IsSound n ns s f able.0 (ground (arith, room)) i))
  ]

  pub prepare-IsSound :
      Nodup (ids nodes)
      → (s : RunState V) → IsSound max nodes s
      → IsSound max nodes (prepare max nodes s)
  prepare-IsSound distinct s i =
      let r : IsKept max nodes s (ready nodes s) (fail_impossible (ready nodes s) s).0
          (fail_impossible (ready nodes s) s).1 =
        fail_impossible-IsKept (ready nodes s) s (ready-IsFresh nodes distinct s) i in
      launch-IsSound (fail_impossible (ready nodes s) s).0 (fail_impossible (ready nodes s) s).1
        r.fresh r.enabled r.sound
