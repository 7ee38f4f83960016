-- ===== src/Nwp/ContextStore/Reserving.antt =====
-- `reserve` keeps the store consistent and within its limit (nwp/context_store.py).
use nps_sdk_python.Prelude.{
  ℕ, ◌≤◌, ◌<◌, String, ◌≡◌, refl, subst, true, false, not, inl, inr, Option, none, some, ok,
  bind-eq-ok, reject_if, eqb, string_eq, eqb_refl, arith, if◌then◌else◌, Bool-cases, Result-cases,
}
use nps_sdk_python.Prelude.Dict
use nps_sdk_python.Prelude.Dict.{Dict, get-put, Nodup-put, count-put}
use nps_sdk_python.Nwp.ContextStore.State.{
  Owner, owner_eqb, owner_eqb→eq, active, Request, Reservation, Entry, Options, Store, is_gone,
  sweep, is_none, owner_key, owner_key_eq, complete_action,
}
use nps_sdk_python.Nwp.ContextStore.Guards.{
  Host, allocates, is_create, is_version, or_empty, allocated, is_live_of, is_pending_of,
  require_mutable, validate_request, ensure_supported, idempotency_conflict, plan, plan_create,
  plan_on,
}
use nps_sdk_python.Nwp.ContextStore.Operations.{lock_base, enter, reserve}
use nps_sdk_python.Nwp.ContextStore.Invariant.{
  Holds, Locks, Backed, Held, IsConsistent, IsWithin, sweep-IsConsistent, reservations-sweep,
  allocated-sweep_le,
}

module _ {Message Binding : Type 0} (opts : Options) (host : Host Message Binding) where
  -- The entry that a reservation for APPEND or RESET may lock.
  abbrev Free : Reservation Message Binding → Option (Entry Message Binding) → Type 0
  Free r none = ⊥
  Free r (some e) =
      (e.reservation_id ≡ none)
      × (is_gone e.state ≡ false)
      × (is_version e.version r.request.base_version ≡ true)
      × (e.transcript ≡ r.base_transcript)

  -- What `reserve` has tested when it makes a reservation.
  record IsPlanned (fresh : String) (s : Store Message Binding) (request : Request Message Binding)
      (r : Reservation Message Binding) : Type 0 where
    named : r.reservation_id ≡ fresh
    asked : r.request ≡ request
    room :
        allocates request.operation ≡ true
        → allocated s request.owner < opts.max_contexts_per_principal
    free :
        allocates request.operation ≡ false
        → Free r (Dict.get s.contexts (or_empty request.context_id))

  require_mutable-eq-ok :
      (s : Store Message Binding) (owner : Owner) (id : String) (e : Entry Message Binding)
      → require_mutable s owner id ≡ ok e
      → (Dict.get s.contexts id ≡ some e) × (is_gone e.state ≡ false)
  unfolding require_mutable
  require_mutable-eq-ok s owner id e h = ground arith

  plan_on-eq-ok :
      (fresh : String) (now : ℕ) (s : Store Message Binding) (request : Request Message Binding)
      (e : Entry Message Binding) (r : Reservation Message Binding)
      → is_create request.operation ≡ false
      → Dict.get s.contexts (or_empty request.context_id) ≡ some e
      → is_gone e.state ≡ false
      → plan_on opts host fresh now s request e ≡ ok r
      → IsPlanned fresh s request r
  unfolding plan_on
  plan_on-eq-ok fresh now s request e r op found live h = ground arith

  plan_create-eq-ok :
      (fresh : String) (s : Store Message Binding) (request : Request Message Binding)
      (r : Reservation Message Binding)
      → is_create request.operation ≡ true
      → plan_create opts host fresh s request ≡ ok r
      → IsPlanned fresh s request r
  unfolding plan_create
  plan_create-eq-ok fresh s request r op h = ground arith

  plan-IsPlanned :
      (fresh : String) (now : ℕ) (s : Store Message Binding) (request : Request Message Binding)
      (r : Reservation Message Binding)
      → plan opts host fresh now s request ≡ ok r
      → IsPlanned fresh s request r
  unfolding plan
  plan-IsPlanned fresh now s request r h =
      let (_, _, h₁) = bind-eq-ok (validate_request host request) _ h in
      let (_, _, h₂) = bind-eq-ok (ensure_supported opts request.operation) _ h₁ in
      let (_, _, h₃) =
        bind-eq-ok
          (reject_if
            (not (
              is_none (
                Dict.get s.idempotency
                  (owner_key request.owner complete_action request.idempotency_key))))
            idempotency_conflict)
          _ h₂ in
      elim (Bool-cases (is_create request.operation)) [
        | inl new ↦ plan_create-eq-ok fresh s request r new (rw new at h₃)
        | inr old ↦
            let (e, found, h₄) =
              bind-eq-ok (require_mutable s request.owner (or_empty request.context_id)) _
                (rw old at h₃) in
            let (there, live) =
              require_mutable-eq-ok s request.owner (or_empty request.context_id) e found in
            plan_on-eq-ok fresh now s request e r old there live h₄
      ]

  Free-Holds :
      (r : Reservation Message Binding) (o : Option (Entry Message Binding))
      → Free r o
      → (e : Entry Message Binding) × (o ≡ some e) × Free r (some e)
  Free-Holds r none f = absurd f
  Free-Holds r (some e) f = (e, refl, f)

module _ {Message Binding : Type 0} where
  -- A lock on an entry is never that of an id with no reservation.
  Locks-put :
      (reservations : Dict String (Reservation Message Binding)) (fresh key id : String)
      (r : Reservation Message Binding)
      → Dict.get reservations fresh ≡ none
      → Locks key (Dict.get reservations id)
      → Locks key (Dict.get (Dict.put reservations fresh r) id)
  Locks-put reservations fresh key id r new h = elim (Bool-cases (eqb fresh id)) [
    | inl same ↦ absurd (rw (← (string_eq.beq_iff fresh id).0 same, new) at h)
    | inr other ↦ rw (get-put reservations fresh id r, other) h
  ]

  Backed-put :
      (reservations : Dict String (Reservation Message Binding)) (fresh key : String)
      (r : Reservation Message Binding) (o : Option (Entry Message Binding))
      → Dict.get reservations fresh ≡ none
      → Backed reservations key o
      → Backed (Dict.put reservations fresh r) key o
  Backed-put reservations fresh key r none new h = tt
  Backed-put reservations fresh key r (some e) new h =
      (h.0, h.1, λ id q. Locks-put reservations fresh key id r new (h.2 id q))

  get-lock_base :
      (r : Reservation Message Binding) (contexts : Dict String (Entry Message Binding))
      (j : String) (e : Entry Message Binding)
      → allocates r.request.operation ≡ false
      → Dict.get contexts (or_empty r.request.context_id) ≡ some e
      → Dict.get (lock_base r contexts) j ≡ (
          if eqb (or_empty r.request.context_id) j
          then some (record e { reservation_id = some r.reservation_id })
          else Dict.get contexts j)
  unfolding lock_base
  get-lock_base r contexts j e op found =
      rw (op, found)
        (get-put contexts (or_empty r.request.context_id) j
          (record e { reservation_id = some r.reservation_id }))

  -- A reservation that locks nothing new leaves what the others hold.
  Held-lock :
      (r : Reservation Message Binding) (s : Store Message Binding) (id : String)
      (v : Option (Reservation Message Binding)) (e : Entry Message Binding)
      → allocates r.request.operation ≡ false
      → Dict.get s.contexts (or_empty r.request.context_id) ≡ some e
      → e.reservation_id ≡ none
      → Held s.contexts id v
      → Held (lock_base r s.contexts) id v
  Held-lock r s id none e op found free h = tt
  Held-lock r s id (some v) e op found free h = (
    h.0,
    λ kind.
        let mine = or_empty r.request.context_id in
        let theirs = or_empty v.request.context_id in
        rw (get-lock_base r s.contexts theirs e op found) (elim (Bool-cases (eqb mine theirs)) [
          | inl same ↦
              let held : Holds id v (some e) =
                rw (← (string_eq.beq_iff mine theirs).0 same, found) at (h.1 kind) in
              absurd (ground (arith, held.0))
          | inr other ↦ rw other (h.1 kind)
        ]),
  )

  Holds-lock :
      (r : Reservation Message Binding) (s : Store Message Binding) (e : Entry Message Binding)
      → allocates r.request.operation ≡ false
      → Dict.get s.contexts (or_empty r.request.context_id) ≡ some e
      → e.state ≡ active
      → is_version e.version r.request.base_version ≡ true
      → e.transcript ≡ r.base_transcript
      → Holds r.reservation_id r (Dict.get (lock_base r s.contexts) (or_empty r.request.context_id))
  Holds-lock r s e op found a v t =
      rw
        (
          get-lock_base r s.contexts (or_empty r.request.context_id) e op found,
          eqb_refl (or_empty r.request.context_id),
        )
        (refl, a, v, t)

  Backed-lock :
      (r : Reservation Message Binding) (s : Store Message Binding) (key : String)
      (e : Entry Message Binding)
      → allocates r.request.operation ≡ false
      → Dict.get s.contexts (or_empty r.request.context_id) ≡ some e
      → Dict.get s.reservations r.reservation_id ≡ none
      → Backed s.reservations key (Dict.get s.contexts key)
      → Backed
          (Dict.put s.reservations r.reservation_id r)
          key
          (Dict.get (lock_base r s.contexts) key)
  Backed-lock r s key e op found new h =
      let mine = or_empty r.request.context_id in
      rw (get-lock_base r s.contexts key e op found) (elim (Bool-cases (eqb mine key)) [
        | inl same ↦
            let here : mine ≡ key = (string_eq.beq_iff mine key).0 same in
            let at_key : Dict.get s.contexts key ≡ some e = rw here at found in
            let old : Backed s.reservations key (some e) = rw at_key at h in
            rw same (
              old.0,
              old.1,
              λ id q.
                  let same_id : r.reservation_id ≡ id = ground arith in
                  rw
                    (
                      ← same_id,
                      get-put s.reservations r.reservation_id r.reservation_id r,
                      eqb_refl r.reservation_id,
                    )
                    (here, op),
            )
        | inr other ↦
            rw other
              (Backed-put s.reservations r.reservation_id key r (Dict.get s.contexts key) new h)
      ])

module _ {Message Binding : Type 0} where
  lock_base_allocate :
      (r : Reservation Message Binding) (contexts : Dict String (Entry Message Binding))
      → allocates r.request.operation ≡ true
      → lock_base r contexts ≡ contexts
  unfolding lock_base
  lock_base_allocate r contexts op = rw op refl

  lock_base-put :
      (r : Reservation Message Binding) (contexts : Dict String (Entry Message Binding))
      (e : Entry Message Binding)
      → allocates r.request.operation ≡ false
      → Dict.get contexts (or_empty r.request.context_id) ≡ some e
      → lock_base r contexts
        ≡ Dict.put contexts
            (or_empty r.request.context_id)
            (record e { reservation_id = some r.reservation_id })
  unfolding lock_base
  lock_base-put r contexts e op found = rw (op, found) refl

module _ {Message Binding : Type 0} (opts : Options) (host : Host Message Binding) where
  enter_lock-IsConsistent :
      (now : ℕ) (s : Store Message Binding) (r : Reservation Message Binding)
      → IsConsistent s
      → Dict.get s.reservations r.reservation_id ≡ none
      → allocates r.request.operation ≡ false
      → Free opts host r (Dict.get s.contexts (or_empty r.request.context_id))
      → IsConsistent (enter opts now r s)
  unfolding enter
  enter_lock-IsConsistent now s r c new op f =
      let mine = or_empty r.request.context_id in
      let (e, found, free) = Free-Holds opts host r (Dict.get s.contexts mine) f in
      let at_mine : Backed s.reservations mine (some e) = rw found at (c.backed mine) in
      let live : e.state ≡ active = ground (arith, at_mine.1, free) in
      record {
        once = rw (lock_base-put r s.contexts e op found) (Nodup-put s.contexts mine _ c.once);
        held = λ id.
            rw (get-put s.reservations r.reservation_id id r)
              (elim (Bool-cases (eqb r.reservation_id id)) [
                | inl same ↦
                    let here : r.reservation_id ≡ id =
                      (string_eq.beq_iff r.reservation_id id).0 same in
                    rw same (
                      here,
                      λ _.
                          subst (λ x. Holds x r (Dict.get (lock_base r s.contexts) mine)) here
                            (Holds-lock r s e op found live free.2 free.3),
                    )
                | inr other ↦
                    rw other
                      (Held-lock r s id (Dict.get s.reservations id) e op found free.0 (c.held id))
              ]);
        backed = λ key. Backed-lock r s key e op found new (c.backed key);
      }

  enter_allocate-IsConsistent :
      (now : ℕ) (s : Store Message Binding) (r : Reservation Message Binding)
      → IsConsistent s
      → Dict.get s.reservations r.reservation_id ≡ none
      → allocates r.request.operation ≡ true
      → IsConsistent (enter opts now r s)
  unfolding enter
  enter_allocate-IsConsistent now s r c new op =
      let same = lock_base_allocate r s.contexts op in
      record {
        once = rw same c.once;
        held = λ id.
            rw (same, get-put s.reservations r.reservation_id id r)
              (elim (Bool-cases (eqb r.reservation_id id)) [
                | inl here ↦
                    rw here (
                      (string_eq.beq_iff r.reservation_id id).0 here,
                      λ kind. absurd (ground arith),
                    )
                | inr other ↦ rw other (c.held id)
              ]);
        backed = λ key. rw same (
            Backed-put s.reservations r.reservation_id key r (Dict.get s.contexts key) new
              (c.backed key));
      }

  enter-IsConsistent :
      (now : ℕ) (fresh : String) (s : Store Message Binding) (request : Request Message Binding)
      (r : Reservation Message Binding)
      → IsConsistent s
      → Dict.get s.reservations fresh ≡ none
      → IsPlanned opts host fresh s request r
      → IsConsistent (enter opts now r s)
  enter-IsConsistent now fresh s request r c new p =
      let unused : Dict.get s.reservations r.reservation_id ≡ none = rw p.named new in
      elim (Bool-cases (allocates r.request.operation)) [
        | inl op ↦ enter_allocate-IsConsistent now s r c unused op
        | inr op ↦
            enter_lock-IsConsistent now s r c unused op
              (rw (← p.asked) at (p.free (rw p.asked at op)))
      ]

  -- `reserve` keeps the store consistent, whether it makes a reservation or raises; the id that it
  -- gives to a reservation is not in use.
  pub reserve-IsConsistent :
      (clock : ℕ → ℕ) (fresh : String) (request : Request Message Binding)
      (s : Store Message Binding)
      → IsConsistent s
      → Dict.get s.reservations fresh ≡ none
      → IsConsistent (reserve opts host clock fresh request s).1
  unfolding reserve
  reserve-IsConsistent clock fresh request s c new =
      let s₁ = sweep opts (clock 0) s in
      let c₁ = sweep-IsConsistent opts (clock 0) s c in
      elim (Result-cases (plan opts host fresh (clock 1) s₁ request)) [
        | inr (x, failed) ↦ rw (failed, reserve) c₁
        | inl (r, made) ↦
            rw (made, reserve)
              (enter-IsConsistent (clock 2) fresh s₁ request r c₁ (rw reservations-sweep new)
                (plan-IsPlanned opts host fresh (clock 1) s₁ request r made))
      ]

  allocated-enter :
      (now : ℕ) (fresh : String) (s : Store Message Binding) (request : Request Message Binding)
      (r : Reservation Message Binding) (owner : Owner)
      → Dict.get s.reservations fresh ≡ none
      → IsPlanned opts host fresh s request r
      → allocated s owner ≤ opts.max_contexts_per_principal
      → allocated (enter opts now r s) owner ≤ opts.max_contexts_per_principal
  unfolding enter
  allocated-enter now fresh s request r owner new p h =
      let unused : Dict.get s.reservations r.reservation_id ≡ none = rw p.named new in
      let more = count-put (is_pending_of owner) s.reservations r.reservation_id r in
      elim (Bool-cases (allocates r.request.operation)) [
        | inl op ↦
            rw (lock_base_allocate r s.contexts op)
              (elim (Bool-cases (owner_eqb r.request.owner owner)) [
                | inl mine ↦
                    let same : request.owner ≡ owner =
                      rw (← p.asked) (owner_eqb→eq r.request.owner owner mine) in
                    let room : allocated s owner < opts.max_contexts_per_principal =
                      rw same at (p.room (rw (← p.asked) op)) in
                    ground (arith, more, unused, room)
                | inr other ↦ ground (arith, more, unused)
              ])
        | inr op ↦
            let (e, found, free) =
              Free-Holds opts host r (Dict.get s.contexts (or_empty r.request.context_id))
                (rw (← p.asked) at (p.free (rw p.asked at op))) in
            let locked = record e { reservation_id = some r.reservation_id } in
            let same =
              count-put (is_live_of owner) s.contexts (or_empty r.request.context_id) locked in
            rw (lock_base-put r s.contexts e op found) (ground (arith, more, unused, same, found))
      ]

  -- `reserve` keeps every owner within the limit.
  pub reserve-IsWithin :
      (clock : ℕ → ℕ) (fresh : String) (request : Request Message Binding)
      (s : Store Message Binding)
      → IsWithin opts s
      → Dict.get s.reservations fresh ≡ none
      → IsWithin opts (reserve opts host clock fresh request s).1
  unfolding reserve
  reserve-IsWithin clock fresh request s w new owner =
      let s₁ = sweep opts (clock 0) s in
      let w₁ : allocated s₁ owner ≤ opts.max_contexts_per_principal =
        omega (arith, allocated-sweep_le opts (clock 0) s owner, w owner) in
      elim (Result-cases (plan opts host fresh (clock 1) s₁ request)) [
        | inr (x, failed) ↦ rw (failed, reserve) w₁
        | inl (r, made) ↦
            rw (made, reserve)
              (allocated-enter (clock 2) fresh s₁ request r owner (rw reservations-sweep new)
                (plan-IsPlanned opts host fresh (clock 1) s₁ request r made) w₁)
      ]
