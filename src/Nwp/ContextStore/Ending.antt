-- ===== src/Nwp/ContextStore/Ending.antt =====
-- `abort` and `release` keep the store consistent (nwp/context_store.py).
use nps_sdk_python.Prelude.{
  ℕ, String, ◌≡◌, refl, ◌∙◌, true, false, ◌>>◌, inl, inr, Option, none, some, ok, reject_if, eqb,
  eqb_refl, string_eq, arith, Bool-cases, Option-cases, Result-cases,
}
use nps_sdk_python.Prelude.Dict
use nps_sdk_python.Prelude.Dict.{Dict, get-put, get-remove, Nodup-put}
use nps_sdk_python.Nwp.ContextStore.State.{
  Owner, release, Reservation, Entry, Options, Store, is_gone, sweep, owner_key, owner_key_eq,
  release_action,
}
use nps_sdk_python.Nwp.ContextStore.Guards.{
  Host, allocates, or_empty, require_mutable, validate_context_id, ensure_supported, params_invalid,
}
use nps_sdk_python.Nwp.ContextStore.Operations.{holds_lock, unlock, drop, abort}
use nps_sdk_python.Nwp.ContextStore.Lifecycle.{
  release_guard, bury, enter_release, release_fresh, release_checked, release_context, replayed,
}
use nps_sdk_python.Nwp.ContextStore.Invariant.{
  Holds, Locks, Backed, IsConsistent, sweep-IsConsistent,
}
use nps_sdk_python.Nwp.ContextStore.Committing.{
  Backed-remove, Held-put, replace-IsConsistent, locked_entry, named,
}

module _ {Message Binding : Type 0} where
  -- A reservation for CREATE or FORK has locked nothing.
  unlock_allocate :
      (s : Store Message Binding) (r : Reservation Message Binding)
      → IsConsistent s
      → Dict.get s.reservations r.reservation_id ≡ some r
      → allocates r.request.operation ≡ true
      → unlock r s.contexts ≡ s.contexts
  unfolding unlock
  unlock_allocate s r c there op =
      let key = or_empty r.request.context_id in
      elim (Option-cases (Dict.get s.contexts key)) [
        | inl absent ↦ rw (absent, unlock) refl
        | inr (e, found) ↦
            let backed : Backed s.reservations key (some e) = rw found at (c.backed key) in
            let loose : holds_lock r.reservation_id e.reservation_id ≡ false =
              elim (Option-cases e.reservation_id) [
                | inl none_held ↦ rw none_held refl
                | inr (id, lock) ↦ elim (Bool-cases (eqb id r.reservation_id)) [
                  | inl same ↦
                      let mine : Locks key (some r) =
                        rw ((string_eq.beq_iff id r.reservation_id).0 same, there) at
                          (backed.2 id lock) in
                      absurd (ground arith)
                  | inr other ↦ rw (lock) other
                ]
              ] in
            rw (found, unlock) (rw loose refl)
      ]

  unlock-put :
      (s : Store Message Binding) (r : Reservation Message Binding) (e : Entry Message Binding)
      → Dict.get s.contexts (or_empty r.request.context_id) ≡ some e
      → e.reservation_id ≡ some r.reservation_id
      → unlock r s.contexts
        ≡ Dict.put s.contexts (or_empty r.request.context_id) (record e { reservation_id = none })
  unfolding unlock
  unlock-put s r e found lock = rw (found, unlock) (ground (arith, eqb_refl r.reservation_id))

module _ {Message Binding : Type 0} (opts : Options) where
  drop-IsConsistent :
      (now : ℕ) (r : Reservation Message Binding) (code : Option String) (s : Store Message Binding)
      → IsConsistent s
      → Dict.get s.reservations r.reservation_id ≡ some r
      → IsConsistent (drop opts now r code s)
  unfolding drop
  drop-IsConsistent now r code s c there =
      let key = or_empty r.request.context_id in
      elim (Bool-cases (allocates r.request.operation)) [
        | inl op ↦
            let same = unlock_allocate s r c there op in
            record {
              once = rw same c.once;
              held = λ id.
                  rw (get-remove s.reservations r.reservation_id id)
                    (elim (Bool-cases (eqb r.reservation_id id)) [
                      | inl gone ↦ rw gone tt
                      | inr other ↦ rw (other, same) (c.held id)
                    ]);
              backed = λ k. rw same (
                  Backed-remove s.reservations r.reservation_id k r (Dict.get s.contexts k) there
                    (λ mine. ground arith) (c.backed k));
            }
        | inr op ↦
            let (e, found, held, own) = locked_entry s r.reservation_id r c there op in
            rw (unlock-put s r e found held.0) (
              replace-IsConsistent s _ r.reservation_id key r (record e { reservation_id = none }) c
                there (own, held.1, refl)
                (λ other v ne theirs.
                  let both : Holds other v (some e) = rw found at theirs in
                  ground (arith, both.0, held.0, string_eq.beq_iff r.reservation_id other))
                (λ other ne mine. ground (arith, mine.0, string_eq.beq_iff key other)))
      ]

  -- `abort` keeps the store consistent, also where it raises.
  pub abort-IsConsistent :
      (clock : ℕ → ℕ) (id : String) (code : Option String) (s : Store Message Binding)
      → IsConsistent s
      → IsConsistent (abort opts clock id code s).1
  unfolding abort
  abort-IsConsistent clock id code s c = elim (Option-cases (Dict.get s.reservations id)) [
    | inl absent ↦ rw (absent, abort) c
    | inr (r, there) ↦
        rw (there, abort)
          (sweep-IsConsistent opts (clock 1) (drop opts (clock 0) r code s)
            (drop-IsConsistent (clock 0) r code s c (named opts s id r c there)))
  ]

  -- What `release` has tested when it buries a context.
  release_guard-eq-ok :
      (s : Store Message Binding) (owner : Owner) (id : String) (base : ℕ)
      (e : Entry Message Binding)
      → release_guard s owner id base ≡ ok e
      → (Dict.get s.contexts id ≡ some e)
        × (e.reservation_id ≡ none)
        × (e.version ≡ base)
        × (is_gone e.state ≡ false)
  unfolding release_guard require_mutable
  release_guard-eq-ok s owner id base e h = ground arith

  enter_release-IsConsistent :
      (clock : ℕ → ℕ) (owner : Owner) (id : String) (base : ℕ) (key : String)
      (e : Entry Message Binding) (s : Store Message Binding)
      → IsConsistent s
      → Dict.get s.contexts id ≡ some e
      → e.reservation_id ≡ none
      → IsConsistent (enter_release opts clock owner id base key e s)
  unfolding enter_release bury
  enter_release-IsConsistent clock owner id base key e s c found free =
      let old : Backed s.reservations id (some e) = rw found at (c.backed id) in
      record {
        once = Nodup-put s.contexts id (bury opts (clock 1) e) c.once;
        held = λ other.
            Held-put s.contexts id other (bury opts (clock 1) e) (Dict.get s.reservations other)
              (λ v theirs.
                let both : Holds other v (some e) = rw found at theirs in ground (arith, both.0))
              (c.held other);
        backed = λ k.
            rw (get-put s.contexts id k (bury opts (clock 1) e)) (elim (Bool-cases (eqb id k)) [
              | inl same ↦
                  rw same
                    (old.0 ∙ (string_eq.beq_iff id k).0 same, refl, λ r q. absurd (ground arith))
              | inr other ↦ rw other (c.backed k)
            ]);
      }

  release_fresh-IsConsistent :
      (clock : ℕ → ℕ) (owner : Owner) (id : String) (base : ℕ) (key : String)
      (s : Store Message Binding)
      → IsConsistent s
      → IsConsistent (release_fresh opts clock owner id base key s).1
  unfolding release_fresh
  release_fresh-IsConsistent clock owner id base key s c =
      elim (Result-cases (release_guard s owner id base)) [
        | inr (x, failed) ↦ rw (failed, release_fresh) c
        | inl (e, passed) ↦
            let (found, free, _, _) = release_guard-eq-ok s owner id base e passed in
            rw (passed, release_fresh)
              (enter_release-IsConsistent clock owner id base key e s c found free)
      ]

  release_checked-IsConsistent :
      (clock : ℕ → ℕ) (owner : Owner) (id : String) (base : ℕ) (key : String)
      (s : Store Message Binding)
      → IsConsistent s
      → IsConsistent (release_checked opts clock owner id base key s).1
  unfolding release_checked
  release_checked-IsConsistent clock owner id base key s c =
      elim (Option-cases (Dict.get s.idempotency (owner_key owner release_action key))) [
        | inl first ↦
            rw (first, release_checked) (release_fresh-IsConsistent clock owner id base key s c)
        | inr (prior, there) ↦
            rw (there, release_checked)
              (elim (Option-cases (replayed id base prior.outcome)) [
                | inl other ↦ rw other c
                | inr (r, again) ↦ rw again c
              ])
      ]

  -- `release` keeps the store consistent, also where it raises.
  pub release-IsConsistent :
      (host : Host Message Binding) (clock : ℕ → ℕ) (owner : Owner) (id : String) (base : ℕ)
      (key : String) (s : Store Message Binding)
      → IsConsistent s
      → IsConsistent (release_context opts host clock owner id base key s).1
  unfolding release_context
  release-IsConsistent host clock owner id base key s c =
      let c₁ = sweep-IsConsistent opts (clock 0) s c in
      elim (Result-cases (
        ensure_supported opts release
        >> validate_context_id id
        >> reject_if (host.is_blank key) params_invalid)) [
          | inr (x, failed) ↦ rw (failed, release_context) c₁
          | inl (u, passed) ↦
              rw (passed, release_context)
                (release_checked-IsConsistent clock owner id base key (sweep opts (clock 0) s) c₁)
        ]
