-- ===== src/Nwp/ContextStore/Limits.antt =====
-- `commit`, `abort` and `release` keep every owner within the limit (nwp/context_store.py).
use nps_sdk_python.Prelude.{
  ℕ, ◌≤◌, String, ◌≡◌, sym, subst, ◌>>◌, inl, inr, Option, none, some, ok, reject_if, string_eq,
  arith, Bool-cases, Option-cases, Result-cases,
}
use nps_sdk_python.Prelude.Dict
use nps_sdk_python.Prelude.Dict.{Dict, holds, count-put, count-remove_le}
use nps_sdk_python.Nwp.ContextStore.State.{
  Owner, release, Reservation, Entry, Options, Store, sweep, owner_key, owner_key_eq,
  release_action,
}
use nps_sdk_python.Nwp.ContextStore.Guards.{
  Host, allocates, or_empty, allocated, is_live_of, is_pending_of, ensure_supported,
  validate_context_id, params_invalid,
}
use nps_sdk_python.Nwp.ContextStore.Operations.{
  commit_entry, commit_key, settle, commit, unlock, drop, abort,
}
use nps_sdk_python.Nwp.ContextStore.Lifecycle.{
  bury, enter_release, release_guard, release_fresh, release_checked, release_context, replayed,
}
use nps_sdk_python.Nwp.ContextStore.Invariant.{IsConsistent, IsWithin, allocated-sweep_le}
use nps_sdk_python.Nwp.ContextStore.Committing.{
  commit_entry_new, commit_entry_old, new_entry_shape, next_entry_shape, commit_key_old,
  locked_entry, named,
}

module _ {Message Binding : Type 0} (opts : Options) where
  -- A reservation becomes a context of its owner, or its context stays one.
  allocated-settle_le :
      (now later : ℕ) (ids : ℕ → String) (r : Reservation Message Binding) (assistant : Message)
      (s : Store Message Binding) (e : Entry Message Binding) (owner : Owner)
      → IsConsistent s
      → Dict.get s.reservations r.reservation_id ≡ some r
      → commit_entry now ids r assistant s ≡ ok e
      → allocated (settle opts later r e s) owner ≤ allocated s owner
  unfolding settle
  allocated-settle_le now later ids r assistant s e owner c there h =
      let live = count-put (is_live_of owner) s.contexts (commit_key r e) e in
      let ended = count-remove_le (is_pending_of owner) s.reservations r.reservation_id in
      elim (Bool-cases (allocates r.request.operation)) [
        | inl op ↦
            let (id, free, made) = commit_entry_new now ids r assistant s e op h in
            let (at_id, on, unlocked, mine) = new_entry_shape now id r assistant e made in
            ground (arith, live, ended, there, mine, on, op)
        | inr op ↦
            let (old, found, made) = commit_entry_old now ids r assistant s e op h in
            let (locked, found', held, own) = locked_entry s r.reservation_id r c there op in
            let (at_id, on, unlocked, mine) = next_entry_shape now old r assistant e made in
            let same : locked ≡ old = ground (arith, found, found') in
            let at_key : Dict.get s.contexts (commit_key r e) ≡ some old =
              subst (λ k. Dict.get s.contexts k ≡ some old) (sym (commit_key_old r e op)) found in
            ground (arith, live, ended, there, mine, on, op, at_key, same, held.1)
      ]

  -- `commit` keeps every owner within the limit.
  pub commit-IsWithin :
      (clock : ℕ → ℕ) (ids : ℕ → String) (id : String) (assistant : Message)
      (s : Store Message Binding)
      → IsConsistent s
      → IsWithin opts s
      → IsWithin opts (commit opts clock ids id assistant s).1
  unfolding commit
  commit-IsWithin clock ids id assistant s c w owner =
      elim (Option-cases (Dict.get s.reservations id)) [
        | inl absent ↦ rw (absent, commit) (w owner)
        | inr (r, there) ↦
            rw (there, commit)
              (elim (Result-cases (commit_entry (clock 0) ids r assistant s)) [
                | inr (x, failed) ↦ rw failed (w owner)
                | inl (e, made) ↦ rw made (
                    omega (
                      arith,
                      allocated-settle_le (clock 0) (clock 1) ids r assistant s e owner c
                          (named opts s id r c there) made,
                      w owner,
                    ))
              ])
      ]

  count-unlock_le :
      (r : Reservation Message Binding) (s : Store Message Binding) (owner : Owner)
      → Dict.count_values (is_live_of owner) (unlock r s.contexts)
        ≤ Dict.count_values (is_live_of owner) s.contexts
  unfolding unlock
  count-unlock_le r s owner =
      elim (Option-cases (Dict.get s.contexts (or_empty r.request.context_id))) [
        | inl absent ↦ ground arith
        | inr (e, found) ↦ ground (
          arith,
          count-put (is_live_of owner) s.contexts (or_empty r.request.context_id)
              (record e { reservation_id = none }),
          found,
        )
      ]

  -- `abort` keeps every owner within the limit.
  pub abort-IsWithin :
      (clock : ℕ → ℕ) (id : String) (code : Option String) (s : Store Message Binding)
      → IsWithin opts s
      → IsWithin opts (abort opts clock id code s).1
  unfolding abort
  abort-IsWithin clock id code s w owner = elim (Option-cases (Dict.get s.reservations id)) [
    | inl absent ↦ rw (absent, abort) (w owner)
    | inr (r, there) ↦
        rw (there, abort)
          (unfold drop in
            omega (
              arith,
              allocated-sweep_le opts (clock 1) (drop opts (clock 0) r code s) owner,
              count-unlock_le r s owner,
              count-remove_le (is_pending_of owner) s.reservations r.reservation_id,
              w owner,
            ))
  ]

  allocated-release_fresh_le :
      (clock : ℕ → ℕ) (owner : Owner) (id : String) (base : ℕ) (key : String)
      (s : Store Message Binding) (other : Owner)
      → allocated (release_fresh opts clock owner id base key s).1 other ≤ allocated s other
  unfolding release_fresh enter_release bury
  allocated-release_fresh_le clock owner id base key s other =
      elim (Result-cases (release_guard s owner id base)) [
        | inr (x, failed) ↦ rw (failed, release_fresh) (omega arith)
        | inl (e, passed) ↦
            rw (passed, release_fresh)
              (ground (arith, count-put (is_live_of other) s.contexts id (bury opts (clock 1) e)))
      ]

  allocated-release_checked_le :
      (clock : ℕ → ℕ) (owner : Owner) (id : String) (base : ℕ) (key : String)
      (s : Store Message Binding) (other : Owner)
      → allocated (release_checked opts clock owner id base key s).1 other ≤ allocated s other
  unfolding release_checked
  allocated-release_checked_le clock owner id base key s other =
      elim (Option-cases (Dict.get s.idempotency (owner_key owner release_action key))) [
        | inl first ↦
            rw (first, release_checked) (allocated-release_fresh_le clock owner id base key s other)
        | inr (prior, there) ↦
            rw (there, release_checked)
              (elim (Option-cases (replayed id base prior.outcome)) [
                | inl different ↦ rw different (omega arith)
                | inr (r, again) ↦ rw again (omega arith)
              ])
      ]

  -- `release` keeps every owner within the limit.
  pub release-IsWithin :
      (host : Host Message Binding) (clock : ℕ → ℕ) (owner : Owner) (id : String) (base : ℕ)
      (key : String) (s : Store Message Binding)
      → IsWithin opts s
      → IsWithin opts (release_context opts host clock owner id base key s).1
  unfolding release_context
  release-IsWithin host clock owner id base key s w other =
      let less = allocated-sweep_le opts (clock 0) s other in
      elim (Result-cases (
        ensure_supported opts release
        >> validate_context_id id
        >> reject_if (host.is_blank key) params_invalid)) [
          | inr (x, failed) ↦ rw (failed, release_context) (omega (arith, less, w other))
          | inl (u, passed) ↦
              rw (passed, release_context)
                (omega (
                  arith,
                  less,
                  w other,
                  allocated-release_checked_le clock owner id base key (sweep opts (clock 0) s)
                      other,
                ))
        ]
