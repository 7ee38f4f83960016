-- ===== src/Nwp/ContextStore/Committing.antt =====
-- `commit` and `abort` keep the store consistent and within its limit (nwp/context_store.py).
use nps_sdk_python.Prelude.{
  ℕ, zero, suc, ◌+◌, String, ◌≡◌, refl, sym, ap, subst, ◌∙◌, true, false, inl, inr, Option, none,
  some, ok, bind-eq-ok, eqb, string_eq, arith, Bool-cases, Option-cases, Result-cases,
}
use nps_sdk_python.Prelude.Dict
use nps_sdk_python.Prelude.Dict.{Dict, get-put, get-remove, Nodup-put, count-put, count-remove_le}
use nps_sdk_python.Nwp.ContextStore.State.{
  active, Reservation, Entry, Options, Store, OwnerKey, IdempotencyEntry,
}
use nps_sdk_python.Nwp.ContextStore.Guards.{allocates, or_empty, require_entry}
use nps_sdk_python.Nwp.ContextStore.Operations.{
  next_context_id, new_entry, next_entry, commit_entry, commit_key, settle, commit,
}
use nps_sdk_python.Nwp.ContextStore.Invariant.{Holds, Locks, Backed, Held, IsConsistent}

module _ {Message Binding : Type 0} where
  Locks-remove :
      (reservations : Dict String (Reservation Message Binding)) (gone key id : String)
      (r : Reservation Message Binding)
      → Dict.get reservations gone ≡ some r
      → (Locks key (some r) → ⊥)
      → Locks key (Dict.get reservations id)
      → Locks key (Dict.get (Dict.remove reservations gone) id)
  Locks-remove reservations gone key id r there never h = elim (Bool-cases (eqb gone id)) [
    | inl same ↦ absurd (never (rw (← (string_eq.beq_iff gone id).0 same, there) at h))
    | inr other ↦ rw (get-remove reservations gone id, other) h
  ]

  pub Backed-remove :
      (reservations : Dict String (Reservation Message Binding)) (gone key : String)
      (r : Reservation Message Binding) (o : Option (Entry Message Binding))
      → Dict.get reservations gone ≡ some r
      → (Locks key (some r) → ⊥)
      → Backed reservations key o
      → Backed (Dict.remove reservations gone) key o
  Backed-remove reservations gone key r none there never h = tt
  Backed-remove reservations gone key r (some e) there never h =
      (h.0, h.1, λ id q. Locks-remove reservations gone key id r there never (h.2 id q))

  -- Writing an entry that nobody else has locked leaves what the others hold.
  pub Held-put :
      (contexts : Dict String (Entry Message Binding)) (key id : String) (e : Entry Message Binding)
      (v : Option (Reservation Message Binding))
      → ((r : Reservation Message Binding) → Holds id r (Dict.get contexts key) → ⊥)
      → Held contexts id v
      → Held (Dict.put contexts key e) id v
  Held-put contexts key id e none never h = tt
  Held-put contexts key id e (some v) never h = (
    h.0,
    λ kind.
        let theirs = or_empty v.request.context_id in
        rw (get-put contexts key theirs e) (elim (Bool-cases (eqb key theirs)) [
          | inl same ↦
              let here : theirs ≡ key = rw ((string_eq.beq_iff key theirs).0 same) refl in
              absurd (never v (subst (λ k. Holds id v (Dict.get contexts k)) here (h.1 kind)))
          | inr other ↦ rw other (h.1 kind)
        ]),
  )

  -- A reservation ends: its entry is written without a lock.
  pub replace-IsConsistent :
      (s : Store Message Binding) (idempotency : Dict OwnerKey IdempotencyEntry) (gone key : String)
      (r : Reservation Message Binding) (e : Entry Message Binding)
      → IsConsistent s
      → Dict.get s.reservations gone ≡ some r
      → (e.context_id ≡ key) × (e.state ≡ active) × (e.reservation_id ≡ none)
      → ((id : String) (v : Reservation Message Binding)
          → eqb gone id ≡ false
          → Holds id v (Dict.get s.contexts key)
          → ⊥)
      → ((other : String) → eqb key other ≡ false → Locks other (some r) → ⊥)
      → IsConsistent (record {
        contexts = Dict.put s.contexts key e;
        idempotency = idempotency;
        reservations = Dict.remove s.reservations gone;
      })
  replace-IsConsistent s idempotency gone key r e c there shape alone mine = record {
    once = Nodup-put s.contexts key e c.once;
    held = λ id. rw (get-remove s.reservations gone id) (elim (Bool-cases (eqb gone id)) [
      | inl same ↦ rw same tt
      | inr other ↦ rw other (
          Held-put s.contexts key id e (Dict.get s.reservations id) (λ v. alone id v other)
            (c.held id))
    ]);
    backed = λ k. rw (get-put s.contexts key k e) (elim (Bool-cases (eqb key k)) [
      | inl same ↦ rw same (
        shape.0 ∙ (string_eq.beq_iff key k).0 same,
        ground (arith, shape.1),
        λ id q. absurd (ground (arith, shape.2)),
      )
      | inr other ↦ rw other (
          Backed-remove s.reservations gone k r (Dict.get s.contexts k) there (mine k other)
            (c.backed k))
    ]);
  }

  -- A new id names no context.
  next_context_id-fresh :
      (tries k : ℕ) (ids : ℕ → String) (contexts : Dict String (Entry Message Binding))
      (id : String)
      → next_context_id tries k ids contexts ≡ ok id
      → Dict.get contexts id ≡ none
  unfolding next_context_id
  next_context_id-fresh zero k ids contexts id h = cc
  next_context_id-fresh (suc tries) k ids contexts id h =
      ground (arith, next_context_id-fresh tries (k + 1) ids contexts id)

  pub commit_entry_new :
      (now : ℕ) (ids : ℕ → String) (r : Reservation Message Binding) (assistant : Message)
      (s : Store Message Binding) (e : Entry Message Binding)
      → allocates r.request.operation ≡ true
      → commit_entry now ids r assistant s ≡ ok e
      → (id : String) × (Dict.get s.contexts id ≡ none) × (e ≡ new_entry now id r assistant)
  unfolding commit_entry
  commit_entry_new now ids r assistant s e op h =
      let (id, found, made) = bind-eq-ok (next_context_id 8 0 ids s.contexts) _ (rw op at h) in
      (id, next_context_id-fresh 8 0 ids s.contexts id found, ground arith)

  pub commit_entry_old :
      (now : ℕ) (ids : ℕ → String) (r : Reservation Message Binding) (assistant : Message)
      (s : Store Message Binding) (e : Entry Message Binding)
      → allocates r.request.operation ≡ false
      → commit_entry now ids r assistant s ≡ ok e
      → (old : Entry Message Binding) × (Dict.get s.contexts (or_empty r.request.context_id)
          ≡ some old)
        × (e ≡ next_entry now old r assistant)
  unfolding commit_entry
  commit_entry_old now ids r assistant s e op h =
      let (old, found, made) =
        bind-eq-ok (require_entry s (or_empty r.request.context_id)) _ (rw op at h) in
      (old, ground arith, ground arith)

  -- The entry that a reservation for APPEND or RESET has locked.
  pub locked_entry :
      (s : Store Message Binding) (id : String) (r : Reservation Message Binding)
      → IsConsistent s
      → Dict.get s.reservations id ≡ some r
      → allocates r.request.operation ≡ false
      → (e : Entry Message Binding) × (Dict.get s.contexts (or_empty r.request.context_id) ≡ some e)
        × Holds id r (some e)
        × (e.context_id ≡ or_empty r.request.context_id)
  locked_entry s id r c there op =
      let key = or_empty r.request.context_id in
      let held : Held s.contexts id (some r) = rw there at (c.held id) in
      elim (Option-cases (Dict.get s.contexts key)) [
        | inl absent ↦ absurd (rw absent at (held.1 op))
        | inr (e, found) ↦
            let backed : Backed s.reservations key (some e) = rw found at (c.backed key) in
            (e, found, rw found at (held.1 op), backed.0)
      ]

  pub commit_key_new :
      (r : Reservation Message Binding) (e : Entry Message Binding)
      → allocates r.request.operation ≡ true
      → commit_key r e ≡ e.context_id
  unfolding commit_key
  commit_key_new r e op = rw op refl

  pub commit_key_old :
      (r : Reservation Message Binding) (e : Entry Message Binding)
      → allocates r.request.operation ≡ false
      → commit_key r e ≡ or_empty r.request.context_id
  unfolding commit_key
  commit_key_old r e op = rw op refl

  pub new_entry_shape :
      (now : ℕ) (id : String) (r : Reservation Message Binding) (assistant : Message)
      (e : Entry Message Binding)
      → e ≡ new_entry now id r assistant
      → (e.context_id ≡ id)
        × (e.state ≡ active)
        × (e.reservation_id ≡ none)
        × (e.owner ≡ r.request.owner)
  unfolding new_entry
  new_entry_shape now id r assistant e made = ground arith

  pub next_entry_shape :
      (now : ℕ) (old : Entry Message Binding) (r : Reservation Message Binding)
      (assistant : Message) (e : Entry Message Binding)
      → e ≡ next_entry now old r assistant
      → (e.context_id ≡ old.context_id)
        × (e.state ≡ active)
        × (e.reservation_id ≡ none)
        × (e.owner ≡ old.owner)
  unfolding next_entry
  next_entry_shape now old r assistant e made = ground arith

module _ {Message Binding : Type 0} (opts : Options) where
  settle_new-IsConsistent :
      (now later : ℕ) (ids : ℕ → String) (r : Reservation Message Binding) (assistant : Message)
      (s : Store Message Binding) (e : Entry Message Binding)
      → IsConsistent s
      → Dict.get s.reservations r.reservation_id ≡ some r
      → allocates r.request.operation ≡ true
      → commit_entry now ids r assistant s ≡ ok e
      → IsConsistent (settle opts later r e s)
  unfolding settle
  settle_new-IsConsistent now later ids r assistant s e c there op h =
      let (id, free, made) = commit_entry_new now ids r assistant s e op h in
      let (at_id, live, unlocked, _) = new_entry_shape now id r assistant e made in
      let key = commit_key_new r e op in
      let vacant : Dict.get s.contexts (commit_key r e) ≡ none =
        subst (λ k. Dict.get s.contexts k ≡ none) (sym (key ∙ at_id)) free in
      replace-IsConsistent s _ r.reservation_id (commit_key r e) r e c there
        (sym key, live, unlocked) (λ other v ne held. rw vacant at held)
        (λ other ne mine. ground arith)

  settle_old-IsConsistent :
      (now later : ℕ) (ids : ℕ → String) (r : Reservation Message Binding) (assistant : Message)
      (s : Store Message Binding) (e : Entry Message Binding)
      → IsConsistent s
      → Dict.get s.reservations r.reservation_id ≡ some r
      → allocates r.request.operation ≡ false
      → commit_entry now ids r assistant s ≡ ok e
      → IsConsistent (settle opts later r e s)
  unfolding settle
  settle_old-IsConsistent now later ids r assistant s e c there op h =
      let (old, found, made) = commit_entry_old now ids r assistant s e op h in
      let (locked, found', held, own) = locked_entry s r.reservation_id r c there op in
      let (at_id, live, unlocked, _) = next_entry_shape now old r assistant e made in
      let key = commit_key_old r e op in
      let same : locked ≡ old = ground (arith, found, found') in
      let at_key : Dict.get s.contexts (commit_key r e) ≡ some locked =
        subst (λ k. Dict.get s.contexts k ≡ some locked) (sym key) found' in
      replace-IsConsistent s _ r.reservation_id (commit_key r e) r e c there
        (
          at_id ∙ (sym (ap (λ (x : Entry Message Binding). x.context_id) same) ∙ (own ∙ sym key)),
          live,
          unlocked,
        )
        (λ other v ne theirs.
          let both : Holds other v (some locked) = rw at_key at theirs in
          ground (arith, both.0, held.0, string_eq.beq_iff r.reservation_id other))
        (λ other ne mine. ground (arith, key, mine.0, string_eq.beq_iff (commit_key r e) other))

  settle-IsConsistent :
      (now later : ℕ) (ids : ℕ → String) (r : Reservation Message Binding) (assistant : Message)
      (s : Store Message Binding) (e : Entry Message Binding)
      → IsConsistent s
      → Dict.get s.reservations r.reservation_id ≡ some r
      → commit_entry now ids r assistant s ≡ ok e
      → IsConsistent (settle opts later r e s)
  settle-IsConsistent now later ids r assistant s e c there h =
      elim (Bool-cases (allocates r.request.operation)) [
        | inl op ↦ settle_new-IsConsistent now later ids r assistant s e c there op h
        | inr op ↦ settle_old-IsConsistent now later ids r assistant s e c there op h
      ]

  pub named :
      (s : Store Message Binding) (id : String) (r : Reservation Message Binding)
      → IsConsistent s
      → Dict.get s.reservations id ≡ some r
      → Dict.get s.reservations r.reservation_id ≡ some r
  named s id r c there =
      let held : Held s.contexts id (some r) = rw there at (c.held id) in
      subst (λ k. Dict.get s.reservations k ≡ some r) (sym held.0) there

  -- `commit` keeps the store consistent, also where it raises.
  pub commit-IsConsistent :
      (clock : ℕ → ℕ) (ids : ℕ → String) (id : String) (assistant : Message)
      (s : Store Message Binding)
      → IsConsistent s
      → IsConsistent (commit opts clock ids id assistant s).1
  unfolding commit
  commit-IsConsistent clock ids id assistant s c =
      elim (Option-cases (Dict.get s.reservations id)) [
        | inl absent ↦ rw (absent, commit) c
        | inr (r, there) ↦
            rw (there, commit)
              (elim (Result-cases (commit_entry (clock 0) ids r assistant s)) [
                | inr (x, failed) ↦ rw failed c
                | inl (e, made) ↦ rw made (
                    settle-IsConsistent (clock 0) (clock 1) ids r assistant s e c
                      (named s id r c there) made)
              ])
      ]
