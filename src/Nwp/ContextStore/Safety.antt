-- ===== src/Nwp/ContextStore/Safety.antt =====
-- What the store of LLM contexts guarantees over any sequence of calls (nwp/context_store.py).
use nps_sdk_python.Prelude.{
  ℕ, ◌+◌, ◌≤◌, String, ◌≡◌, refl, sym, ap, subst, ◌∙◌, false, Option, none, some, [], ◌∷◌, ◌++◌, ok,
  eqb_refl, string_eq, arith, if◌then◌else◌,
}
use nps_sdk_python.Prelude.Dict
use nps_sdk_python.Prelude.Dict.{Dict, get-put}
use nps_sdk_python.Nwp.ContextStore.State.{
  Owner, Request, Reservation, Entry, Receipt, Options, Store, sweep,
}
use nps_sdk_python.Nwp.ContextStore.Guards.{Host, allocates, or_empty, allocated}
use nps_sdk_python.Nwp.ContextStore.Operations.{
  reserve, commit, abort, commit_entry, next_entry, settle, receipt_for, commit_key, is_reset,
}
use nps_sdk_python.Nwp.ContextStore.Lifecycle.{release_context}
use nps_sdk_python.Nwp.ContextStore.Invariant.{IsConsistent, sweep-IsConsistent, allocated-sweep_le}
use nps_sdk_python.Nwp.ContextStore.Reserving.{reserve-IsConsistent, reserve-IsWithin}
use nps_sdk_python.Nwp.ContextStore.Committing.{commit-IsConsistent, locked_entry, commit_key_old}
use nps_sdk_python.Nwp.ContextStore.Ending.{abort-IsConsistent, release-IsConsistent}
use nps_sdk_python.Nwp.ContextStore.Limits.{commit-IsWithin, abort-IsWithin, release-IsWithin}

module _ {Message Binding : Type 0} where
  abbrev pub empty_store : Store Message Binding
  empty_store = record { contexts = []; idempotency = []; reservations = [] }

  -- The stores that calls lead to, in any order and with any arguments, failing or not. `status` and
  -- `snapshot` change nothing but by a sweep. The id of a new reservation is not in use.
  pub data Reachable (opts : Options) (host : Host Message Binding)
      : Store Message Binding → Type 0 where
    start : Reachable opts host empty_store
    after_reserve :
        {s : Store Message Binding} (clock : ℕ → ℕ) (fresh : String)
        (request : Request Message Binding)
        → Dict.get s.reservations fresh ≡ none
        → Reachable opts host s
        → Reachable opts host (reserve opts host clock fresh request s).1
    after_commit :
        {s : Store Message Binding} (clock : ℕ → ℕ) (ids : ℕ → String) (id : String)
        (assistant : Message)
        → Reachable opts host s
        → Reachable opts host (commit opts clock ids id assistant s).1
    after_abort :
        {s : Store Message Binding} (clock : ℕ → ℕ) (id : String) (code : Option String)
        → Reachable opts host s
        → Reachable opts host (abort opts clock id code s).1
    after_release :
        {s : Store Message Binding} (clock : ℕ → ℕ) (owner : Owner) (id : String) (base : ℕ)
        (key : String)
        → Reachable opts host s
        → Reachable opts host (release_context opts host clock owner id base key s).1
    after_sweep :
        {s : Store Message Binding} (now : ℕ)
        → Reachable opts host s
        → Reachable opts host (sweep opts now s)

  empty_store-IsConsistent : IsConsistent empty_store
  unfolding Dict.get Dict.keys
  empty_store-IsConsistent = record { once = tt; held = λ id. tt; backed = λ key. tt }

  -- After any calls, a reservation for APPEND or RESET has its own lock on an active context that is
  -- as it was when the reservation was made, and every lock belongs to such a reservation.
  pub Reachable-IsConsistent :
      {opts : Options} {host : Host Message Binding} {s : Store Message Binding}
      → Reachable opts host s
      → IsConsistent s
  Reachable-IsConsistent start = empty_store-IsConsistent
  Reachable-IsConsistent {opts} {host} (after_reserve clock fresh request new r) =
      reserve-IsConsistent opts host clock fresh request _ (Reachable-IsConsistent r) new
  Reachable-IsConsistent {opts} (after_commit clock ids id assistant r) =
      commit-IsConsistent opts clock ids id assistant _ (Reachable-IsConsistent r)
  Reachable-IsConsistent {opts} (after_abort clock id code r) =
      abort-IsConsistent opts clock id code _ (Reachable-IsConsistent r)
  Reachable-IsConsistent {opts} {host} (after_release clock owner id base key r) =
      release-IsConsistent opts host clock owner id base key _ (Reachable-IsConsistent r)
  Reachable-IsConsistent {opts} (after_sweep now r) =
      sweep-IsConsistent opts now _ (Reachable-IsConsistent r)

  -- After any calls, the active contexts of an owner and its reservations for new ones are together
  -- no more than the option allows.
  pub Reachable-IsWithin :
      {opts : Options} {host : Host Message Binding} {s : Store Message Binding}
      → Reachable opts host s
      → (owner : Owner) → allocated s owner ≤ opts.max_contexts_per_principal
  Reachable-IsWithin start owner = unfold Dict.count_values in omega arith
  Reachable-IsWithin {opts} {host} (after_reserve clock fresh request new r) owner =
      reserve-IsWithin opts host clock fresh request _ (Reachable-IsWithin r) new owner
  Reachable-IsWithin {opts} (after_commit clock ids id assistant r) owner =
      commit-IsWithin opts clock ids id assistant _ (Reachable-IsConsistent r)
        (Reachable-IsWithin r) owner
  Reachable-IsWithin {opts} (after_abort clock id code r) owner =
      abort-IsWithin opts clock id code _ (Reachable-IsWithin r) owner
  Reachable-IsWithin {opts} {host} (after_release clock owner' id base key r) owner =
      release-IsWithin opts host clock owner' id base key _ (Reachable-IsWithin r) owner
  Reachable-IsWithin {opts} (after_sweep now r) owner =
      omega (arith, allocated-sweep_le opts now _ owner, Reachable-IsWithin r owner)

  -- After any calls, at most one reservation for APPEND or RESET is active on a context.
  pub reservation_exclusive :
      {opts : Options} {host : Host Message Binding} {s : Store Message Binding} (id₁ id₂ : String)
      (r₁ r₂ : Reservation Message Binding)
      → Reachable opts host s
      → Dict.get s.reservations id₁ ≡ some r₁
      → Dict.get s.reservations id₂ ≡ some r₂
      → allocates r₁.request.operation ≡ false
      → allocates r₂.request.operation ≡ false
      → or_empty r₁.request.context_id ≡ or_empty r₂.request.context_id
      → id₁ ≡ id₂
  reservation_exclusive {s = s} id₁ id₂ r₁ r₂ reached there₁ there₂ op₁ op₂ same =
      let c = Reachable-IsConsistent reached in
      let (e₁, found₁, held₁, _) = locked_entry s id₁ r₁ c there₁ op₁ in
      let (e₂, found₂, held₂, _) = locked_entry s id₂ r₂ c there₂ op₂ in
      let at : Dict.get s.contexts (or_empty r₁.request.context_id) ≡ some e₂ =
        subst (λ k. Dict.get s.contexts k ≡ some e₂) (sym same) found₂ in
      ground (arith, found₁, at, held₁.0, held₂.0)

  commit_entry_total :
      (now : ℕ) (ids : ℕ → String) (r : Reservation Message Binding) (assistant : Message)
      (s : Store Message Binding) (old : Entry Message Binding)
      → allocates r.request.operation ≡ false
      → Dict.get s.contexts (or_empty r.request.context_id) ≡ some old
      → commit_entry now ids r assistant s ≡ ok (next_entry now old r assistant)
  unfolding commit_entry
  commit_entry_total now ids r assistant s old op found = ground arith

  next_entry_content :
      (now : ℕ) (old : Entry Message Binding) (r : Reservation Message Binding)
      (assistant : Message)
      → let e = next_entry now old r assistant in
        (e.version ≡ old.version + 1)
        × (e.reservation_id ≡ none)
        × (e.transcript ≡ (
            if is_reset r.request.operation
            then r.request.messages ++ assistant ∷ []
            else old.transcript ++ (r.request.messages ++ assistant ∷ [])))
  unfolding next_entry
  next_entry_content now old r assistant = (refl, refl, refl)

  version-receipt_for :
      (r : Reservation Message Binding) (e : Entry Message Binding)
      → (receipt_for r e).version ≡ e.version
  unfolding receipt_for
  version-receipt_for r e = refl

  -- Committing a reservation for APPEND or RESET never fails, whatever the store has done since the
  -- reservation was made: the context gets the version after the one that the caller named, and its
  -- transcript is what the caller saw, with exactly the request's messages and the result added (for
  -- RESET: only these).
  pub commit_total :
      (opts : Options) (clock : ℕ → ℕ) (ids : ℕ → String) (id : String) (assistant : Message)
      (s : Store Message Binding) (r : Reservation Message Binding) (base : ℕ)
      → IsConsistent s
      → Dict.get s.reservations id ≡ some r
      → allocates r.request.operation ≡ false
      → r.request.base_version ≡ some base
      → (receipt : Receipt) × (e : Entry Message Binding) × ((commit opts clock ids id assistant
            s).0
          ≡ ok receipt)
        × (receipt.version ≡ base + 1)
        × (Dict.get
              (commit opts clock ids id assistant s).1.contexts
              (or_empty r.request.context_id)
            ≡ some e)
        × (e.version ≡ base + 1)
        × (e.reservation_id ≡ none)
        × (e.transcript ≡ (
            if is_reset r.request.operation
            then r.request.messages ++ assistant ∷ []
            else r.base_transcript ++ (r.request.messages ++ assistant ∷ [])))
  unfolding commit settle
  commit_total opts clock ids id assistant s r base c there op asked =
      let (old, found, held, own) = locked_entry s id r c there op in
      let e = next_entry (clock 0) old r assistant in
      let made = commit_entry_total (clock 0) ids r assistant s old op found in
      let (next, free, said) = next_entry_content (clock 0) old r assistant in
      let version : old.version ≡ base = ground (arith, held.2, asked) in
      let written : Dict.get (Dict.put s.contexts (commit_key r e) e)
            (or_empty r.request.context_id)
          ≡ some e =
        rw
          (
            get-put s.contexts (commit_key r e) (or_empty r.request.context_id) e,
            commit_key_old r e op,
            eqb_refl (or_empty r.request.context_id),
          )
          refl in
      (
        receipt_for r e,
        e,
        rw (there, commit) (rw made refl),
        version-receipt_for r e ∙ (next ∙ ap (λ (n : ℕ). n + 1) version),
        rw (there, commit) (rw made written),
        next ∙ ap (λ (n : ℕ). n + 1) version,
        free,
        ground (arith, said, held.3),
      )
