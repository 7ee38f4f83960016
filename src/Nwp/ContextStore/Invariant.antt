-- ===== src/Nwp/ContextStore/Invariant.antt =====
-- What holds of the store of LLM contexts between two operations (nwp/context_store.py), and that
-- `_sweep` keeps it.
use nps_sdk_python.Prelude.{
  ℕ, ◌≤◌, String, ◌≡◌, refl, true, false, not, ◌||◌, Option, none, some, string_eq, Nodup, arith,
}
use nps_sdk_python.Prelude.Dict
use nps_sdk_python.Prelude.Dict.{
  Dict, option_map, option_filter, get-map_values, get-filter_values, Nodup-filter_values,
  keys-map_values, count-map_values_le, count-filter_values_le,
}
use nps_sdk_python.Nwp.ContextStore.State.{
  Owner, active, Reservation, Entry, Options, Store, is_active, is_gone, is_buried, expire, sweep,
}
use nps_sdk_python.Nwp.ContextStore.Guards.{allocates, is_version, or_empty, allocated, is_live_of}

module _ {Message Binding : Type 0} where
  -- The entry that a reservation for APPEND or RESET has locked: it is active and still as it was
  -- when the reservation was made.
  abbrev pub Holds : String → Reservation Message Binding → Option (Entry Message Binding) → Type 0
  Holds id r none = ⊥
  Holds id r (some e) =
      (e.reservation_id ≡ some id)
      × (e.state ≡ active)
      × (is_version e.version r.request.base_version ≡ true)
      × (e.transcript ≡ r.base_transcript)

  abbrev pub Locks : String → Option (Reservation Message Binding) → Type 0
  Locks key none = ⊥
  Locks key (some r) =
      (or_empty r.request.context_id ≡ key) × (allocates r.request.operation ≡ false)

  -- An entry stands under its own id, in one of three states, and a lock on it is that of an active
  -- reservation for it.
  abbrev pub Backed :
      Dict String (Reservation Message Binding) → String → Option (Entry Message Binding) → Type 0
  Backed reservations key none = Unit
  Backed reservations key (some e) =
      (e.context_id ≡ key)
      × ((is_active e.state || is_gone e.state) ≡ true)
      × ((id : String) → e.reservation_id ≡ some id → Locks key (Dict.get reservations id))

  abbrev pub Held :
      Dict String (Entry Message Binding) → String → Option (Reservation Message Binding) → Type 0
  Held contexts id none = Unit
  Held contexts id (some r) =
      (r.reservation_id ≡ id)
      × (allocates r.request.operation ≡ false
          → Holds id r (Dict.get contexts (or_empty r.request.context_id)))

  pub record IsConsistent (s : Store Message Binding) : Type 0 where
    pub once : Nodup (Dict.keys s.contexts)
    pub held : (id : String) → Held s.contexts id (Dict.get s.reservations id)
    pub backed : (key : String) → Backed s.reservations key (Dict.get s.contexts key)

  -- No owner has more contexts, the reserved ones counted, than the option allows.
  abbrev pub IsWithin : Options → Store Message Binding → Type 0
  IsWithin opts s = (owner : Owner) → allocated s owner ≤ opts.max_contexts_per_principal

  abbrev swept_entry : Options → ℕ → Option (Entry Message Binding) → Option (Entry Message Binding)
  swept_entry opts now o =
      option_filter (λ e. not (is_buried now e)) (option_map (expire opts now) o)

  get-sweep :
      (opts : Options) (now : ℕ) (s : Store Message Binding) (key : String)
      → Nodup (Dict.keys s.contexts)
      → Dict.get (sweep opts now s).contexts key ≡ swept_entry opts now (Dict.get s.contexts key)
  unfolding sweep
  get-sweep opts now s key n =
      rw
        (
          get-filter_values (λ e. not (is_buried now e))
              (Dict.map_values (expire opts now) s.contexts) key (rw keys-map_values n),
          get-map_values,
        )
        refl

  -- A locked entry is neither expired nor deleted.
  Holds-sweep :
      (opts : Options) (now : ℕ) (id : String) (r : Reservation Message Binding)
      (o : Option (Entry Message Binding))
      → Holds id r o
      → Holds id r (swept_entry opts now o)
  Holds-sweep opts now id r none h = h
  Holds-sweep opts now id r (some e) h = ground arith

  Backed-sweep :
      (opts : Options) (now : ℕ) (reservations : Dict String (Reservation Message Binding))
      (key : String) (o : Option (Entry Message Binding))
      → Backed reservations key o
      → Backed reservations key (swept_entry opts now o)
  Backed-sweep opts now reservations key none h = tt
  Backed-sweep opts now reservations key (some e) h = ground arith

  Held-sweep :
      (opts : Options) (now : ℕ) (s : Store Message Binding) (id : String)
      (o : Option (Reservation Message Binding))
      → Nodup (Dict.keys s.contexts)
      → Held s.contexts id o
      → Held (sweep opts now s).contexts id o
  Held-sweep opts now s id none n h = tt
  Held-sweep opts now s id (some r) n h = (
    h.0,
    λ op.
        rw (get-sweep opts now s (or_empty r.request.context_id) n) (
          Holds-sweep opts now id r (Dict.get s.contexts (or_empty r.request.context_id)) (h.1 op)),
  )

  pub reservations-sweep :
      (opts : Options) (now : ℕ) (s : Store Message Binding)
      → (sweep opts now s).reservations ≡ s.reservations
  unfolding sweep
  reservations-sweep opts now s = refl

  pub sweep-IsConsistent :
      (opts : Options) (now : ℕ) (s : Store Message Binding)
      → IsConsistent s
      → IsConsistent (sweep opts now s)
  sweep-IsConsistent opts now s c = record {
    once =
        unfold sweep in
        Nodup-filter_values _ (Dict.map_values (expire opts now) s.contexts)
          (rw keys-map_values c.once);
    held = λ id.
        rw reservations-sweep
          (Held-sweep opts now s id (Dict.get s.reservations id) c.once (c.held id));
    backed = λ key.
        rw (reservations-sweep, get-sweep opts now s key c.once)
          (Backed-sweep opts now s.reservations key (Dict.get s.contexts key) (c.backed key));
  }

  pub allocated-sweep_le :
      (opts : Options) (now : ℕ) (s : Store Message Binding) (owner : Owner)
      → allocated (sweep opts now s) owner ≤ allocated s owner
  unfolding sweep
  allocated-sweep_le opts now s owner = omega (
    arith,
    count-filter_values_le (is_live_of owner) (λ e. not (is_buried now e))
        (Dict.map_values (expire opts now) s.contexts),
    count-map_values_le (is_live_of owner) (expire opts now) s.contexts (λ e h. ground arith),
  )
