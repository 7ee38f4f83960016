-- ===== src/Nop/Orchestrator/Stream.antt =====
-- nps_sdk/nop/orchestrator.py, `_consume_stream`: which streams complete a node.
use nps_sdk_python.Prelude.{
  ℕ, ◌+◌, ◌≡◌, ◌⊎◌, ◌↔◌, refl, ap, String, Bool, true, false, not, ◌&&◌, Option, none, inl, inr,
  List, [], ◌∷◌, ◌++◌, arith, eqb, string_eq, Bool-cases, Option-cases, All,
}
use nps_sdk_python.Nop.Orchestrator.Node.{
  AlignStreamFrame, complete_with, has_gap, close_stream, consume, consume_stream,
}

numbers :
    (last_seq seq : ℕ)
    → has_gap last_seq seq ≡ false
    → (seq ≡ last_seq) ⊎ ((seq ≡ last_seq + 1) ⊎ (seq ≡ 0))
numbers last_seq seq h = ground (arith, h)

no_gap :
    (last_seq seq : ℕ)
    → (seq ≡ last_seq) ⊎ ((seq ≡ last_seq + 1) ⊎ (seq ≡ 0))
    → has_gap last_seq seq ≡ false
no_gap last_seq seq h = ground (arith, h)

close_stream_lem {ℓ} :
    {V : Type ℓ} (f : AlignStreamFrame V) (payload : Option V)
    → close_stream f ≡ complete_with payload
    → (f.error ≡ none) × (f.payload ≡ payload)
close_stream_lem f payload h = elim (Option-cases f.error) [
  | inl fine ↦ (fine, ap (λ o. o.result) (rw fine at h))
  | inr (code, bad) ↦ absurd (ground (arith, ap (λ o. o.error_code) (rw bad at h)))
]

module _ {ℓ} {V : Type ℓ} (validate : Bool) (agent : String) where
  -- Every number is its predecessor's, one more, or 0.
  abbrev pub InOrder : ℕ → List (AlignStreamFrame V) → Type 0
  InOrder last_seq [] = Unit
  InOrder last_seq (f ∷ frames) =
      ((f.seq ≡ last_seq) ⊎ ((f.seq ≡ last_seq + 1) ⊎ (f.seq ≡ 0))) × InOrder f.seq frames

  -- The sender is the node's agent, where that is validated.
  abbrev pub IsFrom : AlignStreamFrame V → Type 0
  IsFrom f = (validate ≡ false) ⊎ (eqb f.sender_nid agent ≡ true)

  -- The frames up to a final one without an error.
  pub record Delivers (last_seq : ℕ) (frames : List (AlignStreamFrame V)) (payload : Option V)
      : Type ℓ where
    pub before : List (AlignStreamFrame V)
    pub closing : AlignStreamFrame V
    pub after : List (AlignStreamFrame V)
    pub split : frames ≡ before ++ closing ∷ after
    pub in_order : InOrder last_seq (before ++ closing ∷ [])
    pub senders : All IsFrom (before ++ closing ∷ [])
    pub open_before : All (λ f. f.is_final ≡ false) before
    pub closes : closing.is_final ≡ true
    pub no_error : closing.error ≡ none
    pub carries : closing.payload ≡ payload

  consume-Delivers :
      (last_seq : ℕ) (frames : List (AlignStreamFrame V)) (payload : Option V)
      → consume validate agent last_seq frames ≡ complete_with payload
      → Delivers last_seq frames payload
  unfolding consume
  consume-Delivers last_seq [] payload h = absurd (ground (arith, ap (λ o. o.error_code) h))
  consume-Delivers last_seq (f ∷ frames) payload h = elim (Bool-cases (has_gap last_seq f.seq)) [
    | inl gap ↦ absurd (ground (arith, ap (λ o. o.error_code) (rw (consume, gap) at h)))
    | inr next ↦ elim (Bool-cases (validate && not (eqb f.sender_nid agent))) [
      | inl stranger ↦
          absurd (ground (arith, ap (λ o. o.error_code) (rw (consume, next, stranger) at h)))
      | inr known ↦ elim (Bool-cases f.is_final) [
        | inl final ↦
            let (fine, carries) =
              close_stream_lem f payload (rw (consume, next, known, final) at h) in
            record {
              before = [];
              closing = f;
              after = frames;
              split = refl;
              in_order = (numbers last_seq f.seq next, tt);
              senders = (ground (arith, known), tt);
              open_before = tt;
              closes = final;
              no_error = fine;
              carries = carries;
            }
        | inr more ↦
            let d = consume-Delivers f.seq frames payload (rw (consume, next, known, more) at h) in
            record {
              before = f ∷ d.before;
              closing = d.closing;
              after = d.after;
              split = ap (λ r. f ∷ r) d.split;
              in_order = (numbers last_seq f.seq next, d.in_order);
              senders = (ground (arith, known), d.senders);
              open_before = (more, d.open_before);
              closes = d.closes;
              no_error = d.no_error;
              carries = d.carries;
            }
      ]
    ]
  ]

  Delivers-consume :
      (last_seq : ℕ) (frames before : List (AlignStreamFrame V)) (closing : AlignStreamFrame V)
      (after : List (AlignStreamFrame V))
      → frames ≡ before ++ closing ∷ after
      → InOrder last_seq (before ++ closing ∷ [])
      → All IsFrom (before ++ closing ∷ [])
      → All (λ f. f.is_final ≡ false) before
      → closing.is_final ≡ true
      → closing.error ≡ none
      → consume validate agent last_seq frames ≡ complete_with closing.payload
  unfolding consume
  Delivers-consume last_seq frames [] closing after e numbered from unfinished closes fine =
      let known : (validate && not (eqb closing.sender_nid agent)) ≡ false =
        ground (arith, from.0) in
      rw (e, consume, no_gap last_seq closing.seq numbered.0, known, closes, fine) refl
  Delivers-consume last_seq frames (f ∷ before) closing after e numbered from unfinished closes
        fine =
      let known : (validate && not (eqb f.sender_nid agent)) ≡ false = ground (arith, from.0) in
      rw (e, consume, no_gap last_seq f.seq numbered.0, known, unfinished.0)
        (Delivers-consume f.seq (before ++ closing ∷ after) before closing after refl numbered.1
          from.1 unfinished.1 closes fine)

  -- A node completes exactly if its stream has a final frame without an error, no final frame before
  -- it, every number up to it the one before, one more or 0, and every sender, where that is
  -- validated, the node's agent; the result is what that frame carries.
  pub consume_stream-completed :
      (frames : List (AlignStreamFrame V)) (payload : Option V)
      → (consume_stream validate agent frames ≡ complete_with payload) ↔ Delivers 0 frames payload
  consume_stream-completed frames payload = (
    consume-Delivers 0 frames payload,
    λ d. rw⁻¹ d.carries (
        Delivers-consume 0 frames d.before d.closing d.after d.split d.in_order d.senders
          d.open_before d.closes d.no_error),
  )
