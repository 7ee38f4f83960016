-- ===== src/Nop/Orchestrator/Notify.antt =====
-- nps_sdk/nop/orchestrator.py, `_fire_callback`: the attempts to deliver a result. Whether the POST of
-- an attempt succeeds is the parameter `accepted`; the payload and its signature are left out.
use nps_sdk_python.Prelude.{
  ℕ, zero, suc, ◌+◌, ◌-◌, ◌*◌, ◌^◌, ◌≤◌, ◌<◌, ◌≡◌, ◌⊎◌, refl, sym, subst, inl, inr, Bool, true,
  false, ◌&&◌, List, [], ◌∷◌, arith, ltb, ◌==◌, ==_iff, if◌then◌else◌, Bool-cases,
}

-- NopConstants.CALLBACK_MAX_RETRIES
abbrev pub callback_max_retries : ℕ
callback_max_retries = 3

-- what was done: the POSTs, the milliseconds between them, and whether one succeeded
pub record Delivery : Type 0 where
  pub posts : ℕ
  pub delays : List ℕ
  pub delivered : Bool

module _ (accepted : ℕ → Bool) (base_delay_ms : ℕ) where
  -- the sleep behind a failed attempt
  abbrev pub pause : ℕ → List ℕ → List ℕ
  pause attempt delays =
      if ltb attempt callback_max_retries && ltb 0 base_delay_ms
      then base_delay_ms * 2 ^ (attempt - 1) ∷ delays
      else delays

  -- the loop over the attempts, `left` of them
  unfoldable pub deliver : ℕ → ℕ → Delivery
  deliver zero attempt = record { posts = 0; delays = []; delivered = false }
  deliver (suc left) attempt =
      let rest = deliver left (suc attempt) in
      if accepted attempt then record { posts = 1; delays = []; delivered = true } else record {
        posts = suc rest.posts;
        delays = pause attempt rest.delays;
        delivered = rest.delivered;
      }

  -- _fire_callback
  abbrev pub fire_callback : Delivery
  fire_callback = deliver callback_max_retries 1

  -- The attempts up to the one that was accepted, or all of them.
  pub record IsTried (left attempt : ℕ) (d : Delivery) : Type 0 where
    pub last : ℕ
    pub posted : d.posts + attempt ≡ last
    pub bounded : d.posts ≤ left
    pub refused : (j : ℕ) → attempt ≤ j → suc j < last → accepted j ≡ false
    pub ends :
        ((d.delivered ≡ true) × (k : ℕ) × (last ≡ suc k) × (accepted k ≡ true))
        ⊎ ((d.delivered ≡ false)
            × (d.posts ≡ left)
            × ((j : ℕ) → attempt ≤ j → j < last → accepted j ≡ false))

  refused_below :
      (attempt last : ℕ)
      → accepted attempt ≡ false
      → ((j : ℕ) → suc attempt ≤ j → j < last → accepted j ≡ false)
      → (j : ℕ) → attempt ≤ j
      → j < last
      → accepted j ≡ false
  refused_below attempt last first later j low high = elim (Bool-cases (j == attempt)) [
    | inl same ↦ subst (λ i. accepted i ≡ false) (sym ((==_iff j attempt).0 same)) first
    | inr other ↦ later j (ground (arith, low, other)) high
  ]

  deliver-IsTried : (left attempt : ℕ) → IsTried left attempt (deliver left attempt)
  unfolding deliver
  deliver-IsTried zero attempt = record {
    last = attempt;
    posted = omega arith;
    bounded = omega arith;
    refused = λ j low high. absurd (omega (arith, low, high));
    ends = inr (refl, refl, λ j low high. absurd (omega (arith, low, high)));
  }
  deliver-IsTried (suc left) attempt = elim (Bool-cases (accepted attempt)) [
    | inl good ↦
        rw (deliver, good)
          (record {
            last = suc attempt;
            posted = omega arith;
            bounded = omega arith;
            refused = λ j low high. absurd (omega (arith, low, high));
            ends = inl (refl, attempt, refl, good);
          })
    | inr bad ↦
        let rest = deliver-IsTried left (suc attempt) in
        rw (deliver, bad)
          (record {
            last = rest.last;
            posted = omega (arith, rest.posted);
            bounded = omega (arith, rest.bounded);
            refused = λ j low high.
                refused_below attempt (rest.last - 1) bad
                  (λ i l h. rest.refused i l (omega (arith, h))) j low (omega (arith, high));
            ends = elim rest.ends [
              | inl done ↦ inl done
              | inr (lost, all_tried, never) ↦
                  inr (lost, omega (arith, all_tried), refused_below attempt rest.last bad never)
            ];
          })
  ]

  -- A callback is posted at most three times, and not again once it is accepted; if it is given up,
  -- three attempts have failed.
  pub fire_callback-IsTried : IsTried callback_max_retries 1 fire_callback
  fire_callback-IsTried = deliver-IsTried callback_max_retries 1
