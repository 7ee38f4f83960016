-- ===== src/Ndp/Cluster/Election.antt =====
-- Who is elected, said of the members alone (ndp/cluster.py).
use nps_sdk_python.Prelude.{
  ℕ, ◌≤◌, String, ◌≡◌, ◌≢◌, ◌↔◌, refl, sym, ap, ◌∙◌, subst, Bool, true, false, ◌&&◌, none, some,
  List, [], ◌∷◌, ok, err, ◌==◌, leb, eqb, string_eq, select, length, arith,
}
use nps_sdk_python.Ndp.Cluster.{
  AnnounceFrame, cluster_split, effective_cluster_epoch, names, top_epoch, leaders_at, choose,
  elect, resolve_cluster_from,
}

select-and {ℓ} :
    {A : Type ℓ} (p q : A → Bool) (xs : List A)
    → select (λ x. p x && q x) xs ≡ select q (select p xs)
select-and p q [] = refl
select-and p q (x ∷ xs) = ground (arith, select-and p q xs)

-- Those at least as high as the top are those at the top.
top_epoch-ge :
    (f : AnnounceFrame) (fs : List AnnounceFrame) → effective_cluster_epoch f ≤ top_epoch f fs
unfolding top_epoch
top_epoch-ge f [] = omega arith
top_epoch-ge f (g ∷ gs) = omega arith

select-top :
    (n : ℕ) (f : AnnounceFrame) (fs : List AnnounceFrame)
    → top_epoch f fs ≤ n
    → select (λ g. leb n (effective_cluster_epoch g)) (f ∷ fs) ≡ leaders_at n (f ∷ fs)
unfolding top_epoch
select-top n f [] h = ground arith
select-top n f (g ∷ gs) h = ground (arith, select-top n g gs)

-- The top is reached.
leaders-ne-nil :
    (f : AnnounceFrame) (fs : List AnnounceFrame) → leaders_at (top_epoch f fs) (f ∷ fs) ≢ []
unfolding top_epoch
leaders-ne-nil f [] h = ground arith
leaders-ne-nil f (g ∷ gs) h = ground (arith, leaders-ne-nil g gs)

selected-le-top :
    (p : AnnounceFrame → Bool) (f : AnnounceFrame) (fs : List AnnounceFrame) (x : AnnounceFrame)
    (r : List AnnounceFrame)
    → select p (f ∷ fs) ≡ x ∷ r
    → effective_cluster_epoch x ≤ top_epoch f fs
unfolding top_epoch
selected-le-top p f [] x r h = ground arith
selected-le-top p f (g ∷ gs) x r h = ground (arith, selected-le-top p g gs x r)

abbrev pub at_least : ℕ → AnnounceFrame → Bool
at_least n g = leb n (effective_cluster_epoch g)

elect-some :
    (anchor : String) (fs : List AnnounceFrame) (f : AnnounceFrame)
    → elect anchor fs ≡ ok (some f)
    → select (at_least (effective_cluster_epoch f)) fs ≡ f ∷ []
elect-some anchor [] f h = cc
elect-some anchor (g ∷ gs) f h =
    let top = top_epoch g gs in
    let alone : leaders_at top (g ∷ gs) ≡ f ∷ [] = chosen (leaders_at top (g ∷ gs)) h in
    let same : effective_cluster_epoch f ≡ top = leader_epoch top (g ∷ gs) alone in
    subst (λ n. select (at_least n) (g ∷ gs) ≡ f ∷ []) (sym same)
      (select-top top g gs (omega arith) ∙ alone)
  where
    chosen : (l : List AnnounceFrame) → choose anchor (top_epoch g gs) l ≡ ok (some f) → l ≡ f ∷ []
    chosen [] e = cc
    chosen (x ∷ []) e = ground arith
    chosen (x ∷ y ∷ l) e = cc

    leader_epoch :
        (n : ℕ) (l : List AnnounceFrame) → leaders_at n l ≡ f ∷ [] → effective_cluster_epoch f ≡ n
    leader_epoch n [] e = cc
    leader_epoch n (x ∷ l) e = ground (arith, leader_epoch n l)

select-select {ℓ} :
    {A : Type ℓ} (p q : A → Bool) (xs : List A)
    → ((x : A) → q x ≡ true → p x ≡ true)
    → select q (select p xs) ≡ select q xs
select-select p q [] h = refl
select-select p q (x ∷ xs) h = ground (arith, select-select p q xs h, h x)

some-elect :
    (anchor : String) (fs : List AnnounceFrame) (f : AnnounceFrame)
    → select (at_least (effective_cluster_epoch f)) fs ≡ f ∷ []
    → elect anchor fs ≡ ok (some f)
some-elect anchor [] f h = cc
some-elect anchor (g ∷ gs) f h =
    let top = top_epoch g gs in
    let n = effective_cluster_epoch f in
    let below : n ≤ top = selected-le-top (at_least n) g gs f [] h in
    let within : select (λ x. effective_cluster_epoch x == top) (f ∷ []) ≡ leaders_at top (g ∷ gs) =
      ap (leaders_at top) (sym h)
      ∙ select-select (at_least n) (λ x. effective_cluster_epoch x == top) (g ∷ gs)
          (λ x e. ground (arith, below)) in
    let reached = leaders-ne-nil g gs in
    let alone : leaders_at top (g ∷ gs) ≡ f ∷ [] = ground (arith, within, reached) in rw alone refl

-- For a cluster that is named, a member is elected exactly if it is the only one whose epoch is at
-- least its own.
pub elected_iff :
    (members : List AnnounceFrame) (anchor : String) (f : AnnounceFrame)
    → eqb anchor "" ≡ false
    → (resolve_cluster_from members anchor ≡ ok (some f)) ↔ (
        select
          (λ g. names anchor g && leb (effective_cluster_epoch f) (effective_cluster_epoch g))
          members
        ≡ f ∷ [])
unfolding resolve_cluster_from
elected_iff members anchor f named = (
  λ h.
      select-and (names anchor) (at_least (effective_cluster_epoch f)) members
      ∙ elect-some anchor (select (names anchor) members) f (rw named at h),
  λ h. rw named (
      some-elect anchor (select (names anchor) members) f
        (sym (select-and (names anchor) (at_least (effective_cluster_epoch f)) members) ∙ h)),
)

-- No member is elected, and no error raised, exactly if no member names the cluster.
pub unelected_iff :
    (members : List AnnounceFrame) (anchor : String)
    → eqb anchor "" ≡ false
    → (resolve_cluster_from members anchor ≡ ok none) ↔ (select (names anchor) members ≡ [])
unfolding resolve_cluster_from
unelected_iff members anchor named =
    (λ h. empty (select (names anchor) members) (rw named at h), λ h. rw (named, h) refl)
  where
    nobody : (n : ℕ) (l : List AnnounceFrame) → choose anchor n l ≡ ok none → ⊥
    nobody n [] e = cc
    nobody n (x ∷ []) e = ground arith
    nobody n (x ∷ y ∷ l) e = cc

    empty : (l : List AnnounceFrame) → elect anchor l ≡ ok none → l ≡ []
    empty [] e = refl
    empty (x ∷ l) e = absurd (nobody (top_epoch x l) (leaders_at (top_epoch x l) (x ∷ l)) e)

-- Where a split is raised for an epoch, two or more members of the cluster have it, and those at
-- least as high are the same members: none of the cluster exceeds it.
pub split_shared :
    (members : List AnnounceFrame) (anchor : String) (n : ℕ)
    → eqb anchor "" ≡ false
    → (resolve_cluster_from members anchor ≡ err (cluster_split anchor n))
    → (2 ≤ length (leaders_at n (select (names anchor) members)))
      × (leaders_at n (select (names anchor) members)
          ≡ select (at_least n) (select (names anchor) members))
unfolding resolve_cluster_from
split_shared members anchor n named h = go (select (names anchor) members) (rw named at h)
  where
    two :
        (m : ℕ) (l : List AnnounceFrame)
        → choose anchor m l ≡ err (cluster_split anchor n)
        → (m ≡ n) × (2 ≤ length l)
    two m [] e = cc
    two m (x ∷ []) e = cc
    two m (x ∷ y ∷ l) e = ground arith

    go :
        (l : List AnnounceFrame)
        → elect anchor l ≡ err (cluster_split anchor n)
        → (2 ≤ length (leaders_at n l)) × (leaders_at n l ≡ select (at_least n) l)
    go [] e = cc
    go (x ∷ l) e =
        let (same, more) = two (top_epoch x l) (leaders_at (top_epoch x l) (x ∷ l)) e in
        subst
          (λ m.
            (2 ≤ length (leaders_at m (x ∷ l)))
            × (leaders_at m (x ∷ l) ≡ select (at_least m) (x ∷ l)))
          same (more, sym (select-top (top_epoch x l) x l (omega arith)))
