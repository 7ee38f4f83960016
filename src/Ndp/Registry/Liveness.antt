-- ===== src/Ndp/Registry/Liveness.antt =====
-- nps_sdk/ndp/registry.py: how long an announcement is seen, and by which queries.
use nps_sdk_python.Prelude.{
  ℕ, ◌+◌, ◌≤◌, ◌<◌, ◌≡◌, ◌↔◌, ◌⊎◌, inl, inr, String, true, not, ◌&&◌, none, some, [], ◌∷◌, ltb, leb,
  ◌==◌, if◌then◌else◌, eqb, Bool-cases, Option-cases, string_eq, In, here, there, codes, arith,
}
use nps_sdk_python.Prelude.Dict
use nps_sdk_python.Ndp.Cluster.{Address, AnnounceFrame}
use nps_sdk_python.Ndp.Registry
use nps_sdk_python.Ndp.Registry.Target.{target_matches_nid}

-- Behind an announcement, a query by NID at time `later` finds the announced frame exactly while
-- its TTL has not run out (never, if the TTL is 0), and every other NID as before.
pub get_by_nid-announce :
    (now later : ℕ) (frame : AnnounceFrame) (nid : String) (store : Registry.Registry)
    → Registry.get_by_nid later nid (Registry.announce now frame store) ≡ (
        if eqb frame.nid nid
        then (if not (frame.ttl == 0) && ltb later (now + Registry.microseconds frame.ttl)
            then some frame
            else none)
        else Registry.get_by_nid later nid store)
unfolding Registry.get_by_nid Registry.announce
get_by_nid-announce now later frame nid store = ground (
  arith,
  Dict.get-put store frame.nid nid (frame, now + Registry.microseconds frame.ttl),
  Dict.get-remove store frame.nid nid,
)

ltb→lt : (a b : ℕ) → ltb a b ≡ true → a < b
ltb→lt a b h = ground arith

lt→ltb : (a b : ℕ) → a < b → ltb a b ≡ true
lt→ltb a b h = ground arith

-- a stored frame that is not expired
abbrev pub Live : ℕ → AnnounceFrame → Registry.Registry → Type 0
Live now frame store =
    (nid : String) × (expiry : ℕ) × In (nid, (frame, expiry)) store × (now < expiry)

Live-later :
    (now : ℕ) (frame : AnnounceFrame) (e : String × (AnnounceFrame × ℕ)) (store : Registry.Registry)
    → Live now frame store
    → Live now frame (e ∷ store)
Live-later now frame e store (nid, expiry, i, live) = (nid, expiry, there i, live)

Live-first :
    (now : ℕ) (frame : AnnounceFrame) (k : String) (f : AnnounceFrame) (t : ℕ)
    (store : Registry.Registry)
    → now < t
    → In frame (f ∷ Registry.get_all now store)
    → (In frame (Registry.get_all now store) → Live now frame store)
    → Live now frame ((k, (f, t)) ∷ store)
Live-first now _ k f t store live here rest = (k, t, here, live)
Live-first now frame k f t store live (there i) rest =
    Live-later now frame (k, (f, t)) store (rest i)

get_all→ :
    (now : ℕ) (frame : AnnounceFrame) (store : Registry.Registry)
    → In frame (Registry.get_all now store)
    → Live now frame store
unfolding Registry.get_all
get_all→ now frame [] i = elim i [ ]
get_all→ now frame ((k, (f, t)) ∷ store) i = elim (Bool-cases (ltb now t)) [
  | inl live ↦
      Live-first now frame k f t store (ltb→lt now t live) (rw live at i) (get_all→ now frame store)
  | inr late ↦ Live-later now frame (k, (f, t)) store (get_all→ now frame store (rw late at i))
]

In-get_all :
    (now : ℕ) (frame : AnnounceFrame) (nid : String) (expiry : ℕ)
    → now < expiry
    → (store : Registry.Registry) → In (nid, (frame, expiry)) store
    → In frame (Registry.get_all now store)
unfolding Registry.get_all
In-get_all now frame nid expiry live [] i = elim i [ ]
In-get_all now frame nid expiry live (_ ∷ store) here = rw (lt→ltb now expiry live) here
In-get_all now frame nid expiry live ((k, (f, t)) ∷ store) (there i) =
    elim (Bool-cases (ltb now t)) [
      | inl e ↦ rw e (there (In-get_all now frame nid expiry live store i))
      | inr e ↦ rw e (In-get_all now frame nid expiry live store i)
    ]

-- Each frame that a listing shows is stored and not expired, and the other way round.
pub get_all_iff :
    (now : ℕ) (frame : AnnounceFrame) (store : Registry.Registry)
    → In frame (Registry.get_all now store) ↔ Live now frame store
get_all_iff now frame store = (
  get_all→ now frame store,
  λ (nid, expiry, i, live). In-get_all now frame nid expiry live store i,
)

-- an answer of `resolve` and the entry that it comes from
abbrev pub Answered : ℕ → String → Registry.ResolveResult → Registry.Registry → Type 0
Answered now target r store =
    (nid : String) × (frame : AnnounceFrame) × (expiry : ℕ) × (a : Address) × In
      (nid, (frame, expiry)) store
    × (now < expiry)
    × (target_matches_nid (codes frame.nid) (codes target) ≡ true)
    × (Registry.pick_address frame.addresses ≡ some a)
    × (r ≡ Registry.answer now expiry a)

later_none :
    (now : ℕ) (target k : String) (f : AnnounceFrame) (t : ℕ) (store : Registry.Registry)
    → Registry.resolve now target ((k, (f, t)) ∷ store) ≡ none
    → Registry.resolve now target store ≡ none
unfolding Registry.resolve_in
later_none now target k f t store h = ground arith

-- If `resolve` finds nothing, then each stored frame that covers the target is expired or has no
-- address to pick.
pub resolve-none :
    (now : ℕ) (target : String) (store : Registry.Registry) (nid : String) (frame : AnnounceFrame)
    (expiry : ℕ)
    → Registry.resolve now target store ≡ none
    → In (nid, (frame, expiry)) store
    → target_matches_nid (codes frame.nid) (codes target) ≡ true
    → (expiry ≤ now) ⊎ (Registry.pick_address frame.addresses ≡ none)
unfolding Registry.resolve_in
resolve-none now target [] nid frame expiry h i on = elim i [ ]
resolve-none now target (_ ∷ store) nid frame expiry h here on =
    elim (Bool-cases (leb expiry now)) [
      | inl late ↦ inl (ground (arith, late))
      | inr live ↦ elim (Option-cases (Registry.pick_address frame.addresses)) [
        | inl e ↦ inr e
        | inr (a, e) ↦ cc (rw (live, on, e) at h)
      ]
    ]
resolve-none now target ((k, (f, t)) ∷ store) nid frame expiry h (there i) on =
    resolve-none now target store nid frame expiry (later_none now target k f t store h) i on
