-- ===== src/Scheduler/Dispatch.antt =====
-- The loop behind `select`: it ends, it calls each ready descriptor once at most, and only entries
-- that no callback has deleted, and it leaves none out.
use resfit.Prelude.{
  ℕ, zero, suc, ◌+◌, ◌*◌, ◌≤◌, ◌<◌, ◌≡◌, ◌≢◌, inl, inr, refl, sym, ap, true, false, ◌==◌, ==_iff,
  Option, not, ◌&&◌, none, some, List, [], ◌∷◌, arith, length, Bool-cases, Option-cases, Exec, ok,
  ◌∙◌,
}
use resfit.State.{SchedCallback, SchedEntry}
use resfit.Scheduler.Sweep.{DistinctFds}
use resfit.Scheduler.{fd_isset, fd_clr, nth, dispatch}
use resfit.Scheduler.Ready.{
  nth-none, nth-some, fd_clr-lt, fd_isset-fd_clr, mul_step, Ready, Listed, Called, AllReady,
  fd_isset-Ready, Ready-fd_isset, fd_isset-other, nth-Listed, Listed-nth, AllReady-cleared, Keeps,
  Keeps-trans,
}

module _ {W : Type 0} (entries : W → List SchedEntry)
    (callback : SchedCallback → ℕ → W → Exec W) where
  -- The rounds of the loop: behind the last entry, at an entry that is passed over, and at one that
  -- is called.
  dispatch_end :
      (fuel n : ℕ) (ready : List ℕ) (w : W)
      → nth (entries w) n ≡ none
      → dispatch entries callback (suc fuel) n ready w ≡ ok w
  unfolding dispatch
  dispatch_end fuel n ready w at = rw (dispatch, at)

  dispatch_skip :
      (fuel n : ℕ) (ready : List ℕ) (w : W) (e : SchedEntry)
      → nth (entries w) n ≡ some e
      → (not e.dirty && fd_isset e.fd ready) ≡ false
      → dispatch entries callback (suc fuel) n ready w
        ≡ dispatch entries callback fuel (suc n) ready w
  unfolding dispatch
  dispatch_skip fuel n ready w e at no_call = rw (dispatch, at) (ground arith)

  dispatch_call :
      (fuel n : ℕ) (ready : List ℕ) (w w' : W) (e : SchedEntry)
      → nth (entries w) n ≡ some e
      → (not e.dirty && fd_isset e.fd ready) ≡ true
      → callback e.callback e.fd w ≡ ok w'
      → dispatch entries callback (suc fuel) n ready w
        ≡ dispatch entries callback fuel (suc n) (fd_clr e.fd ready) w'
  unfolding dispatch
  dispatch_call fuel n ready w w' e at call ran = rw (dispatch, at) (ground arith)

module _ {W : Type 0} (entries : W → List SchedEntry) (callback : SchedCallback → ℕ → W → Exec W)
    (Holds : W → Type 0) (growth : ℕ) where
  -- What is asked of each callback, where it is called: in a state in which `Holds`, for a descriptor
  -- that is ready, by an entry that is not marked. It ends in such a state, and has added at most
  -- `growth` entries behind the others.
  abbrev pub Behaves : List ℕ → Type 0
  Behaves ready =
      (w : W) (n : ℕ) (e : SchedEntry)
      → Holds w
      → nth (entries w) n ≡ some e
      → e.dirty ≡ false
      → Ready e.fd ready
      → (w' : W) × (callback e.callback e.fd w ≡ ok w')
        × Holds w'
        × (length (entries w') ≤ length (entries w) + growth)
        × Keeps (entries w) (entries w')

  -- The callbacks of the entries lead from one state to the other, and each entry is in the list and
  -- not marked when it is called.
  unfoldable pub Calls : W → List SchedEntry → W → Type 0
  Calls w [] w' = w ≡ w'
  Calls w (e ∷ es) w' =
      (v : W) × Listed e (entries w)
      × (e.dirty ≡ false)
      × (callback e.callback e.fd w ≡ ok v)
      × Calls v es w'

  -- From the position on, no entry that is ready and not marked at the end was left out.
  abbrev Complete : ℕ → List ℕ → List SchedEntry → W → Type 0
  Complete n ready es w =
      (m : ℕ) (d : SchedEntry)
      → n ≤ m
      → nth (entries w) m ≡ some d
      → d.dirty ≡ false
      → fd_isset d.fd ready ≡ true
      → Called d.fd es

  abbrev Served : ℕ → ℕ → List ℕ → W → Type 0
  Served fuel n ready w =
      (w' : W) × (es : List SchedEntry) × (dispatch entries callback fuel n ready w ≡ ok w')
      × Calls w es w'
      × AllReady ready es
      × DistinctFds es
      × Complete n ready es w'
      × Keeps (entries w) (entries w')

  Complete-call :
      (n : ℕ) (ready : List ℕ) (e : SchedEntry) (es : List SchedEntry) (w v : W)
      → nth (entries w) n ≡ some e
      → Keeps (entries w) (entries v)
      → Complete (suc n) (fd_clr e.fd ready) es v
      → Complete n ready (e ∷ es) v
  unfolding Called
  Complete-call n ready e es w v at keeps rest m d le there clean set =
      elim (Bool-cases (e.fd == d.fd)) [
        | inl same ↦ inl ((==_iff e.fd d.fd).0 same)
        | inr other ↦
            let apart : e.fd ≢ d.fd = λ same. absurd (cc (other, (==_iff e.fd d.fd).1 same)) in
            let later : n < m = elim (Bool-cases (m == n)) [
              | inl here ↦
                  let (e', at', same, q) = keeps n e at in
                  absurd (
                    apart (
                      sym same
                      ∙ ap fd_of
                          (sym at' ∙ ap (nth (entries v)) (sym ((==_iff m n).0 here)) ∙ there)))
              | inr differ ↦ ground (arith, differ, le)
            ] in
            inr (
              rest m d (omega (arith, later)) there clean
                (fd_isset-other e.fd d.fd ready apart set))
      ]
    where
      fd_of : Option SchedEntry → ℕ
      fd_of none = 0
      fd_of (some e) = e.fd

  Complete-skip :
      (n : ℕ) (ready : List ℕ) (e : SchedEntry) (es : List SchedEntry) (w v : W)
      → nth (entries w) n ≡ some e
      → (not e.dirty && fd_isset e.fd ready) ≡ false
      → Keeps (entries w) (entries v)
      → Complete (suc n) ready es v
      → Complete n ready es v
  Complete-skip n ready e es w v at skip keeps rest m d le there clean set =
      elim (Bool-cases (m == n)) [
        | inl here ↦
            let (e', at', same, marked) = keeps n e at in
            let alike : e' ≡ d =
              ap (or_entry e')
                (sym at' ∙ ap (nth (entries v)) (sym ((==_iff m n).0 here)) ∙ there) in
            let unmarked : e.dirty ≡ false =
              marked (ap (λ (x : SchedEntry). x.dirty) alike ∙ clean) in
            let ready_too : fd_isset e.fd ready ≡ true =
              ap (λ g. fd_isset g ready) (sym same ∙ ap (λ (x : SchedEntry). x.fd) alike) ∙ set in
            absurd (ground (arith, skip, unmarked, ready_too))
        | inr differ ↦ rest m d (ground (arith, differ, le)) there clean set
      ]
    where
      or_entry : SchedEntry → Option SchedEntry → SchedEntry
      or_entry x none = x
      or_entry x (some e) = e

  served :
      (fuel n : ℕ) (ready : List ℕ) (w : W)
      → Behaves ready
      → Holds w
      → length (entries w) + growth * length ready < fuel + n
      → 0 < fuel
      → Served fuel n ready w
  unfolding Calls AllReady
  served zero n ready w h hw enough pos = elim pos [ ]
  served (suc fuel) n ready w h hw enough pos = elim (Option-cases (nth (entries w) n)) [
    | inl end ↦ (
      w,
      [],
      dispatch_end entries callback fuel n ready w end,
      refl,
      tt,
      tt,
      λ m d le there clean set.
          absurd (omega (arith, nth-none (entries w) n end, nth-some (entries w) m there)),
      λ m e at. (e, at, refl, λ c. c),
    )
    | inr (e, at) ↦ elim (Bool-cases (not e.dirty && fd_isset e.fd ready)) [
      | inl call ↦
          let set : fd_isset e.fd ready ≡ true = ground (arith, call) in
          let clean : e.dirty ≡ false = ground (arith, call) in
          let (w', ran, holds, grown, keeps) =
            h w n e hw at clean (fd_isset-Ready e.fd ready set) in
          let fewer = fd_clr-lt e.fd ready set in
          let (v, es, ends, calls, all, distinct, complete, kept) =
            served fuel (suc n) (fd_clr e.fd ready) w'
              (λ u m d hu here unmarked r. h u m d hu here unmarked (
                fd_isset-Ready d.fd ready
                  (fd_isset-fd_clr e.fd d.fd ready (Ready-fd_isset d.fd (fd_clr e.fd ready) r))))
              holds (omega (arith, mul_step growth _ _ fewer))
              (omega (arith, nth-some (entries w) n at)) in
          let (all', absent) = AllReady-cleared e.fd ready es all in
          let both : Keeps (entries w) (entries v) =
            Keeps-trans (entries w) (entries w') (entries v) keeps kept in
          (
            v,
            e ∷ es,
            dispatch_call entries callback fuel n ready w w' e at call ran ∙ ends,
            (w', nth-Listed (entries w) n e at, clean, ran, calls),
            (fd_isset-Ready e.fd ready set, all'),
            (absent, distinct),
            Complete-call n ready e es w v at both complete,
            both,
          )
      | inr skip ↦
          let (v, es, ends, calls, all, distinct, complete, kept) =
            served fuel (suc n) ready w h hw (omega arith)
              (omega (arith, nth-some (entries w) n at)) in
          (
            v,
            es,
            dispatch_skip entries callback fuel n ready w e at skip ∙ ends,
            calls,
            all,
            distinct,
            Complete-skip n ready e es w v at skip kept complete,
            kept,
          )
    ]
  ]

  -- The loop behind `select` over a list of entries, with a set of ready descriptors, in states in
  -- which each callback that can be called ends, adds at most `growth` entries behind the others, and
  -- otherwise only marks entries. With fuel above the number of entries and `growth` entries for each
  -- ready descriptor, the loop ends. It calls the callbacks of some entries one after the other, each
  -- in the list and not marked when it is called; their descriptors are ready, and no two are the
  -- same. And each entry that is not marked at the end and whose descriptor is ready has had its
  -- descriptor called.
  pub dispatch_ends :
      (fuel : ℕ) (ready : List ℕ) (w : W)
      → Behaves ready
      → Holds w
      → length (entries w) + growth * length ready < fuel
      → (w' : W) × (es : List SchedEntry) × (dispatch entries callback fuel 0 ready w ≡ ok w')
        × Calls w es w'
        × AllReady ready es
        × DistinctFds es
        × ((d : SchedEntry)
            → Listed d (entries w')
            → d.dirty ≡ false
            → Ready d.fd ready
            → Called d.fd es)
  dispatch_ends fuel ready w h hw enough =
      let (w', es, ends, calls, all, distinct, complete, kept) =
        served fuel 0 ready w h hw (omega arith) (omega arith) in
      (
        w',
        es,
        ends,
        calls,
        all,
        distinct,
        λ d listed clean set.
            let (m, at) = Listed-nth (entries w') d listed in
            complete m d (omega arith) at clean (Ready-fd_isset d.fd ready set),
      )
