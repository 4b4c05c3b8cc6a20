-- ===== src/Scheduler/Ready.antt =====
-- The set of ready descriptors, the entries that are called for it, and what a callback may do to the
-- list of entries.
use resfit.Prelude.{
  ℕ, zero, suc, ◌+◌, ◌*◌, ◌≤◌, ◌<◌, ◌≡◌, ◌≢◌, ◌⊎◌, inl, inr, refl, ap, true, false, ◌==◌, ==_iff,
  Option, none, some, List, [], ◌∷◌, arith, length, Bool-cases, ◌∙◌, ◌++◌, Bool, if◌then◌else◌,
}
use resfit.State.{SchedEntry}
use resfit.Scheduler.Sweep.{Absent}
use resfit.Scheduler.{fd_isset, fd_clr, nth, del_entry}

pub nth-none : (es : List SchedEntry) (n : ℕ) → nth es n ≡ none → length es ≤ n
unfolding nth
nth-none [] n h = omega arith
nth-none (e ∷ es) zero h = cc
nth-none (e ∷ es) (suc n) h = omega (arith, nth-none es n h)

pub nth-some : (es : List SchedEntry) (n : ℕ) {e : SchedEntry} → nth es n ≡ some e → n < length es
unfolding nth
nth-some [] n h = cc
nth-some (e ∷ es) zero h = omega arith
nth-some (e ∷ es) (suc n) h = omega (arith, nth-some es n h)

fd_clr-le : (fd : ℕ) (xs : List ℕ) → length (fd_clr fd xs) ≤ length xs
unfolding fd_clr
fd_clr-le fd [] = omega arith
fd_clr-le fd (x ∷ xs) = ground (arith, fd_clr-le fd xs)

-- Clearing a descriptor that is set makes the set smaller.
pub fd_clr-lt : (fd : ℕ) (xs : List ℕ) → fd_isset fd xs ≡ true → length (fd_clr fd xs) < length xs
unfolding fd_clr fd_isset
fd_clr-lt fd [] h = cc
fd_clr-lt fd (x ∷ xs) h = ground (arith, fd_clr-lt fd xs, fd_clr-le fd xs)

-- What is set after a clear was set before.
pub fd_isset-fd_clr :
    (fd g : ℕ) (xs : List ℕ) → fd_isset g (fd_clr fd xs) ≡ true → fd_isset g xs ≡ true
unfolding fd_clr fd_isset
fd_isset-fd_clr fd g [] h = h
fd_isset-fd_clr fd g (x ∷ xs) h = ground (arith, fd_isset-fd_clr fd g xs)

-- The descriptor is one of the set.
unfoldable pub Ready : ℕ → List ℕ → Type 0
Ready fd [] = ⊥
Ready fd (x ∷ xs) = (x ≡ fd) ⊎ Ready fd xs

-- The entry is one of the list.
unfoldable pub Listed : SchedEntry → List SchedEntry → Type 0
Listed e [] = ⊥
Listed e (x ∷ xs) = (x ≡ e) ⊎ Listed e xs

-- The descriptor is that of an entry of the list.
unfoldable pub Called : ℕ → List SchedEntry → Type 0
Called fd [] = ⊥
Called fd (e ∷ es) = (e.fd ≡ fd) ⊎ Called fd es

-- All entries have descriptors of the set.
unfoldable pub AllReady : List ℕ → List SchedEntry → Type 0
unfolding Ready
AllReady ready [] = Unit {0}
AllReady ready (e ∷ es) = Ready e.fd ready × AllReady ready es

pub fd_isset-Ready : (fd : ℕ) (xs : List ℕ) → fd_isset fd xs ≡ true → Ready fd xs
unfolding fd_isset Ready
fd_isset-Ready fd [] h = absurd cc
fd_isset-Ready fd (x ∷ xs) h = elim (Bool-cases (x == fd)) [
  | inl same ↦ inl ((==_iff x fd).0 same)
  | inr other ↦ inr (fd_isset-Ready fd xs (ground (arith, h, other)))
]

pub Ready-fd_isset : (fd : ℕ) (xs : List ℕ) → Ready fd xs → fd_isset fd xs ≡ true
unfolding fd_isset Ready
Ready-fd_isset fd [] h = elim h [ ]
Ready-fd_isset fd (x ∷ xs) (inl e) = ground (arith, e)
Ready-fd_isset fd (x ∷ xs) (inr h) = ground (arith, Ready-fd_isset fd xs h)

fd_isset-cleared : (fd : ℕ) (xs : List ℕ) → fd_isset fd (fd_clr fd xs) ≡ false
unfolding fd_isset fd_clr
fd_isset-cleared fd [] = refl
fd_isset-cleared fd (x ∷ xs) = ground (arith, fd_isset-cleared fd xs)

-- A clear takes out no other descriptor.
pub fd_isset-other :
    (fd g : ℕ) (xs : List ℕ) → fd ≢ g → fd_isset g xs ≡ true → fd_isset g (fd_clr fd xs) ≡ true
unfolding fd_isset fd_clr
fd_isset-other fd g [] ne h = h
fd_isset-other fd g (x ∷ xs) ne h = ground (arith, fd_isset-other fd g xs ne)

pub nth-Listed : (es : List SchedEntry) (n : ℕ) (e : SchedEntry) → nth es n ≡ some e → Listed e es
unfolding nth Listed
nth-Listed [] n e h = absurd cc
nth-Listed (x ∷ es) zero e h = inl cc
nth-Listed (x ∷ es) (suc n) e h = inr (nth-Listed es n e h)

pub Listed-nth :
    (es : List SchedEntry) (e : SchedEntry) → Listed e es → (n : ℕ) × (nth es n ≡ some e)
unfolding nth Listed
Listed-nth [] e h = elim h [ ]
Listed-nth (x ∷ es) e (inl same) = (0, ap some same)
Listed-nth (x ∷ es) e (inr h) = let (n, at) = Listed-nth es e h in (suc n, at)

pub AllReady-cleared :
    (fd : ℕ) (ready : List ℕ) (es : List SchedEntry)
    → AllReady (fd_clr fd ready) es
    → AllReady ready es × Absent fd es
unfolding AllReady
AllReady-cleared fd ready [] h = (tt, tt)
AllReady-cleared fd ready (e ∷ es) (set, h) =
    let (all, none_left) = AllReady-cleared fd ready es h in
    let still : fd_isset e.fd (fd_clr fd ready) ≡ true =
      Ready-fd_isset e.fd (fd_clr fd ready) set in
    (
      (fd_isset-Ready e.fd ready (fd_isset-fd_clr fd e.fd ready still), all),
      (
        (λ same.
            absurd
              (cc (still, ap (λ g. fd_isset g (fd_clr fd ready)) same, fd_isset-cleared fd ready))),
        none_left,
      ),
    )

-- A callback may add entries behind the others and mark entries, and does nothing else to them.
abbrev pub Keeps : List SchedEntry → List SchedEntry → Type 0
Keeps es es' =
    (m : ℕ) (e : SchedEntry)
    → nth es m ≡ some e
    → (e' : SchedEntry) × (nth es' m ≡ some e')
      × (e'.fd ≡ e.fd)
      × (e'.dirty ≡ false → e.dirty ≡ false)

pub Keeps-trans : (a b c : List SchedEntry) → Keeps a b → Keeps b c → Keeps a c
Keeps-trans a b c h k m e at =
    let (e', at', same, clean) = h m e at in
    let (f, there, same', clean') = k m e' at' in (f, there, same' ∙ same, λ d. clean (clean' d))

pub mul_step : (g a b : ℕ) → a < b → g * a + g ≤ g * b
mul_step g a b h = grind arith

-- Adding entries behind the others, as `atlas_sched_add_entry` does.
pub Keeps-append : (es l : List SchedEntry) → Keeps es (es ++ l)
unfolding nth
Keeps-append [] l m e at = absurd cc
Keeps-append (x ∷ es) l zero e at = (e, at, refl, λ c. c)
Keeps-append (x ∷ es) l (suc m) e at = Keeps-append es l m e at

Keeps-when :
    (b : Bool) (x : SchedEntry) (es es' : List SchedEntry)
    → Keeps es es'
    → Keeps (x ∷ es) (if b then record x { dirty = true } ∷ es else x ∷ es')
unfolding nth
Keeps-when true x es es' h zero e at =
    (record x { dirty = true }, refl, ap (fd_or x) at, λ c. absurd cc)
  where
    fd_or : SchedEntry → Option SchedEntry → ℕ
    fd_or x none = x.fd
    fd_or x (some e) = e.fd
Keeps-when true x es es' h (suc m) e at = (e, at, refl, λ c. c)
Keeps-when false x es es' h zero e at = (e, at, refl, λ c. c)
Keeps-when false x es es' h (suc m) e at = h m e at

-- Marking an entry, as `atlas_sched_del_entry` does.
pub Keeps-del_entry : (fd : ℕ) (es : List SchedEntry) → Keeps es (del_entry fd es)
unfolding del_entry nth
Keeps-del_entry fd [] m e at = absurd cc
Keeps-del_entry fd (x ∷ es) m e at =
    Keeps-when (x.fd == fd) x es (del_entry fd es) (Keeps-del_entry fd es) m e at
