-- ===== src/Scheduler/Sweep.antt =====
-- The first loop of a round of the scheduler: what stays, what `select` is asked for, and what
-- becomes of a deleted descriptor.
use resfit.Prelude.{
  ℕ, ◌≤◌, ◌≡◌, ◌≢◌, inl, inr, refl, ap, true, some, List, [], ◌∷◌, ◌++◌, map, arith, ◌==◌, ltb,
  if◌then◌else◌, Bool-cases, append_assoc,
}
use resfit.State.{SchedCallback, SchedEntry}
use resfit.Scheduler.{entry, add_entry, del_entry, sweep_from, sweep}

-- The entries that are not marked.
unfoldable pub live : List SchedEntry → List SchedEntry
live [] = []
live (e ∷ es) = if e.dirty then live es else e ∷ live es

-- The entries of other descriptors.
unfoldable pub without : ℕ → List SchedEntry → List SchedEntry
without fd [] = []
without fd (e ∷ es) = if e.fd == fd then without fd es else e ∷ without fd es

-- No entry, marked or not, has the descriptor.
abbrev pub Absent : ℕ → List SchedEntry → Type 0
Absent fd [] = Unit {0}
Absent fd (e ∷ es) = (e.fd ≢ fd) × Absent fd es

-- No two entries, marked or not, have the same descriptor.
abbrev pub DistinctFds : List SchedEntry → Type 0
DistinctFds [] = Unit {0}
DistinctFds (e ∷ es) = Absent e.fd es × DistinctFds es

abbrev pub AllBelow : ℕ → List SchedEntry → Type 0
AllBelow n [] = Unit {0}
AllBelow n (e ∷ es) = (e.fd ≤ n) × AllBelow n es

sweep_from-live : (m : ℕ) (es : List SchedEntry) → (sweep_from m es).sched_entry ≡ live es
unfolding sweep_from live
sweep_from-live m [] = refl
sweep_from-live m (e ∷ es) =
    ground (arith, sweep_from-live m es, sweep_from-live (if ltb m e.fd then e.fd else m) es)

sweep_from-readfds :
    (m : ℕ) (es : List SchedEntry) → (sweep_from m es).readfds ≡ map (λ e. e.fd) (live es)
unfolding sweep_from live
sweep_from-readfds m [] = refl
sweep_from-readfds m (e ∷ es) = elim (Bool-cases e.dirty) [
  | inl dirty ↦ rw (dirty) (sweep_from-readfds m es)
  | inr clean ↦
      rw (clean) (ap (λ t. e.fd ∷ t) (sweep_from-readfds (if ltb m e.fd then e.fd else m) es))
]

max_fd-le : (m : ℕ) (es : List SchedEntry) → m ≤ (sweep_from m es).max_fd
unfolding sweep_from
max_fd-le m [] = omega arith
max_fd-le m (e ∷ es) = ground (arith, max_fd-le m es, max_fd-le (if ltb m e.fd then e.fd else m) es)

sweep_from-AllBelow : (m : ℕ) (es : List SchedEntry) → AllBelow (sweep_from m es).max_fd (live es)
unfolding sweep_from live
sweep_from-AllBelow m [] = tt
sweep_from-AllBelow m (e ∷ es) = elim (Bool-cases e.dirty) [
  | inl dirty ↦ rw (dirty) (sweep_from-AllBelow m es)
  | inr clean ↦ rw (clean) (
    ground (arith, max_fd-le (if ltb m e.fd then e.fd else m) es),
    sweep_from-AllBelow (if ltb m e.fd then e.fd else m) es,
  )
]

-- Before `select` the marked entries are gone and the others stay in their order; `select` watches
-- exactly the descriptors of those, and none of them exceeds the `max_fd` that bounds it.
pub sweep_lem :
    (es : List SchedEntry)
    → ((sweep es).sched_entry ≡ live es)
      × ((sweep es).readfds ≡ map (λ e. e.fd) (live es))
      × AllBelow (sweep es).max_fd (live es)
unfolding sweep
sweep_lem es = (sweep_from-live 0 es, sweep_from-readfds 0 es, sweep_from-AllBelow 0 es)

without-Absent : (fd : ℕ) (es : List SchedEntry) → Absent fd es → without fd (live es) ≡ live es
unfolding without live
without-Absent fd [] h = refl
without-Absent fd (e ∷ es) h = ground (arith, without-Absent fd es)

pub live-del_entry :
    (fd : ℕ) (es : List SchedEntry) → DistinctFds es → live (del_entry fd es) ≡ without fd (live es)
unfolding live without del_entry
live-del_entry fd [] h = refl
live-del_entry fd (e ∷ es) h = ground (arith, without-Absent e.fd es h.0, live-del_entry fd es h.1)

-- Where no two entries have the same descriptor, a deletion followed by the sweep of the next round
-- leaves exactly the unmarked entries of the other descriptors, in their order.
pub sweep-del_entry :
    (fd : ℕ) (es : List SchedEntry)
    → DistinctFds es
    → (sweep (del_entry fd es)).sched_entry ≡ without fd (live es)
unfolding sweep
sweep-del_entry fd es h = rw (sweep_from-live 0 (del_entry fd es)) (live-del_entry fd es h)

live-append : (es fs : List SchedEntry) → live (es ++ fs) ≡ live es ++ live fs
unfolding live
live-append [] fs = refl
live-append (e ∷ es) fs = ground (arith, live-append es fs)

del_entry_past :
    (fd : ℕ) (pre es : List SchedEntry)
    → Absent fd pre
    → del_entry fd (pre ++ es) ≡ pre ++ del_entry fd es
unfolding del_entry
del_entry_past fd [] es h = refl
del_entry_past fd (e ∷ pre) es h = ground (arith, del_entry_past fd pre es h.1)

-- The first entry of the descriptor is marked already, so marking it changes nothing that is live.
live-del_entry_marked :
    (fd : ℕ) (e : SchedEntry) (es : List SchedEntry)
    → e.fd ≡ fd
    → e.dirty ≡ true
    → live (del_entry fd (e ∷ es)) ≡ live es
unfolding live del_entry
live-del_entry_marked fd e es same dirty = ground arith

-- A descriptor that was deleted and handed out again within one round is not deleted the second
-- time: the mark goes to the old entry, so the scheduler goes on watching the descriptor.
pub del_entry-reused :
    (fd : ℕ) (e : SchedEntry) (cb : SchedCallback) (pre post : List SchedEntry)
    → Absent fd pre
    → e.fd ≡ fd
    → e.dirty ≡ true
    → (sweep (del_entry fd (add_entry (some fd) (some cb) (pre ++ (e ∷ post))))).sched_entry
      ≡ live pre ++ (live post ++ (entry fd cb ∷ []))
unfolding sweep add_entry
del_entry-reused fd e cb pre post out same dirty =
    rw
      (
        append_assoc,
        sweep_from-live 0 (del_entry fd (pre ++ (e ∷ (post ++ (entry fd cb ∷ []))))),
        del_entry_past fd pre (e ∷ (post ++ (entry fd cb ∷ []))) out,
        live-append pre (del_entry fd (e ∷ (post ++ (entry fd cb ∷ [])))),
        live-del_entry_marked fd e (post ++ (entry fd cb ∷ [])) same dirty,
        live-append post (entry fd cb ∷ []),
      )
      (unfold live in refl)
