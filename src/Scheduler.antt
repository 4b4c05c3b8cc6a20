-- ===== src/Scheduler.antt =====
-- atlas_client/src/scheduler/atlas_scheduler.c: the list of descriptors that the main loop watches.
-- A deletion only marks an entry; the next round of the loop takes the marked entries out before it
-- calls `select`. `round` is one round of the loop, which has no end.
pub mod Sweep
pub mod Ready
pub mod Dispatch
use resfit.Prelude.{
  ℕ, zero, suc, ◌+◌, Bool, true, false, not, ◌&&◌, Option, none, some, List, [], ◌∷◌, ◌++◌, ◌==◌,
  ltb, if◌then◌else◌, Exec, ok, spent, ◌>>=◌,
}
use resfit.State.{SchedCallback, SchedEntry}

abbrev pub entry : ℕ → SchedCallback → SchedEntry
entry fd cb = record { fd = fd; callback = cb; dirty = false }

-- `atlas_sched_add_entry`; a negative descriptor or no callback leaves the list alone
unfoldable pub add_entry :
    (fd : Option ℕ) → (cb : Option SchedCallback) → List SchedEntry → List SchedEntry
add_entry none cb es = es
add_entry (some fd) none es = es
add_entry (some fd) (some cb) es = es ++ (entry fd cb ∷ [])

-- `atlas_sched_del_entry`: marks the first entry with the descriptor
unfoldable pub del_entry : (fd : ℕ) → List SchedEntry → List SchedEntry
del_entry fd [] = []
del_entry fd (e ∷ es) = if e.fd == fd then record e { dirty = true } ∷ es else e ∷ del_entry fd es

-- What the first loop of a round computes.
pub record Swept : Type 0 where
  pub sched_entry : List SchedEntry
  pub max_fd : ℕ
  pub readfds : List ℕ

-- The loop over the entries before `select`, from an entry on: marked entries are unlinked and
-- freed, of the others `max_fd` and `readfds` are computed.
pub sweep_from : (max_fd : ℕ) → List SchedEntry → Swept
sweep_from max_fd [] = record { sched_entry = []; max_fd = max_fd; readfds = [] }
sweep_from max_fd (e ∷ es) =
    let rest =
      sweep_from (if e.dirty then max_fd else if ltb max_fd e.fd then e.fd else max_fd) es in
    if e.dirty
    then rest
    else record rest { sched_entry = e ∷ rest.sched_entry; readfds = e.fd ∷ rest.readfds }

pub sweep : List SchedEntry → Swept
unfolding sweep_from
sweep es = sweep_from 0 es

-- `FD_ISSET` and `FD_CLR`
unfoldable pub fd_isset : ℕ → List ℕ → Bool
fd_isset fd [] = false
fd_isset fd (x ∷ xs) = if x == fd then true else fd_isset fd xs

unfoldable pub fd_clr : ℕ → List ℕ → List ℕ
fd_clr fd [] = []
fd_clr fd (x ∷ xs) = let rest = fd_clr fd xs in if x == fd then rest else x ∷ rest

-- `ent->next`, `n` times from `sched_entry`
pub nth : List SchedEntry → ℕ → Option SchedEntry
nth [] n = none
nth (e ∷ es) zero = some e
nth (e ∷ es) (suc n) = nth es n

-- The loop behind `select`, over the state of the whole process: a callback may add entries behind
-- the others and mark entries, and unlinks none, so the current entry is known by its position.
module _ {W : Type 0} (entries : W → List SchedEntry)
    (callback : SchedCallback → ℕ → W → Exec W) where
  pub dispatch : (fuel : ℕ) → (position : ℕ) → (readfds : List ℕ) → W → Exec W
  unfolding fd_isset fd_clr nth
  dispatch zero n readfds w = spent
  dispatch (suc fuel) n readfds w = elim (nth (entries w) n) [
    | none ↦ ok w
    | some e ↦ elim (not e.dirty && fd_isset e.fd readfds) [
      | true ↦ callback e.callback e.fd w >>= dispatch fuel (suc n) (fd_clr e.fd readfds)
      | false ↦ dispatch fuel (suc n) readfds w
    ]
  ]

  -- A round: `ready` is what `select` makes of the descriptors, none where it fails.
  pub round :
      (set_entries : List SchedEntry → W → W)
      → (fuel : ℕ) → (ready : List ℕ → Option (List ℕ)) → W
      → Exec W
  unfolding sweep dispatch
  round set_entries fuel ready w =
      let s = sweep (entries w) in
      let w' = set_entries s.sched_entry w in
      elim (ready s.readfds) [ none ↦ ok w' | some readfds ↦ dispatch fuel 0 readfds w' ]
