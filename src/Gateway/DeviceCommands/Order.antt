-- ===== src/Gateway/DeviceCommands/Order.antt =====
-- The order in which a device gets its commands, over all that can happen to its lists.
use resfit.Prelude.{
  ℕ, ◌+◌, ◌≤◌, ◌≡◌, refl, sym, ap, ◌∙◌, subst, Bool, true, false, inl, inr, Option, List, [], ◌∷◌,
  ◌++◌, map, arith, Bool-cases, ◌==◌, cond_true, cond_false, not, ◌||◌, Exec, ok, ub, spent, ◌>>=◌,
}
use resfit.Prelude.Memory.{Bytes}
use resfit.Gateway.State.{AtlasCoapResponse}
use resfit.Gateway.DeviceCommands.{
  AtlasCommandDevice, CommandQueue, push_command, push_front, send_request, mark_command_as_done,
  mark_front, response_command_done, idle_front, answered, unless_empty,
}

abbrev pub numbers : List AtlasCommandDevice → List ℕ
numbers = map (λ (c : AtlasCommandDevice). c.sequence_number)

-- The numbers in the order of arrival: acknowledged, executed, received.
abbrev pub history : List ℕ → (exec_cmds recv_cmds : List AtlasCommandDevice) → List ℕ
history acked exec_cmds recv_cmds = acked ++ (numbers exec_cmds ++ numbers recv_cmds)

-- No command of a list is on its way.
unfoldable pub AllIdle : List AtlasCommandDevice → Type 0
AllIdle [] = Unit
AllIdle (c ∷ cs) = (c.in_progress ≡ false) × AllIdle cs

-- At most one request is waited for, and if there is one it is that of the first command, which is
-- the only one that can be marked.
unfoldable pub Waiting : ℕ → List AtlasCommandDevice → Type 0
unfolding AllIdle
Waiting p [] = p ≡ 0
Waiting p (c ∷ cs) = (p ≤ 1) × (c.in_progress ≡ false → p ≡ 0) × AllIdle cs

AllIdle-Waiting : (cs : List AtlasCommandDevice) → AllIdle cs → Waiting 0 cs
unfolding AllIdle Waiting
AllIdle-Waiting [] h = refl
AllIdle-Waiting (c ∷ cs) (h, hs) = (omega arith, λ e. refl, hs)

-- A new command.
AllIdle-append :
    (cs : List AtlasCommandDevice) (c : AtlasCommandDevice)
    → AllIdle cs
    → c.in_progress ≡ false
    → AllIdle (cs ++ c ∷ [])
unfolding AllIdle
AllIdle-append [] c h new = (new, tt)
AllIdle-append (d ∷ cs) c (h, hs) new = (h, AllIdle-append cs c hs new)

pub Waiting-append :
    (p : ℕ) (cs : List AtlasCommandDevice) (c : AtlasCommandDevice)
    → Waiting p cs
    → c.in_progress ≡ false
    → Waiting p (cs ++ c ∷ [])
unfolding Waiting
Waiting-append p [] c w new = (omega (arith, w), λ e. w, tt)
Waiting-append p (d ∷ cs) c (bound, none_sent, idle) new =
    (bound, none_sent, AllIdle-append cs c idle new)

pub numbers-append :
    (xs ys : List AtlasCommandDevice) → numbers (xs ++ ys) ≡ numbers xs ++ numbers ys
numbers-append [] ys = refl
numbers-append (x ∷ xs) ys = ap (λ ns. x.sequence_number ∷ ns) (numbers-append xs ys)

numbers-moved :
    (es : List AtlasCommandDevice) (c : AtlasCommandDevice) (cs : List AtlasCommandDevice)
    → numbers (es ++ c ∷ []) ++ numbers cs ≡ numbers es ++ numbers (c ∷ cs)
numbers-moved [] c cs = refl
numbers-moved (e ∷ es) c cs = ap (λ ns. e.sequence_number ∷ ns) (numbers-moved es c cs)

-- The commands in the order of their arrival: those that the cloud has acknowledged as done, those
-- that the device has executed, and those that it has still to execute.
pub record Ordered (acked accepted : List ℕ) (q : CommandQueue) : Type 0 where
  pub waiting : Waiting q.pending q.recv_cmds
  pub order : history acked q.exec_cmds q.recv_cmds ≡ accepted

-- What holds of the outcome of code if it has one.
unfoldable pub Each : (CommandQueue → Type 0) → Exec CommandQueue → Type 0
Each P (ok q) = P q
Each P ub = Unit
Each P spent = Unit

Each-bind :
    (P R : CommandQueue → Type 0) (m : Exec CommandQueue) (f : CommandQueue → Exec CommandQueue)
    → Each P m
    → ((q : CommandQueue) → P q → Each R (f q))
    → Each R (m >>= f)
unfolding Each
Each-bind P R (ok q) f h k = k q h
Each-bind P R ub f h k = tt
Each-bind P R spent f h k = tt

Each-any :
    {B : Type 0} (P : CommandQueue → Type 0) (m : Exec B) (f : B → CommandQueue)
    → ((b : B) → P (f b))
    → Each P (m >>= λ b. ok (f b))
unfolding Each
Each-any P (ok b) f h = h b
Each-any P ub f h = tt
Each-any P spent f h = tt

module _ (acked accepted : List ℕ) where
  reordered :
      (q r : CommandQueue) (cs : List AtlasCommandDevice)
      → Ordered acked accepted q
      → q.recv_cmds ≡ cs
      → r.exec_cmds ≡ q.exec_cmds
      → numbers r.recv_cmds ≡ numbers cs
      → Waiting r.pending r.recv_cmds
      → Ordered acked accepted r
  reordered q r cs o e same n w = record {
    waiting = w;
    order =
        ap (λ es. history acked es r.recv_cmds) same
        ∙ ap (λ ns. acked ++ (numbers q.exec_cmds ++ ns)) (n ∙ ap numbers (sym e))
        ∙ o.order;
  }

  send_request-Ordered :
      (sends : Bool) (q : CommandQueue) (c : AtlasCommandDevice) (cs : List AtlasCommandDevice)
      (bytes : Option Bytes)
      → c.in_progress ≡ false
      → q.recv_cmds ≡ c ∷ cs
      → Ordered acked accepted q
      → Ordered acked accepted (send_request sends q c cs bytes)
  unfolding Waiting
  send_request-Ordered false q c cs bytes idle e o = o
  send_request-Ordered true q c cs bytes idle e o =
      let (bound, none_sent, rest) : Waiting q.pending (c ∷ cs) =
        subst (Waiting q.pending) e o.waiting in
      let zero : q.pending ≡ 0 = none_sent idle in
      reordered q _ (c ∷ cs) o e refl refl (omega (arith, zero), λ h. absurd cc, rest)

  push_front-Ordered :
      (sends : Bool) (q : CommandQueue) (cs : List AtlasCommandDevice)
      → q.recv_cmds ≡ cs
      → Ordered acked accepted q
      → Each (Ordered acked accepted) (push_front sends q cs)
  unfolding Each
  push_front-Ordered sends q [] e o = o
  push_front-Ordered sends q (c ∷ cs) e o = elim (Bool-cases (not q.registered || c.in_progress)) [
    | inl h ↦ subst (Each (Ordered acked accepted)) (sym (cond_true _ _ h)) o
    | inr h ↦
        let idle : c.in_progress ≡ false = ground (arith, h) in
        subst (Each (Ordered acked accepted)) (sym (cond_false _ _ h)) (
          Each-any (Ordered acked accepted) _ _
            (λ bytes. send_request-Ordered sends q c cs bytes idle e o))
  ]

  pub push-Ordered :
      (sends : Bool) (q : CommandQueue)
      → Ordered acked accepted q
      → Each (Ordered acked accepted) (push_command sends q)
  unfolding push_command
  push-Ordered sends q o = push_front-Ordered sends q q.recv_cmds refl o

  pub response-Ordered :
      (q : CommandQueue) (cs : List AtlasCommandDevice)
      → Ordered acked accepted q
      → Each (Ordered acked accepted) (response_command_done q cs)
  unfolding Each
  response-Ordered q [] o = tt
  response-Ordered q (c ∷ cs) o = record { waiting = o.waiting; order = o.order }

  -- A state in which no request is waited for and the first command can be marked.
  record Released (q : CommandQueue) (c : AtlasCommandDevice) (cs : List AtlasCommandDevice)
      : Type 0 where
    none_pending : q.pending ≡ 0
    received : q.recv_cmds ≡ c ∷ cs
    idle : AllIdle cs
    in_order : history acked q.exec_cmds (c ∷ cs) ≡ accepted

  Released-Ordered :
      (q r : CommandQueue) (c d : AtlasCommandDevice) (cs : List AtlasCommandDevice)
      → Released q c cs
      → r.pending ≡ q.pending
      → r.exec_cmds ≡ q.exec_cmds
      → r.recv_cmds ≡ d ∷ cs
      → d.sequence_number ≡ c.sequence_number
      → Ordered acked accepted r
  unfolding Waiting
  Released-Ordered q r c d cs o p x e n = record {
    waiting =
        subst (λ l. Waiting r.pending l) (sym e)
          (omega (arith, p, o.none_pending), λ h. p ∙ o.none_pending, o.idle);
    order =
        ap (λ es. history acked es r.recv_cmds) x
        ∙ ap (history acked q.exec_cmds) e
        ∙ ap (λ k. acked ++ (numbers q.exec_cmds ++ k ∷ numbers cs)) n
        ∙ o.in_order;
  }

  unmarked-Ordered :
      (q : CommandQueue) (c : AtlasCommandDevice) (cs : List AtlasCommandDevice) (timeouts : ℕ)
      → Released q c cs
      → Ordered acked accepted
          (record q { recv_cmds = idle_front q.recv_cmds; device_cmd_timeouts = timeouts })
  unmarked-Ordered q c cs timeouts o =
      Released-Ordered q _ c (record c { in_progress = false }) cs o refl refl
        (ap idle_front o.received) refl

  mark-Ordered :
      (marked : Bool) (q : CommandQueue) (c : AtlasCommandDevice) (cs : List AtlasCommandDevice)
      → Released q c cs
      → Each (Ordered acked accepted) (mark_command_as_done marked q)
  unfolding mark_command_as_done Each
  mark-Ordered false q c cs o =
      subst (λ l. Each (Ordered acked accepted) (mark_front false q l)) (sym o.received)
        (Released-Ordered q q c c cs o refl refl o.received refl)
  mark-Ordered true q c cs o =
      subst (λ l. Each (Ordered acked accepted) (mark_front true q l)) (sym o.received)
        (response-Ordered (record q { exec_cmds = q.exec_cmds ++ c ∷ []; recv_cmds = cs })
          (q.exec_cmds ++ c ∷ [])
          (record {
            waiting = subst (λ p. Waiting p cs) (sym o.none_pending) (AllIdle-Waiting cs o.idle);
            order = ap (λ ns. acked ++ ns) (numbers-moved q.exec_cmds c cs) ∙ o.in_order;
          }))

  answered-Ordered :
      (status : AtlasCoapResponse) (marked sends : Bool) (q : CommandQueue) (c : AtlasCommandDevice)
      (cs : List AtlasCommandDevice)
      → Released q c cs
      → Each (Ordered acked accepted) (answered status marked sends q)
  unfolding Each
  answered-Ordered AtlasCoapResponse.ok marked sends q c cs o =
      Each-bind (Ordered acked accepted) (Ordered acked accepted) _ (push_command sends)
        (mark-Ordered marked (record q { device_cmd_timeouts = 0 }) c cs
          (record {
            none_pending = o.none_pending;
            received = o.received;
            idle = o.idle;
            in_order = o.in_order;
          }))
        (push-Ordered sends)
  answered-Ordered AtlasCoapResponse.timeout marked sends q c cs o =
      elim (Bool-cases (q.device_cmd_timeouts == 3)) [
        | inl h ↦
            subst (Each (Ordered acked accepted)) (sym (cond_true _ _ h))
              (unmarked-Ordered q c cs 0 o)
        | inr h ↦
            subst (Each (Ordered acked accepted)) (sym (cond_false _ _ h))
              (push-Ordered sends _ (unmarked-Ordered q c cs _ o))
      ]
  answered-Ordered AtlasCoapResponse.not_found marked sends q c cs o = unmarked-Ordered q c cs 0 o
  answered-Ordered AtlasCoapResponse.not_acceptable marked sends q c cs o =
      unmarked-Ordered q c cs 0 o
  answered-Ordered AtlasCoapResponse.reset marked sends q c cs o = unmarked-Ordered q c cs 0 o
  answered-Ordered AtlasCoapResponse.unknown marked sends q c cs o = unmarked-Ordered q c cs 0 o

  -- The answer to a request that is waited for.
  pub callback-Ordered :
      (status : AtlasCoapResponse) (marked sends : Bool) (q : CommandQueue) (n : ℕ)
      (l : List AtlasCommandDevice)
      → q.recv_cmds ≡ l
      → q.pending ≡ n + 1
      → Ordered acked accepted q
      → Each (Ordered acked accepted) (
          unless_empty l
            (record q { pending = n })
            (answered status marked sends (record q { pending = n })))
  unfolding Waiting
  callback-Ordered status marked sends q n [] e p o =
      let w : q.pending ≡ 0 = subst (Waiting q.pending) e o.waiting in absurd (omega (arith, w, p))
  callback-Ordered status marked sends q n (c ∷ cs) e p o =
      let (bound, none_sent, idle) : Waiting q.pending (c ∷ cs) =
        subst (Waiting q.pending) e o.waiting in
      answered-Ordered status marked sends (record q { pending = n }) c cs
        (record {
          none_pending = omega (arith, bound, p);
          received = e;
          idle = idle;
          in_order = ap (history acked q.exec_cmds) (sym e) ∙ o.order;
        })
