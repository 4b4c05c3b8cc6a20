-- ===== src/Gateway/DeviceCommands/Runs.antt =====
-- What holds of the commands of a device in every state that can be reached.
use resfit.Prelude.{
  ℕ, ◌+◌, ◌≡◌, refl, sym, ap, ◌∙◌, subst, Bool, true, false, not, ◌||◌, List, [], ◌∷◌, ◌++◌,
  append_assoc, if◌then◌else◌, ◌==◌, Exec, ok,
}
use resfit.Gateway.State.{AtlasCoapResponse}
use resfit.Gateway.DeviceCommands.{
  AtlasCommandDevice, CommandQueue, push_command, device_cmd_resp_callback, add_recv_device_command,
  handle_command_done_ack, ack_front, response_command_done,
}
use resfit.Gateway.DeviceCommands.Order.{
  numbers, numbers-append, history, Waiting, Waiting-append, Ordered, Each, push-Ordered,
  callback-Ordered, response-Ordered,
}

-- The lists of a device, with the numbers of the commands that have arrived and of those that the
-- cloud has acknowledged as done.
pub record Run : Type 0 where
  pub queue : CommandQueue
  pub acked : List ℕ
  pub accepted : List ℕ

abbrev taken : (number : ℕ) → (deleted : Bool) → List AtlasCommandDevice → List ℕ → List ℕ
taken number deleted [] acked = acked
taken number deleted (c ∷ cs) acked =
    if not (c.sequence_number == number) || not deleted
    then acked
    else acked ++ c.sequence_number ∷ []

-- What can happen next: a command arrives, the device registers or expires, the first command is
-- pushed, a request is answered, and the cloud acknowledges a command as done.
pub data Step (r : Run) : Run → Type 0 where
  accepts :
      (c : AtlasCommandDevice)
      → c.in_progress ≡ false
      → Step r (record r {
        queue = add_recv_device_command c r.queue;
        accepted = r.accepted ++ c.sequence_number ∷ [];
      })
  registers : (on : Bool) → Step r (record r { queue = record r.queue { registered = on } })
  pushes :
      (sends : Bool) (q : CommandQueue)
      → push_command sends r.queue ≡ ok q
      → Step r (record r { queue = q })
  answers :
      (status : AtlasCoapResponse) (marked sends : Bool) (n : ℕ) (q : CommandQueue)
      → r.queue.pending ≡ n + 1
      → device_cmd_resp_callback status marked sends (record r.queue { pending = n }) ≡ ok q
      → Step r (record r { queue = q })
  acknowledges :
      (number : ℕ) (deleted : Bool) (q : CommandQueue)
      → handle_command_done_ack number deleted r.queue ≡ ok q
      → Step r (record r { queue = q; acked = taken number deleted r.queue.exec_cmds r.acked })

pub data Reach (r : Run) : Run → Type 0 where
  here : Reach r r
  then_step : (s t : Run) → Reach r s → Step s t → Reach r t

-- The lists keep the order of the commands, and at most one request is waited for.
abbrev pub InOrder : Run → Type 0
InOrder r = Ordered r.acked r.accepted r.queue

outcome :
    (P : CommandQueue → Type 0) (m : Exec CommandQueue) (q : CommandQueue)
    → m ≡ ok q
    → Each P m
    → P q
unfolding Each
outcome P m q e h = subst (Each P) e h

ack_when :
    (keeps : Bool) (acked accepted : List ℕ) (q : CommandQueue) (c : AtlasCommandDevice)
    (cs : List AtlasCommandDevice)
    → q.exec_cmds ≡ c ∷ cs
    → Ordered acked accepted q
    → Each
        (Ordered (if keeps then acked else acked ++ c.sequence_number ∷ []) accepted)
        (if keeps then ok q else response_command_done (record q { exec_cmds = cs }) cs)
unfolding Each
ack_when true acked accepted q c cs e o = o
ack_when false acked accepted q c cs e o =
    response-Ordered (acked ++ c.sequence_number ∷ []) accepted (record q { exec_cmds = cs }) cs
      (record {
        waiting = o.waiting;
        order =
            append_assoc acked (c.sequence_number ∷ []) (numbers cs ++ numbers q.recv_cmds)
            ∙ ap (λ es. history acked es q.recv_cmds) (sym e)
            ∙ o.order;
      })

ack-Ordered :
    (number : ℕ) (deleted : Bool) (acked accepted : List ℕ) (q : CommandQueue)
    (es : List AtlasCommandDevice)
    → q.exec_cmds ≡ es
    → Ordered acked accepted q
    → Each (Ordered (taken number deleted es acked) accepted) (ack_front number deleted q es)
unfolding Each
ack-Ordered number deleted acked accepted q [] e o = o
ack-Ordered number deleted acked accepted q (c ∷ cs) e o =
    ack_when (not (c.sequence_number == number) || not deleted) acked accepted q c cs e o

Step-InOrder : (r s : Run) → InOrder r → Step r s → InOrder s
unfolding handle_command_done_ack device_cmd_resp_callback
Step-InOrder r s o (accepts c new) = record {
  waiting = Waiting-append r.queue.pending r.queue.recv_cmds c o.waiting new;
  order =
      let n : List ℕ = c.sequence_number ∷ [] in
      let es : List ℕ = numbers r.queue.exec_cmds in
      let rs : List ℕ = numbers r.queue.recv_cmds in
      ap (λ l. r.acked ++ (es ++ l)) (numbers-append r.queue.recv_cmds (c ∷ []))
      ∙ ap (λ l. r.acked ++ l) (sym (append_assoc es rs n))
      ∙ sym (append_assoc r.acked (es ++ rs) n)
      ∙ ap (λ l. l ++ n) o.order;
}
Step-InOrder r s o (registers on) = record { waiting = o.waiting; order = o.order }
Step-InOrder r _ o (pushes sends q e) =
    outcome _ _ q e (push-Ordered r.acked r.accepted sends r.queue o)
Step-InOrder r _ o (answers status marked sends n q p e) =
    outcome _ _ q e
      (callback-Ordered r.acked r.accepted status marked sends r.queue n r.queue.recv_cmds refl p o)
Step-InOrder r _ o (acknowledges number deleted q e) =
    outcome _ _ q e (ack-Ordered number deleted r.acked r.accepted r.queue r.queue.exec_cmds refl o)

-- A device without commands.
abbrev pub no_commands : Bool → CommandQueue
no_commands on = record {
  registered = on;
  recv_cmds = [];
  exec_cmds = [];
  device_cmd_timeouts = 0;
  pending = 0;
  sent = [];
  done = [];
}

abbrev pub new_run : Bool → Run
new_run on = record { queue = no_commands on; acked = []; accepted = [] }

-- From a device without commands, whatever arrives, registers, expires, is pushed, is answered or is
-- acknowledged, in any order, in every state that is reached without undefined behaviour: the numbers that the cloud has acknowledged, then those of the executed
-- and then of the received commands are the numbers of all commands in the order of their arrival,
-- so that none is lost, doubled or overtaken; at most one request waits for an answer, and then it is
-- that of the first command.
pub Reach-InOrder : (on : Bool) (r : Run) → Reach (new_run on) r → InOrder r
unfolding Waiting
Reach-InOrder on r here = record { waiting = refl; order = refl }
Reach-InOrder on _ (then_step s t reach step) = Step-InOrder s t (Reach-InOrder on s reach) step
