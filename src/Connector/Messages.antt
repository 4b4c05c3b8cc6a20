-- ===== src/Connector/Messages.antt =====
-- A message of the data plane is carried out command by command.
use resfit.Prelude.{
  ℕ, ◌≡◌, refl, ap, ◌∙◌, true, false, some, List, [], ◌∷◌, length, Exec, ok, ◌>>=◌, ◌++◌, ub, spent,
}
use resfit.Command.{new}
use resfit.Command.Frame.{Frame, AllFrames, encode}
use resfit.Command.Walk.{views, run_body, for_each_cmd-views}
use resfit.Command.Accept.{set_raw-encode}
use resfit.State.{Client}
use resfit.Connector.{data_plane_cmd, data_plane_body, data_plane_read, read_cb}

-- The commands of the frames, one after the other.
unfoldable pub carry_out : List Frame → Client → Exec Client
unfolding data_plane_cmd
carry_out [] c = ok c
carry_out (f ∷ fs) c =
    data_plane_cmd (record { type = f.type; length = length f.value; value = f.value ++ encode fs })
      c
    >>= carry_out fs

run_body-carry_out :
    (fs : List Frame) (c : Client) → run_body data_plane_body (views fs) c ≡ carry_out fs c
unfolding run_body carry_out data_plane_body
run_body-carry_out [] c = refl
run_body-carry_out (f ∷ fs) c =
    step
      (data_plane_cmd
        (record { type = f.type; length = length f.value; value = f.value ++ encode fs }) c)
      (run_body-carry_out fs)
  where
    step :
        (m : Exec Client)
        → ((d : Client) → run_body data_plane_body (views fs) d ≡ carry_out fs d)
        → ((m >>= λ d. ok (d, false)) >>= λ (d, leave). elim leave [
          | true ↦ ok d
          | false ↦ run_body data_plane_body (views fs) d
        ])
          ≡ (m >>= carry_out fs)
    step (ok d) ih = ih d
    step ub ih = refl
    step spent ih = refl

-- A message of one frame or more is carried out frame by frame.
pub read_cb-carry_out :
    (fd : ℕ) (f : Frame) (fs : List Frame) (c : Client)
    → AllFrames (f ∷ fs)
    → read_cb fd (some (encode (f ∷ fs))) c ≡ carry_out (f ∷ fs) c
unfolding read_cb data_plane_read
read_cb-carry_out fd f fs c all =
    ap (λ m. m >>= data_plane_read c) (set_raw-encode new f fs all)
    ∙ for_each_cmd-views data_plane_body f fs c all
    ∙ run_body-carry_out (f ∷ fs) c
