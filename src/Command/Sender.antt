-- ===== src/Command/Sender.antt =====
-- What every sender of a batch does: new, one `atlas_cmd_batch_add` for each command, and
-- `atlas_cmd_batch_get_buf`.
use resfit.Prelude.{
  ◌<◌, ◌≡◌, sym, ap, ◌∙◌, Option, some, List, [], ◌∷◌, ◌++◌, append_assoc, append-nil, arith,
  length, length-append, Exec, ok, ◌>>=◌,
}
use resfit.Prelude.Memory.{Bytes}
use resfit.Command.{CmdBatch, new, add, sent_bytes}
use resfit.Command.Frame.{Frame, AllFrames, encode, encode-append, batch_of}
use resfit.Command.Build.{add-batch_of, sent_bytes-batch_of}

-- The commands added to a batch, one by one, and the bytes that are handed on.
unfoldable pub send_batch : List Frame → Option CmdBatch → Exec Bytes
send_batch [] b = sent_bytes b
send_batch (f ∷ fs) b = add b f.type (length f.value) f.value >>= send_batch fs

send_batch_from :
    (fs gs : List Frame)
    → AllFrames fs
    → length (encode (gs ++ fs)) < 65536
    → send_batch fs (some (batch_of gs)) ≡ ok (encode (gs ++ fs))
unfolding send_batch
send_batch_from [] gs all fits =
    sent_bytes-batch_of gs ∙ ap (λ l. ok (encode l)) (sym (append-nil gs))
send_batch_from (f ∷ fs) gs all fits =
    let same : (gs ++ (f ∷ [])) ++ fs ≡ gs ++ (f ∷ fs) = append_assoc gs (f ∷ []) fs in
    let whole : length (encode ((gs ++ (f ∷ [])) ++ fs)) < 65536 = rw same fits in
    let short : length (encode (gs ++ (f ∷ []))) < 65536 = omega (
      arith,
      ap length (encode-append (gs ++ (f ∷ [])) fs),
      length-append (encode (gs ++ (f ∷ []))) (encode fs),
      whole,
    ) in
    ap (λ m. m >>= send_batch fs) (add-batch_of gs f all.0 short)
    ∙ send_batch_from fs (gs ++ (f ∷ [])) all.1 whole
    ∙ ap (λ l. ok (encode l)) same

-- The bytes that a sender hands on are those of its commands, in the order in which it adds them,
-- if their types and lengths, and the length of the whole, fit 16 bits.
pub send_batch-encode :
    (fs : List Frame)
    → AllFrames fs
    → length (encode fs) < 65536
    → send_batch fs (some new) ≡ ok (encode fs)
send_batch-encode fs all fits = send_batch_from fs [] all fits
