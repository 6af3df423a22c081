-- ===== src/Writers/Cancel.antt =====
-- What giving up a message comes to, by the kind of its writer (src/message_writer.c, src/rpc.c).
use libkrossbar.Prelude.{ℕ, zero, suc, ◌≡◌, refl, ap, ◌∙◌, true, List, ◌∷◌, ◌==◌, arith}
use libkrossbar.Writers.{
  CancelFunction, message_writer_uds_cancel, message_writer_shm_cancel, rpc_message_cancel, Writer,
  CancelRun, returned, out_of_fuel, destroy_document, call_cancel, message_cancel,
}

-- How the cancel of a writer ends, by its function.
pub outcome : Writer → List ℕ → CancelFunction → CancelRun
outcome w freed message_writer_uds_cancel = returned (w.at ∷ w.buffer ∷ freed) true
outcome w freed message_writer_shm_cancel = returned (w.at ∷ freed) true
outcome w freed rpc_message_cancel = out_of_fuel

cancelled :
    (fuel : ℕ) (w : Writer) (freed : List ℕ) (f : CancelFunction)
    → w.cancel ≡ f
    → message_cancel (suc fuel) w freed ≡ outcome w freed f
unfolding message_cancel outcome destroy_document call_cancel
cancelled fuel w freed message_writer_uds_cancel e =
    let same : (w.at == w.at) ≡ true = ground arith in rw (e, same) refl
cancelled fuel w freed message_writer_shm_cancel e =
    let same : (w.at == w.at) ≡ true = ground arith in rw (e, same) refl
cancelled zero w freed rpc_message_cancel e = rw e refl
cancelled (suc k) w freed rpc_message_cancel e =
    ap (λ r. destroy_document w (call_cancel w freed r w.cancel))
      (cancelled k w freed rpc_message_cancel e)
    ∙ rw e refl

-- `message_cancel` of a writer of a transport frees the writer, over a socket its buffer first, and
-- then reads the writer that was freed. On a writer of the RPC module it does not come to an end
-- however deep calls may nest.
pub message_cancel_lem :
    (fuel : ℕ) (w : Writer) (freed : List ℕ)
    → message_cancel (suc fuel) w freed ≡ outcome w freed w.cancel
message_cancel_lem fuel w freed = cancelled fuel w freed w.cancel refl
