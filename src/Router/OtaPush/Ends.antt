-- ===== src/Router/OtaPush/Ends.antt =====
-- The loop of `ota_push_to_node` ends, in router/main/ota_handler.c.
use klippylink.Common.{
  ℕ, zero, suc, ◌+◌, ◌-◌, ◌≤◌, ◌≡◌, refl, sym, ap, ◌∙◌, List, [], ◌∷◌, arith, length, take, drop,
  length-drop,
}
use klippylink.Esp.{Err}
use klippylink.Router.OtaPush.{stream}
use klippylink.Router.OtaPush.Chunks.{chunks, data_packets, send_all, stream_lem}

chunks_enough : (n m : ℕ) (xs : List ℕ) → length xs ≤ n → length xs ≤ m → chunks n xs ≡ chunks m xs
unfolding chunks
chunks_enough zero zero xs h k = refl
chunks_enough zero (suc m) [] h k = refl
chunks_enough (suc n) zero [] h k = refl
chunks_enough (suc n) (suc m) [] h k = refl
chunks_enough zero (suc m) (x ∷ xs) h k = absurd (omega arith)
chunks_enough (suc n) zero (x ∷ xs) h k = absurd (omega arith)
chunks_enough (suc n) (suc m) (x ∷ xs) h k =
    let size = length-drop 244 (x ∷ xs) in
    ap (λ l. take 244 (x ∷ xs) ∷ l)
      (chunks_enough n m (drop 244 (x ∷ xs)) (omega arith) (omega arith))

-- The loop over the chunks ends by itself after at most one round for each byte that is left, whatever
-- the sending does: any fuel from that number on gives the same result and the same state.
pub stream_enough :
    {S : Type 0} (send : List ℕ → S → Err × S) (fuel more : ℕ) (bytes : List ℕ) (offset : ℕ) (s : S)
    → length bytes - offset ≤ fuel
    → stream send (fuel + more) bytes offset s ≡ stream send fuel bytes offset s
stream_enough send fuel more bytes offset s h =
    let size = length-drop offset bytes in
    stream_lem send (fuel + more) bytes offset s (omega arith)
    ∙ ap (λ l. send_all send (data_packets l) s)
        (chunks_enough (fuel + more) fuel (drop offset bytes) (omega arith) (omega arith))
    ∙ sym (stream_lem send fuel bytes offset s h)
