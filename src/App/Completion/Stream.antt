-- ===== src/App/Completion/Stream.antt =====
-- What a streamed completion delivers.
use mathlib.Core.List.{append_assoc}
use secure_gpu_inference_gat.Prelude.{
  ◌∙◌, ℕ, zero, suc, ◌≡◌, refl, Bool, List, [], ◌∷◌, ◌++◌, ap, if◌then◌else◌,
}
use secure_gpu_inference_gat.App.Completion.{Chunk, UpstreamResponse}
use secure_gpu_inference_gat.App.Completion.Proxy.{
  joined, to_end, closing, finished, broken, deliver, stream_body,
}

deliver-to_end :
    (breaks_off : Bool) (chunks : List Chunk)
    → (joined (deliver breaks_off to_end chunks).0 ≡ joined chunks)
      × ((deliver breaks_off to_end chunks).1 ≡ (if breaks_off then broken else finished))
unfolding deliver
deliver-to_end breaks_off [] = (refl, refl)
deliver-to_end breaks_off ([] ∷ chunks) = deliver-to_end breaks_off chunks
deliver-to_end breaks_off ((b ∷ bs) ∷ chunks) =
    let (same, ending) = deliver-to_end breaks_off chunks in
    (ap (λ rest. b ∷ (bs ++ rest)) same, ending)

-- A reader that goes on to the end gets the bytes that the upstream has sent, all of them in their
-- order, and the stream ends as the upstream does.
pub stream_body-to_end :
    (response : UpstreamResponse)
    → (joined (stream_body response to_end).0 ≡ joined response.chunks)
      × ((stream_body response to_end).1 ≡ (if response.breaks_off then broken else finished))
unfolding stream_body
stream_body-to_end response = deliver-to_end response.breaks_off response.chunks

deliver-prefix :
    (breaks_off : Bool) (n : ℕ) (chunks : List Chunk)
    → (rest : Chunk) × (joined (deliver breaks_off (closing (suc n)) chunks).0 ++ rest
        ≡ joined chunks)
unfolding deliver
deliver-prefix breaks_off n [] = ([], refl)
deliver-prefix breaks_off n ([] ∷ chunks) = deliver-prefix breaks_off n chunks
deliver-prefix breaks_off zero ((b ∷ bs) ∷ chunks) =
    (joined chunks, ap (λ r. b ∷ r) (append_assoc bs [] (joined chunks)))
deliver-prefix breaks_off (suc n) ((b ∷ bs) ∷ chunks) =
    let (rest, same) = deliver-prefix breaks_off n chunks in
    let sent = joined (deliver breaks_off (closing (suc n)) chunks).0 in
    (rest, ap (λ r. b ∷ r) (append_assoc bs sent rest ∙ ap (λ r. bs ++ r) same))

-- A reader that closes the stream after some chunks has got a prefix of the bytes that the upstream
-- has sent.
pub stream_body-closing :
    (response : UpstreamResponse) (n : ℕ)
    → (rest : Chunk) × (joined (stream_body response (closing n)).0 ++ rest
        ≡ joined response.chunks)
unfolding stream_body
stream_body-closing response zero = (joined response.chunks, refl)
stream_body-closing response (suc n) = deliver-prefix response.breaks_off n response.chunks
