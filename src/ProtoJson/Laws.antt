-- ===== src/ProtoJson/Laws.antt =====
-- What a stream gives before and after `Close`.
use gax_go.Prelude.{ℕ, zero, suc, ◌≡◌, refl, ap, ◌∙◌, List, [], ◌∷◌, some, false, arith, length}
use gax_go.ProtoJson.{
  Token, ok, failed, Json, Stream, Received, message, nothing, new_stream, recv, close, recvs,
  recv_item, recv_first, end_error,
}

module _ (json : Json) where
  open json use {Err, Decoder, Raw, Message, Reader}

  -- The decoder holds these items, and then the end of the array.
  pub data Holds : Decoder → List Raw → Type 0 where
    ends :
        (d d1 d2 : Decoder) (e : Err)
        → json.decode d ≡ (failed e, d1)
        → json.token d1 ≡ (ok Token.array_close, d2)
        → Holds d []
    holds :
        (d d1 : Decoder) (raw : Raw) (raws : List Raw)
        → json.decode d ≡ (ok raw, d1)
        → Holds d1 raws
        → Holds d (raw ∷ raws)

  -- The messages of the items, each with the error of its own decoding, and then io.EOF.
  abbrev pub results : List Raw → List (Received json)
  results [] = nothing json.eof ∷ []
  results (raw ∷ raws) = let (m, err) = json.unmarshal raw in message m err ∷ results raws

  -- A stream within its array.
  abbrev inside : Reader → Decoder → Stream json
  inside rc d = record { first = false; closed = false; reader = rc; stream = some d }

  recv-item :
      (rc : Reader) (d d1 : Decoder) (raw : Raw)
      → json.decode d ≡ (ok raw, d1)
      → recv json (inside rc d)
        ≡ (message (json.unmarshal raw).0 (json.unmarshal raw).1, inside rc d1)
  unfolding recv recv_item
  recv-item rc d d1 raw f = ground arith

  recvs-Holds :
      (rc : Reader) (d : Decoder) (raws : List Raw)
      → Holds d raws
      → recvs json (suc (length raws)) (inside rc d) ≡ results raws
  unfolding recvs recv recv_item end_error
  recvs-Holds rc _ _ (ends d d1 d2 e f g) =
      rw (ap (λ x. x.0) f, ap (λ x. x.1) f, ap (λ x. x.0) g, recv_item, end_error) refl
  recvs-Holds rc _ _ (holds d d1 raw raws f h) =
      ap (λ x. x.0 ∷ recvs json (suc (length raws)) x.1) (recv-item rc d d1 raw f)
      ∙ ap (λ l. message (json.unmarshal raw).0 (json.unmarshal raw).1 ∷ l)
          (recvs-Holds rc d1 raws h)

  -- A stream whose bytes are an array gives its items in order, one for each call of Recv, and then
  -- io.EOF; an item that fails to decode does not end it.
  pub recvs_lem :
      (rc : Reader) (d d1 : Decoder) (raws : List Raw)
      → json.token d ≡ (ok Token.array_open, d1)
      → Holds d1 raws
      → recvs json (suc (length raws)) (new_stream json rc d) ≡ results raws
  unfolding recvs recv recv_first new_stream
  recvs_lem rc d d1 raws t h =
      rw (ap (λ x. x.0) t, ap (λ x. x.1) t, recv_first) (recvs-Holds rc d1 raws h)

  abbrev pub eofs : ℕ → List (Received json)
  eofs zero = []
  eofs (suc n) = nothing json.eof ∷ eofs n

  -- A stream that is closed gives io.EOF from every further call of Recv, whatever it has still to
  -- read.
  recvs-close : (s : Stream json) (n : ℕ) → recvs json n (close json s).1 ≡ eofs n
  unfolding recvs recv close
  recvs-close s zero = refl
  recvs-close s (suc n) = ap (λ l. nothing json.eof ∷ l) (recvs-close s n)
