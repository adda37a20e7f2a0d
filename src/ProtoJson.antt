-- ===== src/ProtoJson.antt =====
-- v2/proto_json_stream.go: a stream of messages in a JSON array. The JSON decoder, the message type
-- and the wrapped reader are parameters.
pub mod Laws
use gax_go.Prelude.{
  ℕ, zero, suc, List, [], ◌∷◌, Option, none, some, Bool, true, false, if◌then◌else◌,
}

-- The tokens that the stream tells apart.
pub data Token : Type 0 where
  array_open array_close other_token : Token

-- A result or an error that is not nil.
pub data Result (E A : Type 0) : Type 0 where
  ok : A → Result E A
  failed : E → Result E A

pub record Json : Type 1 where
  pub Err : Type 0
  pub Decoder : Type 0
  pub Raw : Type 0
  pub Message : Type 0
  pub Reader : Type 0
  -- io.EOF and errBadOpening
  pub eof : Err
  pub bad_opening : Err
  -- s.stream.Token()
  pub token : Decoder → Result Err Token × Decoder
  -- s.stream.Decode(&raw)
  pub decode : Decoder → Result Err Raw × Decoder
  -- unm.Unmarshal(raw, m) of a new message m
  pub unmarshal : Raw → Message × Option Err
  -- s.reader.Close()
  pub close_reader : Reader → Option Err × Reader

module _ (json : Json) where
  open json use {Err, Decoder, Raw, Message, Reader, eof, bad_opening}

  -- `stream` is nil after Close.
  pub record Stream : Type 0 where
    pub first : Bool
    pub closed : Bool
    pub reader : Reader
    pub stream : Option Decoder

  -- The two results of `Recv`, or a panic on a nil decoder.
  pub data Received : Type 0 where
    message : Message → Option Err → Received
    nothing : Err → Received
    crashed : Received

  unfoldable pub new_stream : Reader → Decoder → Stream
  new_stream rc d = record { first = true; closed = false; reader = rc; stream = some d }

  -- The error of a failed Decode: the end of the array is io.EOF.
  unfoldable pub end_error : Err → Result Err Token → Err
  end_error e (ok Token.array_close) = eof
  end_error e _ = e

  -- From the Decode to the end of `Recv`.
  unfoldable pub recv_item : Stream → Decoder → Received × Stream
  unfolding end_error
  recv_item s d =
      let (item, d1) = json.decode d in
      elim item [
        | ok raw ↦
            let (m, err) = json.unmarshal raw in (message m err, record s { stream = some d1 })
        | failed e ↦
            let (t, d2) = json.token d1 in (nothing (end_error e t), record s { stream = some d2 })
      ]

  -- The first token, and what follows if it opens the array.
  unfoldable pub recv_first : Stream → Decoder → Received × Stream
  unfolding recv_item
  recv_first s d =
      let (t, d1) = json.token d in
      let s1 : Stream = record s { first = false; stream = some d1 } in
      elim t [
        | failed e ↦ (nothing e, s1)
        | ok Token.array_open ↦ recv_item s1 d1
        | ok Token.array_close ↦ (nothing bad_opening, s1)
        | ok Token.other_token ↦ (nothing bad_opening, s1)
      ]

  unfoldable pub recv : Stream → Received × Stream
  unfolding recv_first
  recv s = if s.closed then (nothing eof, s) else (elim s.stream [
    | none ↦ (crashed, s)
    | some d ↦ if s.first then recv_first s d else recv_item s d
  ])

  unfoldable pub close : Stream → Option Err × Stream
  close s =
      let (err, rc) = json.close_reader s.reader in
      (err, record s { stream = none; closed = true; reader = rc })

  -- The results of `n` calls of `Recv`.
  unfoldable pub recvs : ℕ → Stream → List Received
  unfolding recv
  recvs zero s = []
  recvs (suc n) s = let (r, s') = recv s in r ∷ recvs n s'
