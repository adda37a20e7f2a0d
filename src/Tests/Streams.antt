-- ===== src/Tests/Streams.antt =====
-- The JSON stream and the content sniffer.
use gax_go.Prelude.{
  ℕ, ◌+◌, ◌≡◌, refl, List, [], ◌∷◌, Option, none, some, take, drop, take-append-drop, false, true,
  suc, ltb, ◌==◌, ◌⊎◌,
}
use gax_go.ProtoJson.{Token, Result, ok, failed, Json, new_stream, recvs}
use gax_go.ProtoJson.Laws.{ends, holds, results, recvs_lem}
use gax_go.Prelude.Text.{codes}
use gax_go.Iterator.{Client, Adapter, range_adapter, new_adapter}
use gax_go.Iterator.Laws.{Gives, range_adapter_lem}
use gax_go.ContentType.{Io, ContentSniffer, new_content_sniffer, read}
use gax_go.ContentType.Laws.{IsReader, IsFresh, before, content_of, content_of-read}

data Piece : Type 0 where
  opening closing : Piece
  item : ℕ → Piece

-- A decoder is the list of what it has still to read.
abbrev read_token : List Piece → Result ℕ Token × List Piece
read_token [] = (failed 0, [])
read_token (opening ∷ d) = (ok Token.array_open, d)
read_token (closing ∷ d) = (ok Token.array_close, d)
read_token (item n ∷ d) = (ok Token.other_token, d)

abbrev read_item : List Piece → Result ℕ ℕ × List Piece
read_item (item n ∷ d) = (ok n, d)
read_item d = (failed 7, d)

abbrev json : Json
json = record {
  Err = ℕ;
  Decoder = List Piece;
  Raw = ℕ;
  Message = ℕ;
  Reader = ℕ;
  eof = 0;
  bad_opening = 9;
  token = read_token;
  decode = read_item;
  unmarshal = λ raw. (raw, none);
  close_reader = λ rc. (none, rc + 1);
}

recvs_lem_example :
    recvs json 3 (new_stream json 5 (opening ∷ item 20 ∷ item 30 ∷ closing ∷ []))
    ≡ results json (20 ∷ 30 ∷ [])
recvs_lem_example =
    recvs_lem json 5 (opening ∷ item 20 ∷ item 30 ∷ closing ∷ []) (item 20 ∷ item 30 ∷ closing ∷ [])
      (20 ∷ 30 ∷ []) refl
      (holds _ (item 30 ∷ closing ∷ []) 20 _ refl
        (holds _ (closing ∷ []) 30 _ refl (ends (closing ∷ []) (closing ∷ []) [] 7 refl refl)))

-- A reader is the bytes that it has still to give.
abbrev read_bytes : ℕ → List ℕ → (List ℕ × Option ℕ) × List ℕ
read_bytes n [] = (([], some 0), [])
read_bytes n (c ∷ r) = ((take n (c ∷ r), none), drop n (c ∷ r))

abbrev bytes_io : Io
bytes_io = record {
  Err = ℕ;
  Reader = List ℕ;
  read = read_bytes;
  read_all_limited = λ n r. ((take n r, none), drop n r);
  detect_content_type = λ bytes. codes "text/plain";
  content_typer = λ r. none;
}

abbrev bytes_content : List ℕ → List ℕ × ℕ
bytes_content r = (r, 0)

read_bytes_law :
    (n : ℕ) (r : List ℕ)
    → bytes_content r ≡ before bytes_io (read_bytes n r).0 (bytes_content (read_bytes n r).1)
read_bytes_law n [] = refl
read_bytes_law n (c ∷ r) = rw (take-append-drop n (c ∷ r)) refl

bytes-IsReader : IsReader bytes_io bytes_content
bytes-IsReader = record {
  read_law = read_bytes_law;
  read_all_law = λ n r. rw (take-append-drop n r) refl;
}

abbrev three : ContentSniffer bytes_io
three = new_content_sniffer bytes_io (1 ∷ 2 ∷ 3 ∷ [])

content_of-read_example :
    (content_of bytes_io bytes_content bytes-IsReader three
      ≡ before bytes_io
          (read bytes_io 2 three).0
          (content_of bytes_io bytes_content bytes-IsReader (read bytes_io 2 three).1))
    × IsFresh bytes_io bytes_content bytes-IsReader (read bytes_io 2 three).1
unfolding new_content_sniffer
content_of-read_example =
    content_of-read bytes_io bytes_content bytes-IsReader 2 three (λ h. (refl, refl))

-- A client over a list of items; 0 as an error is Done, and the body adds up and breaks above 9.
abbrev advance : List (ℕ × Option ℕ) → (ℕ × Option ℕ) × List (ℕ × Option ℕ)
advance [] = ((0, some 0), [])
advance (x ∷ s) = (x, s)

abbrev numbers : Client
numbers = record {
  Item = ℕ;
  Err = ℕ;
  Source = List (ℕ × Option ℕ);
  next = advance;
  is_done = λ e. e == 0;
  Consumer = ℕ;
  yield = λ t e c. (ltb (c + t) 10, c + t);
}

abbrev pairs : List (ℕ × Option ℕ)
pairs = (4, none) ∷ (5, none) ∷ (0, some 7) ∷ []

pairs-Gives : Gives numbers pairs pairs
pairs-Gives =
    Gives.item pairs _ 4 _ refl
      (Gives.item _ _ 5 _ refl (Gives.failed ((0, some 7) ∷ []) [] 0 7 refl refl))

range_adapter_lem_example :
    (a : Adapter numbers) × (range_adapter numbers 4 (new_adapter numbers pairs) 0 ≡ some (a, 9))
    × ((false ≡ true) ⊎ ((fuel : ℕ) (c : ℕ) → range_adapter numbers (suc fuel) a c ≡ some (a, c)))
range_adapter_lem_example = range_adapter_lem numbers pairs pairs 0 pairs-Gives
