-- ===== src/ContentType.antt =====
-- v2/content_type.go: a reader that sniffs the content type before it is read. The wrapped reader
-- and the detection are parameters.
pub mod Laws
use gax_go.Prelude.{
  ℕ, List, [], ◌∷◌, Option, none, some, Bool, true, false, not, if◌then◌else◌, take, drop,
}
use gax_go.Prelude.Text.{Text}

-- An error that is not nil is `some`; io.EOF is one of them.
pub record Io : Type 1 where
  pub Err : Type 0
  pub Reader : Type 0
  -- r.Read(p) for a buffer of n bytes: the bytes read
  pub read : ℕ → Reader → (List ℕ × Option Err) × Reader
  -- io.ReadAll(io.LimitReader(r, n)): here an error is never io.EOF
  pub read_all_limited : ℕ → Reader → (List ℕ × Option Err) × Reader
  -- http.DetectContentType
  pub detect_content_type : List ℕ → Text
  -- the ContentType method of a reader that has one
  pub content_typer : Reader → Option Text

abbrev pub sniff_buff_size : ℕ
sniff_buff_size = 512

module _ (io : Io) where
  open io use {Err, Reader}

  pub record ContentSniffer : Type 0 where
    pub r : Reader
    pub start : List ℕ
    pub err : Option Err
    pub ctype : Text
    pub sniffed : Bool

  unfoldable pub new_content_sniffer : Reader → ContentSniffer
  new_content_sniffer r = record { r = r; start = []; err = none; ctype = []; sniffed = false }

  -- cs.ctype != ""
  abbrev pub nonempty : Text → Bool
  nonempty [] = false
  nonempty (c ∷ s) = true

  -- The first call of `ContentType`.
  unfoldable pub sniff : ContentSniffer → ContentSniffer
  sniff cs =
      let ((start, err), r) = io.read_all_limited sniff_buff_size cs.r in
      elim err [
        | some e ↦ record cs { r = r; start = start; err = some e; sniffed = true }
        | none ↦ record cs {
          r = r;
          start = start;
          err = none;
          ctype = io.detect_content_type start;
          sniffed = true;
        }
      ]

  unfoldable pub content_type : ContentSniffer → (Text × Bool) × ContentSniffer
  content_type cs =
      if cs.sniffed
      then ((cs.ctype, nonempty cs.ctype), cs)
      else (let cs1 = sniff cs in
          elim cs1.err [ some e ↦ (([], false), cs1) | none ↦ ((cs1.ctype, true), cs1) ])

  -- After the sniffing: the bytes of the buffer, its error, or the wrapped reader.
  unfoldable pub read_sniffed : ℕ → ContentSniffer → (List ℕ × Option Err) × ContentSniffer
  read_sniffed n cs = elim cs.start [
    | c ∷ start ↦ ((take n (c ∷ start), none), record cs { start = drop n (c ∷ start) })
    | [] ↦ elim cs.err [
      | some e ↦ (([], some e), cs)
      | none ↦ let (got, r) = io.read n cs.r in (got, record cs { r = r })
    ]
  ]

  unfoldable pub read : ℕ → ContentSniffer → (List ℕ × Option Err) × ContentSniffer
  unfolding content_type read_sniffed
  read n cs = read_sniffed n (content_type cs).1

  -- What `DetermineContentType` returns as a reader.
  pub data Media : Type 0 where
    same : Reader → Media
    sniffer : ContentSniffer → Media

  unfoldable pub determine_content_type : Reader → Media × Text
  unfolding content_type new_content_sniffer
  determine_content_type media = elim (io.content_typer media) [
    | some ctype ↦ (same media, ctype)
    | none ↦
        let ((ctype, ok), cs) = content_type (new_content_sniffer media) in
        (sniffer cs, if ok then ctype else [])
  ]
