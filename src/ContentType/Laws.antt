-- ===== src/ContentType/Laws.antt =====
-- Sniffing loses nothing of the wrapped reader.
use gax_go.Prelude.{
  ℕ, ◌≡◌, refl, sym, ap, ◌∙◌, List, [], ◌∷◌, ◌++◌, Option, none, some, true, false, arith,
  Bool-cases, Option-cases, inl, inr, take, drop, take-append-drop, append_assoc,
}
use gax_go.ContentType.{
  Io, ContentSniffer, new_content_sniffer, sniff, content_type, read_sniffed, read, sniffer,
  determine_content_type,
}

module _ (io : Io) where
  open io use {Err, Reader}

  -- What a reader has still to give: bytes, and the error behind them (io.EOF at the end).
  abbrev pub Content : Type 0
  Content = List ℕ × Err

  abbrev pub ahead : List ℕ → Content → Content
  ahead bytes (rest, e) = (bytes ++ rest, e)

  -- The content before a read, from what the read gave and the content behind it.
  abbrev pub before : List ℕ × Option Err → Content → Content
  before (bytes, none) c = ahead bytes c
  before (bytes, some e) c = (bytes, e)

  -- A reader gives its content piece by piece.
  pub record IsReader (content : Reader → Content) : Type 0 where
    pub read_law :
        (n : ℕ) (r : Reader) → content r ≡ before (io.read n r).0 (content (io.read n r).1)
    pub read_all_law :
        (n : ℕ) (r : Reader)
        → content r ≡ before (io.read_all_limited n r).0 (content (io.read_all_limited n r).1)

  module _ (content : Reader → Content) (law : IsReader content) where
    -- What a sniffer has still to give.
    abbrev pub content_of : ContentSniffer io → Content
    content_of cs = before (cs.start, cs.err) (content cs.r)

    -- Nothing is buffered before the sniffing.
    abbrev pub IsFresh : ContentSniffer io → Type 0
    IsFresh cs = cs.sniffed ≡ false → (cs.start ≡ []) × (cs.err ≡ none)

    content_type-kept : (cs : ContentSniffer io) → cs.sniffed ≡ true → (content_type io cs).1 ≡ cs
    unfolding content_type
    content_type-kept cs e = ground arith

    content_type-sniff :
        (cs : ContentSniffer io) → cs.sniffed ≡ false → (content_type io cs).1 ≡ sniff io cs
    unfolding content_type
    content_type-sniff cs e = ground arith

    content_of_fresh :
        (cs : ContentSniffer io) → cs.start ≡ [] → cs.err ≡ none → content_of cs ≡ content cs.r
    content_of_fresh cs s e = rw (e, s) refl

    content_of-sniff : (cs : ContentSniffer io) → content_of (sniff io cs) ≡ content cs.r
    unfolding sniff
    content_of-sniff cs = elim (Option-cases (io.read_all_limited 512 cs.r).0.1) [
      | inl e ↦ rw (e, sniff) (rw e at (sym (law.read_all_law 512 cs.r)))
      | inr (x, e) ↦ rw (e, sniff) (rw e at (sym (law.read_all_law 512 cs.r)))
    ]

    content_of-content_type :
        (cs : ContentSniffer io) → IsFresh cs → content_of (content_type io cs).1 ≡ content_of cs
    content_of-content_type cs fresh = elim (Bool-cases cs.sniffed) [
      | inl e ↦ ap content_of (content_type-kept cs e)
      | inr e ↦
          let (no_start, no_err) = fresh e in
          ap content_of (content_type-sniff cs e)
          ∙ content_of-sniff cs
          ∙ sym (content_of_fresh cs no_start no_err)
    ]

    content_of-read_sniffed :
        (n : ℕ) (cs : ContentSniffer io)
        → content_of cs ≡ before (read_sniffed io n cs).0 (content_of (read_sniffed io n cs).1)
    unfolding read_sniffed
    content_of-read_sniffed n cs = go cs.start cs.err
      where
        go :
            (start : List ℕ) (err : Option Err)
            → let cs' : ContentSniffer io = record cs { start = start; err = err } in
              content_of cs'
              ≡ before (read_sniffed io n cs').0 (content_of (read_sniffed io n cs').1)
        go (c ∷ start) none =
            rw
              (
                sym (append_assoc (take n (c ∷ start)) (drop n (c ∷ start)) (content cs.r).0),
                take-append-drop n (c ∷ start),
              )
              refl
        go (c ∷ start) (some e) = rw (take-append-drop n (c ∷ start)) refl
        go [] (some e) = refl
        go [] none = law.read_law n cs.r

    read-IsFresh : (n : ℕ) (cs : ContentSniffer io) → IsFresh (read io n cs).1
    unfolding read read_sniffed content_type sniff
    read-IsFresh n cs = ground arith

    -- What a sniffer has still to give is what a read gives and what is left behind it, whether or
    -- not the type has been sniffed: no byte is lost, repeated or moved, and a read error comes
    -- behind the bytes before it. The wrapped reader is assumed to do the same.
    pub content_of-read :
        (n : ℕ) (cs : ContentSniffer io)
        → IsFresh cs
        → (content_of cs ≡ before (read io n cs).0 (content_of (read io n cs).1))
          × IsFresh (read io n cs).1
    unfolding read
    content_of-read n cs fresh = (
      sym (content_of-content_type cs fresh) ∙ content_of-read_sniffed n (content_type io cs).1,
      read-IsFresh n cs,
    )

    -- For a reader without a content type of its own, `DetermineContentType` gives a sniffer that
    -- has still all of the reader's content to give.
    content_of-determine_content_type :
        (media : Reader)
        → io.content_typer media ≡ none
        → (cs : ContentSniffer io) × ((determine_content_type io media).0 ≡ sniffer cs)
          × IsFresh cs
          × (content_of cs ≡ content media)
    unfolding determine_content_type new_content_sniffer content_type sniff
    content_of-determine_content_type media e =
        let new = new_content_sniffer io media in
        (
          (content_type io new).1,
          rw (e, determine_content_type) refl,
          ground arith,
          content_of-content_type new (λ h. (refl, refl)),
        )
