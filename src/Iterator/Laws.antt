-- ===== src/Iterator/Laws.antt =====
-- What a range over the adapter sees.
use gax_go.Prelude.{
  ℕ, suc, ◌≡◌, ◌≢◌, ◌⊎◌, refl, ap, List, [], ◌∷◌, Option, none, some, Bool, true, false, arith,
  if◌then◌else◌, length, Bool-cases, Option-cases, inl, inr,
}
use gax_go.Iterator.{Client, Adapter, returns, round, yielded, is_end, range_adapter, new_adapter}

module _ (client : Client) where
  open client use {Item, Err, Source, Consumer}

  -- What the client's iterator gives, to its end: items, then Done or an item with an error.
  pub data Gives : Source → List (Item × Option Err) → Type 0 where
    done :
        (s s' : Source) (t : Item) (e : Err)
        → client.next s ≡ ((t, some e), s')
        → client.is_done e ≡ true
        → Gives s []
    failed :
        (s s' : Source) (t : Item) (e : Err)
        → client.next s ≡ ((t, some e), s')
        → client.is_done e ≡ false
        → Gives s ((t, some e) ∷ [])
    item :
        (s s' : Source) (t : Item) (rest : List (Item × Option Err))
        → client.next s ≡ ((t, none), s')
        → Gives s' rest
        → Gives s ((t, none) ∷ rest)

  -- A loop over a list with the same body.
  abbrev pub feed : List (Item × Option Err) → Consumer → Consumer
  feed [] c = c
  feed ((t, e) ∷ rest) c =
      let (go, c') = client.yield t e c in let after = feed rest c' in if go then after else c'

  -- That loop breaks before the end of its list.
  abbrev pub breaks : List (Item × Option Err) → Consumer → Bool
  breaks [] c = false
  breaks ((t, some e) ∷ rest) c = false
  breaks ((t, none) ∷ rest) c =
      let (go, c') = client.yield t none c in
      let later = breaks rest c' in if go then later else true

  -- The adapter behind one call of the client's iterator.
  abbrev behind : Option Err → Source → Adapter client
  behind err source = record { err = err; source = source }

  round-done :
      (s s' : Source) (t : Item) (e : Err) (c : Consumer)
      → client.next s ≡ ((t, some e), s')
      → client.is_done e ≡ true
      → round client (behind none s) c ≡ returns (behind (some e) s') c
  unfolding round
  round-done s s' t e c n d = ground arith

  round-item :
      (s s' : Source) (t : Item) (e : Option Err) (c : Consumer)
      → client.next s ≡ ((t, e), s')
      → is_end client e ≡ false
      → round client (behind none s) c ≡ yielded client (behind e s') (client.yield t e c)
  unfolding round
  round-item s s' t e c n d = rw (ap (λ x. x.0.0) n, ap (λ x. x.0.1) n, ap (λ x. x.1) n, d) refl

  -- An adapter that has met an error gives nothing more.
  round-stopped :
      (e : Err) (s : Source) (c : Consumer)
      → round client (behind (some e) s) c ≡ returns (behind (some e) s) c
  unfolding round
  round-stopped e s c = refl

  range-stopped :
      (fuel : ℕ) (a : Adapter client) (c : Consumer)
      → a.err ≢ none
      → range_adapter client (suc fuel) a c ≡ some (a, c)
  unfolding range_adapter round
  range-stopped fuel a c h = elim (Option-cases a.err) [
    | inl e ↦ absurd (h e)
    | inr (x, e) ↦ ground arith
  ]

  range_of_Gives :
      (s : Source) (items : List (Item × Option Err)) (c : Consumer)
      → Gives s items
      → (a : Adapter client) × (range_adapter client (suc (length items)) (new_adapter client s) c
          ≡ some (a, feed items c))
        × ((breaks items c ≡ true) ⊎ (a.err ≢ none))
  unfolding range_adapter new_adapter yielded is_end
  range_of_Gives _ _ c (done s s' t e n d) =
      (behind (some e) s', rw (round-done s s' t e c n d, range_adapter) refl, inr (ground arith))
  range_of_Gives _ _ c (failed s s' t e n d) = (
    behind (some e) s',
    rw (round-item s s' t (some e) c n d, range_adapter)
        (elim (Bool-cases (client.yield t (some e) c).0) [
          | inl go ↦ rw (go, round-stopped e s' (client.yield t (some e) c).1) refl
          | inr stop ↦ rw stop refl
        ]),
    inr (ground arith),
  )
  range_of_Gives _ _ c (item s s' t rest n g) = elim (Bool-cases (client.yield t none c).0) [
    | inl go ↦
        let (a, e, h) = range_of_Gives s' rest (client.yield t none c).1 g in
        (a, rw (round-item s s' t none c n refl, range_adapter, go) e, rw go h)
    | inr stop ↦ (
      behind none s',
      rw (round-item s s' t none c n refl, range_adapter, stop) refl,
      inl (rw stop refl),
    )
  ]

  -- A range over a new adapter runs its body on what the client's iterator gives, in order and up to
  -- a break, with one more round than there are items as fuel. The Done at the end is not an item, and
  -- another error is one, the last. Unless the body breaks before an item
  -- without an error, a further range gives nothing.
  pub range_adapter_lem :
      (s : Source) (items : List (Item × Option Err)) (c : Consumer)
      → Gives s items
      → (a : Adapter client) × (range_adapter client (suc (length items)) (new_adapter client s) c
          ≡ some (a, feed items c))
        × ((breaks items c ≡ true)
            ⊎ ((fuel : ℕ) (c' : Consumer) → range_adapter client (suc fuel) a c' ≡ some (a, c')))
  range_adapter_lem s items c g = let (a, e, h) = range_of_Gives s items c g in (a, e, further a h)
    where
      further :
          (a : Adapter client)
          → (breaks items c ≡ true) ⊎ (a.err ≢ none)
          → (breaks items c ≡ true)
            ⊎ ((fuel : ℕ) (c' : Consumer) → range_adapter client (suc fuel) a c' ≡ some (a, c'))
      further a (inl b) = inl b
      further a (inr h) = inr (λ fuel c'. range-stopped fuel a c' h)
