-- ===== src/Iterator.antt =====
-- `RangeAdapter` of v2/iterator/iterator.go. The client's iterator and the body of the loop that
-- ranges over it are parameters.
pub mod Laws
use gax_go.Prelude.{
  ℕ, zero, suc, List, [], ◌∷◌, Option, none, some, Bool, true, false, if◌then◌else◌,
}

pub record Client : Type 1 where
  pub Item : Type 0
  pub Err : Type 0
  pub Source : Type 0
  -- next(): both results, and the iterator behind them
  pub next : Source → (Item × Option Err) × Source
  -- err == iterator.Done
  pub is_done : Err → Bool
  -- what the body of the loop changes, and yield
  pub Consumer : Type 0
  pub yield : Item → Option Err → Consumer → Bool × Consumer

module _ (client : Client) where
  open client use {Item, Err, Source, Consumer}

  -- The variable `err` of the adapter outlives a range over it.
  pub record Adapter : Type 0 where
    pub err : Option Err
    pub source : Source

  -- What one round does: it returns, or goes round again.
  pub data Step : Type 0 where
    returns again : Adapter → Consumer → Step

  -- From the call of yield.
  unfoldable pub yielded : Adapter → Bool × Consumer → Step
  yielded a (go, c) = if go then again a c else returns a c

  unfoldable pub is_end : Option Err → Bool
  is_end none = false
  is_end (some e) = client.is_done e

  unfoldable pub round : Adapter → Consumer → Step
  unfolding yielded is_end
  round a c = elim a.err [
    | some e ↦ returns a c
    | none ↦
        let ((resp, err), source) = client.next a.source in
        let a' : Adapter = record { err = err; source = source } in
        if is_end err then returns a' c else yielded a' (client.yield resp err c)
  ]

  -- One range over the adapter; `none` means that the fuel ran out.
  unfoldable pub range_adapter : ℕ → Adapter → Consumer → Option (Adapter × Consumer)
  range_adapter zero a c = none
  range_adapter (suc fuel) a c = elim (round a c) [
    | returns a' c' ↦ some (a', c')
    | again a' c' ↦ range_adapter fuel a' c'
  ]

  unfoldable pub new_adapter : Source → Adapter
  new_adapter source = record { err = none; source = source }
