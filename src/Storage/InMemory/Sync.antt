-- ===== src/Storage/InMemory/Sync.antt =====
-- What a reader of an in-memory backend's changes can rely on, after any puts and expiry ticks.
use pomerium.Prelude.{
  ℕ, ◌+◌, ◌-◌, ◌≤◌, ◌<◌, ℤ, ◌≡◌, sym, ap, ◌∙◌, subst, List, [], ◌∷◌, ◌++◌, arith, take, drop,
  take-append-drop,
}
use pomerium.BTree.{BTree}
use pomerium.Storage.{Record}
use pomerium.Storage.InMemory.{less_version, Backend, on_tick, stamp, put_record, get_since}
use pomerium.Storage.InMemory.History.{
  Numbered, Numbered-drop, replay, replay-append, IsHistory, get_since-drop,
}

pub data Event : Type 0 where
  puts : ℤ → Record → Event
  ticks : ℤ → Event

module _ {B : BTree less_version} where
  unfoldable pub step : Backend B → Event → Backend B
  step b (puts now r) = put_record b now r
  step b (ticks now) = on_tick b now

  unfoldable pub run : Backend B → List Event → Backend B
  run b [] = b
  run b (e ∷ es) = run (step b e) es

  -- The records that the puts stamped, oldest first.
  abbrev pub stamped : Backend B → Event → List Record
  stamped b (puts now r) = stamp b now r ∷ []
  stamped b (ticks now) = []

  unfoldable pub history : Backend B → List Event → List Record
  history b [] = []
  history b (e ∷ es) = stamped b e ++ history (step b e) es

  -- While none of the changes past its version have expired, a reader that has the table as of that
  -- version has the current table once it applies the changes that it is given.
  pub catch_up :
      (l : List Record) (b : Backend B) (version : ℕ)
      → (h : IsHistory l b) → h.gone ≤ version
      → replay (replay [] (take version l)) (get_since b version) ≡ b.lookup
  catch_up l b version h k =
      let e : h.gone + (version - h.gone) ≡ version = omega arith in
      ap (replay (replay [] (take version l))) (get_since-drop l b version h ∙ ap (λ n. drop n l) e)
      ∙ sym (replay-append [] (take version l) (drop version l))
      ∙ ap (replay []) (take-append-drop version l)
      ∙ sym h.current

  -- Where changes that the reader lacks have expired, the first change that it is given does not
  -- have the version after its own.
  pub gap_shows :
      (l : List Record) (b : Backend B) (version : ℕ) (r : Record) (rs : List Record)
      → (h : IsHistory l b) → version < h.gone
      → get_since b version ≡ r ∷ rs
      → version + 1 < r.version
  gap_shows l b version r rs h k e =
      let n : Numbered (0 + (h.gone + (version - h.gone))) (r ∷ rs) =
        subst (Numbered (0 + (h.gone + (version - h.gone))))
          (sym (get_since-drop l b version h) ∙ e)
          (Numbered-drop 0 (h.gone + (version - h.gone)) l h.numbered) in
      omega (arith, n.0)
