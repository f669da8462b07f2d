-- ===== src/Storage/InMemory/Stream/Delivery.antt =====
-- A stream delivers each change that its backend keeps once, in the order of the versions.
use mathlib.Core.List.{append-nil, append_assoc}
use pomerium.Prelude.{
  ℕ, zero, suc, ◌+◌, ◌-◌, ◌^◌, ◌≤◌, ◌<◌, ℤ, true, false, ◌≡◌, ◌≢◌, refl, sym, ap, ◌∙◌, subst, List,
  [], ◌∷◌, ◌++◌, none, some, arith, length, drop, drop_past, drop-append, length-drop, length_pos,
  List-cases, inl, inr,
}
use pomerium.BTree.{BTree}
use pomerium.BTree.Sorted.{rest}
use pomerium.Storage.{Record}
use pomerium.Storage.InMemory.{less_version, Backend, stamp, put_record, get_since}
use pomerium.Storage.InMemory.History.{
  Numbered, Numbered-drop, IsHistory, put_record-IsHistory, gone-put_record, get_since-drop,
}
use pomerium.Storage.InMemory.Stream.{Stream, last_version_of, record_of, next}

last_version-Numbered :
    (n v : ℕ) (l : List Record) → Numbered n l → l ≢ [] → last_version_of l v ≡ n + length l
unfolding last_version_of
last_version-Numbered n v [] h k = absurd (k refl)
last_version-Numbered n v (r ∷ []) h k = omega (arith, h.0)
last_version-Numbered n v (r ∷ x ∷ l) h k =
    omega (arith, last_version-Numbered (n + 1) r.version (x ∷ l) h.1 (λ e. cc))

module _ {B : BTree less_version} where
  -- Nothing is past the last version that was given.
  since_last :
      (l : List Record) (b : Backend B) (v : ℕ)
      → IsHistory l b
      → get_since b v ≢ []
      → get_since b (last_version_of (get_since b v) v) ≡ []
  since_last l b v h k =
      let from : ℕ = h.gone + (v - h.gone) in
      let e : get_since b v ≡ drop from l = get_since-drop l b v h in
      let n : Numbered (0 + from) (get_since b v) =
        subst (Numbered (0 + from)) (sym e) (Numbered-drop 0 from l h.numbered) in
      get_since-drop l b (last_version_of (get_since b v) v) h
      ∙ drop_past _ l (
          omega (
            arith,
            last_version-Numbered (0 + from) v (get_since b v) n k,
            ap length e,
            length-drop from l,
            length_pos (get_since b v) k,
          ))

  -- What the calls of Next that follow deliver.
  unfoldable pub pending : Stream → Backend B → List Record
  pending s b = rest s.ready ++ get_since b s.version

  next_refill :
      (l : List Record) (s : Stream) (b : Backend B) (r : Record) (rs : List Record)
      → IsHistory l b
      → rest s.ready ≡ []
      → get_since b s.version ≡ r ∷ rs
      → ((next s b).0 ≡ true) × (record_of (next s b).1 ≡ some r) × (pending (next s b).1 b ≡ rs)
  unfolding next pending record_of
  next_refill l s b r rs h e g =
      let again = since_last l b s.version h (λ q. cc (g, q)) in
      (ground (arith, e, g), ground (arith, e, g), ground (arith, e, g, again, append-nil rs))

  next_ready :
      (s : Stream) (b : Backend B) (r : Record) (rs : List Record)
      → rest s.ready ≡ r ∷ rs
      → ((next s b).0 ≡ true)
        × (record_of (next s b).1 ≡ some r)
        × (pending (next s b).1 b ≡ rs ++ get_since b s.version)
  unfolding next pending record_of
  next_ready s b r rs e = (ground (arith, e), ground (arith, e), ground (arith, e))

  -- While something is pending, Next returns true, its record is the oldest pending one, and the
  -- others stay pending.
  pub next_delivers :
      (l : List Record) (s : Stream) (b : Backend B) (r : Record) (rs : List Record)
      → IsHistory l b
      → pending s b ≡ r ∷ rs
      → ((next s b).0 ≡ true) × (record_of (next s b).1 ≡ some r) × (pending (next s b).1 b ≡ rs)
  unfolding pending
  next_delivers l s b r rs h p = elim (List-cases (rest s.ready)) [
    | inl e ↦ next_refill l s b r rs h e (ground (arith, e, p))
    | inr (x, xs, e) ↦
        let n = next_ready s b x xs e in
        (n.0, ground (arith, n.1, e, p), n.2 ∙ ground (arith, e, p))
  ]

  -- With nothing pending, Next returns false and there is no record.
  pub next_over :
      (s : Stream) (b : Backend B)
      → pending s b ≡ []
      → ((next s b).0 ≡ false) × (record_of (next s b).1 ≡ none)
  unfolding next pending record_of
  next_over s b p = elim (List-cases (rest s.ready)) [
    | inl e ↦ (ground (arith, e, p), ground (arith, e, p))
    | inr (x, xs, e) ↦ absurd (ground (arith, e, p))
  ]

  -- for stream.Next(false) { … stream.Record() … }, at most `fuel` times
  unfoldable pub drain : ℕ → Stream → Backend B → List Record
  drain zero s b = []
  drain (suc fuel) s b =
      let s' = (next s b).1 in
      let others = drain fuel s' b in
      elim (next s b).0 [
        | true ↦ elim (record_of s') [ none ↦ others | some r ↦ r ∷ others ]
        | false ↦ []
      ]

  drain_list :
      (l : List Record) (s : Stream) (b : Backend B) (fuel : ℕ) (rs : List Record)
      → IsHistory l b
      → pending s b ≡ rs
      → length rs < fuel
      → drain fuel s b ≡ rs
  unfolding drain
  drain_list l s b zero rs h p k = elim k [ ]
  drain_list l s b (suc fuel) [] h p k = let n = next_over s b p in ground (arith, n.0)
  drain_list l s b (suc fuel) (r ∷ rs) h p k =
      let n = next_delivers l s b r rs h p in
      ground (arith, n.0, n.1, drain_list l (next s b).1 b fuel rs h n.2)

  -- A loop over Next, with more rounds than there are pending records, takes out each of them
  -- once and in order.
  pub drain-pending :
      (l : List Record) (s : Stream) (b : Backend B) (fuel : ℕ)
      → IsHistory l b
      → length (pending s b) < fuel
      → drain fuel s b ≡ pending s b
  drain-pending l s b fuel h k = drain_list l s b fuel (pending s b) h refl k

  -- A put makes its stamped record the last pending one of every stream that is not ahead.
  pub pending-put_record :
      (l : List Record) (s : Stream) (b : Backend B) (now : ℤ) (r : Record)
      → IsHistory l b
      → s.version ≤ b.last_version
      → b.last_version + 1 < 2 ^ 64
      → pending s (put_record b now r) ≡ pending s b ++ stamp b now r ∷ []
  unfolding pending
  pending-put_record l s b now r h k fits =
      let h' = put_record-IsHistory l b now r fits h in
      let from : ℕ = h.gone + (s.version - h.gone) in
      let since : get_since (put_record b now r) s.version
          ≡ get_since b s.version ++ stamp b now r ∷ [] =
        get_since-drop (l ++ stamp b now r ∷ []) (put_record b now r) s.version h'
        ∙ ap (λ g. drop (g + (s.version - g)) (l ++ stamp b now r ∷ []))
            (gone-put_record l b now r fits h)
        ∙ drop-append from l (stamp b now r ∷ []) (omega (arith, h.gone_le, h.count))
        ∙ ap (λ x. x ++ stamp b now r ∷ []) (sym (get_since-drop l b s.version h)) in
      ap (λ x. rest s.ready ++ x) since ∙ sym (append_assoc (rest s.ready) _ _)
