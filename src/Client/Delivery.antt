-- ===== src/Client/Delivery.antt =====
-- What the delivery of samples in src/core/client.rs does for each notification handle.
use openstar_ads.Common.{
  ℕ, ◌+◌, ◌≡◌, refl, sym, ap, ◌∙◌, inl, inr, List, [], ◌∷◌, Option, none, some, ◌==◌, if◌then◌else◌,
  Bool-cases, ==_iff, arith,
}
use openstar_ads.Common.Map.{get, insert, get-insert}
use openstar_ads.Notification.{Sample}
use openstar_ads.Client.Reader.{
  SendOutcome, accepted, full, closed, deliver, dropped_after, offer_to,
}

-- The payloads of the samples of a handle, in order.
abbrev pub payloads_of : ℕ → List Sample → List (List ℕ)
payloads_of j [] = []
payloads_of j (sample ∷ samples) =
    let rest = payloads_of j samples in if sample.handle == j then sample.payload ∷ rest else rest

-- How often a handle is in a list.
abbrev pub count : ℕ → List ℕ → ℕ
count j [] = 0
count j (k ∷ ks) = (if k == j then 1 else 0) + count j ks

abbrev pub one_if_closed : SendOutcome → ℕ
one_if_closed closed = 1
one_if_closed accepted = 0
one_if_closed full = 0

module _ {Chan : Type 0} (try_send : Chan → List ℕ → Chan × SendOutcome) where
  -- A subscriber's channel after it was offered some payloads in order, and how many of them it
  -- answered as its receiver was gone.
  abbrev pub offered : List (List ℕ) → Chan → Chan
  offered [] ch = ch
  offered (p ∷ ps) ch = offered ps (try_send ch p).0

  abbrev pub refused : List (List ℕ) → Chan → ℕ
  refused [] ch = 0
  refused (p ∷ ps) ch = one_if_closed (try_send ch p).1 + refused ps (try_send ch p).0

  -- What becomes of the subscriber of a handle, if there is one, and how often the reader asks to
  -- delete the handle.
  abbrev pub IsServed : List (List ℕ) → Option Chan → Option Chan → ℕ → Type 0
  IsServed ps none after asked = (after ≡ none) × (asked ≡ 0)
  IsServed ps (some ch) after asked = (after ≡ some (offered ps ch)) × (asked ≡ refused ps ch)

  -- Each handle is served with the payloads of its own samples.
  abbrev pub Delivers : List (ℕ × Chan) → List Sample → List (ℕ × Chan) → List ℕ → Type 0
  Delivers before samples after dropped =
      (j : ℕ) → IsServed (payloads_of j samples) (get j before) (get j after) (count j dropped)

  IsServed-none : (o : Option Chan) → IsServed [] o o 0
  IsServed-none none = (refl, refl)
  IsServed-none (some ch) = (refl, refl)

  count-dropped_after :
      (h j : ℕ) (outcome : SendOutcome) (dropped : List ℕ)
      → count j (dropped_after h outcome dropped)
        ≡ (if h == j then one_if_closed outcome else 0) + count j dropped
  count-dropped_after h j closed dropped = refl
  count-dropped_after h j accepted dropped = elim (Bool-cases (h == j)) [
    | inl e ↦ rw e (omega arith)
    | inr e ↦ rw e (omega arith)
  ]
  count-dropped_after h j full dropped = elim (Bool-cases (h == j)) [
    | inl e ↦ rw e (omega arith)
    | inr e ↦ rw e (omega arith)
  ]

  offer_to-IsServed :
      (later : List (ℕ × Chan) → List (ℕ × Chan) × List ℕ) (before : List (ℕ × Chan)) (s : Sample)
      (samples : List Sample) (j : ℕ) (o : Option Chan)
      → get s.handle before ≡ o
      → ((b : List (ℕ × Chan)) → Delivers b samples (later b).0 (later b).1)
      → IsServed
          (payloads_of j (s ∷ samples))
          (get j before)
          (get j (offer_to try_send later before s o).0)
          (count j (offer_to try_send later before s o).1)
  offer_to-IsServed later before s samples j none away more = elim (Bool-cases (s.handle == j)) [
    | inl same ↦
        let gone : get j before ≡ none =
          ap (λ k. get k before) (sym ((==_iff s.handle j).0 same)) ∙ away in
        rw (same, gone) (rw gone at (more before j))
    | inr other ↦ rw other (more before j)
  ]
  offer_to-IsServed later before s samples j (some ch) here more =
      let ch' = (try_send ch s.payload).0 in
      let outcome = (try_send ch s.payload).1 in
      let b = insert s.handle ch' before in
      elim (Bool-cases (s.handle == j)) [
        | inl same ↦
            let found : get j before ≡ some ch =
              ap (λ k. get k before) (sym ((==_iff s.handle j).0 same)) ∙ here in
            let put : get j b ≡ some ch' = get-insert s.handle j ch' before ∙ rw same refl in
            let (kept, asked) = rw put at (more b j) in
            rw (same, found)
              (kept, count-dropped_after s.handle j outcome (later b).1 ∙ rw (same, asked) refl)
        | inr other ↦
            let put : get j b ≡ get j before = get-insert s.handle j ch' before ∙ rw other refl in
            let asked : count j (dropped_after s.handle outcome (later b).1) ≡ count j (later b).1 =
              count-dropped_after s.handle j outcome (later b).1 ∙ rw other (omega arith) in
            rw (other, asked) (rw put at (more b j))
      ]

  pub deliver-Delivers :
      (samples : List Sample) (before : List (ℕ × Chan))
      → Delivers before samples
          (deliver try_send before samples).0
          (deliver try_send before samples).1
  unfolding deliver
  deliver-Delivers [] before j = IsServed-none (get j before)
  deliver-Delivers (s ∷ samples) before j =
      offer_to-IsServed (λ b. deliver try_send b samples) before s samples j (get s.handle before)
        refl (deliver-Delivers samples)
