-- ===== src/Error/Search.antt =====
-- src/error.rs: `ads_error`, which finds the text of a code by binary search.
use openstar_ads.Common.{
  ℕ, zero, suc, ◌+◌, ◌-◌, ◌/◌, ◌<◌, ◌≤◌, ◌≡◌, refl, String, List, [], ◌∷◌, Option, none, some,
  get_elem?, length, ltb, ◌==◌, if◌then◌else◌, Bool, true, false, Bool-cases, inl, inr, arith, ◌⊎◌,
  ltb→lt, ltb_false→le, ==_iff, ==_refl, ◌≢◌, ◌∙◌, ap, sym, dec_lt,
}
use openstar_ads.Error.{Result, err, ads}
use openstar_ads.Error.Table.{ads_errors}

-- The key of an entry, as the search compares it; past the end of a table nothing is compared.
abbrev entry_above : Option (ℕ × String) → ℕ → Bool
entry_above none key = true
entry_above (some (k, text)) key = ltb key k

-- The loop of the standard library's `binary_search_by_key`: it halves `size` and leaves the one
-- place where the key may stand. The fuel is an upper bound of the rounds.
unfoldable pub search : List (ℕ × String) → ℕ → ℕ → ℕ → ℕ → ℕ
search table key zero base size = base
search table key (suc fuel) base size =
    let half = size / 2 in
    let next =
      search table key fuel
        (if entry_above (get_elem? table (base + half)) key then base else base + half)
        (size - half) in
    if ltb 1 size then next else base

-- The text at the place that was found, if the key stands there.
unfoldable pub text_at : Option (ℕ × String) → ℕ → String
text_at none key = "Unknown error code"
text_at (some (k, text)) key = if k == key then text else "Unknown error code"

-- `ads_error`.
unfoldable pub ads_error {ℓ} : {A : Type ℓ} → String → ℕ → Result A
ads_error action code =
    let place = search ads_errors code (length ads_errors) 0 (length ads_errors) in
    err (ads action (text_at (get_elem? ads_errors place) code) code)

-- The text of a code, by a walk through the table.
unfoldable pub known_text : List (ℕ × String) → ℕ → String
known_text [] key = "Unknown error code"
known_text ((k, text) ∷ table) key = if k == key then text else known_text table key

-- The keys grow along the table, all of them from `low` on.
abbrev Grows : ℕ → List (ℕ × String) → Type 0
Grows low [] = Unit {0}
Grows low ((k, text) ∷ table) = (low ≤ k) × Grows (suc k) table

Grows-get_elem? :
    (low : ℕ) (table : List (ℕ × String)) (i k : ℕ) (text : String)
    → Grows low table
    → get_elem? table i ≡ some (k, text)
    → low ≤ k
Grows-get_elem? low [] i k text g e = cc
Grows-get_elem? low ((k', t) ∷ table) zero k text g e = ground arith
Grows-get_elem? low ((k', t) ∷ table) (suc i) k text g e =
    omega (arith, Grows-get_elem? (suc k') table i k text g.1 e)

Grows-lt :
    (low : ℕ) (table : List (ℕ × String)) (i j k l : ℕ) (s t : String)
    → Grows low table
    → i < j
    → get_elem? table i ≡ some (k, s)
    → get_elem? table j ≡ some (l, t)
    → k < l
Grows-lt low [] i j k l s t g h e f = cc
Grows-lt low ((k', x) ∷ table) zero zero k l s t g h e f = absurd (omega arith)
Grows-lt low ((k', x) ∷ table) zero (suc j) k l s t g h e f =
    ground (arith, Grows-get_elem? (suc k') table j l t g.1 f)
Grows-lt low ((k', x) ∷ table) (suc i) zero k l s t g h e f = absurd (omega arith)
Grows-lt low ((k', x) ∷ table) (suc i) (suc j) k l s t g h e f =
    Grows-lt (suc k') table i j k l s t g.1 (omega arith) e f

-- So places are ordered as their keys are.
place_lt :
    (low : ℕ) (table : List (ℕ × String)) (i j k l : ℕ) (s t : String)
    → Grows low table
    → get_elem? table i ≡ some (k, s)
    → get_elem? table j ≡ some (l, t)
    → k < l
    → i < j
place_lt low table i j k l s t g e f h = elim (dec_lt i j) [
  | yes before ↦ before
  | no other ↦ elim (dec_lt j i) [
    | yes after ↦ absurd (omega (arith, Grows-lt low table j i l k t s g after f e))
    | no apart ↦ absurd (omega (arith, same (omega arith)))
  ]
]
  where
    same : i ≡ j → k ≡ l
    same p =
        let both : ◌≡◌ {A = Option (ℕ × String)} (some (k, s)) (some (l, t)) =
          sym e ∙ (ap (get_elem? table) p ∙ f) in
        cc

get_elem?-lt :
    (table : List (ℕ × String)) (i : ℕ)
    → i < length table
    → (k : ℕ) × (t : String) × (get_elem? table i ≡ some (k, t))
get_elem?-lt [] i h = absurd (omega arith)
get_elem?-lt ((k, t) ∷ table) zero h = (k, t, refl)
get_elem?-lt ((k, t) ∷ table) (suc i) h = get_elem?-lt table i (omega arith)

behind :
    (table : List (ℕ × String)) (low i key j k : ℕ) (s t : String)
    → Grows low table
    → get_elem? table i ≡ some (key, s)
    → get_elem? table j ≡ some (k, t)
    → k ≤ key
    → j ≤ i
behind table low i key j k s t g e f h = elim (dec_lt i j) [
  | yes before ↦ absurd (omega (arith, Grows-lt low table i j key k s t g before e f))
  | no other ↦ omega arith
]

-- The search closes in on the place of the key.
search_finds :
    (table : List (ℕ × String)) (low key i fuel base size : ℕ) (text : String)
    → Grows low table
    → get_elem? table i ≡ some (key, text)
    → base ≤ i
    → i < base + size
    → base + size ≤ length table
    → size ≤ suc fuel
    → search table key fuel base size ≡ i
unfolding search
search_finds table low key i zero base size text g e lo hi room short = omega arith
search_finds table low key i (suc fuel) base size text g e lo hi room short =
    elim (Bool-cases (ltb 1 size)) [
      | inl large ↦
          let wide : 1 < size = ltb→lt 1 size large in
          let (k, t, f) = get_elem?-lt table (base + size / 2) (omega arith) in
          rw (large, f)
            (elim (Bool-cases (ltb key k)) [
              | inl above ↦ rw above (
                  search_finds table low key i fuel base (size - size / 2) text g e lo
                    (omega (
                      arith,
                      place_lt low table i (base + size / 2) key k text t g e f
                          (ltb→lt key k above),
                    ))
                    (omega arith) (omega arith))
              | inr below ↦ rw below (
                  search_finds table low key i fuel (base + size / 2) (size - size / 2) text g e
                    (omega (
                      arith,
                      behind table low i key (base + size / 2) k text t g e f
                          (ltb_false→le key k below),
                    ))
                    (omega arith) (omega arith) (omega arith))
            ])
      | inr small ↦ rw small (omega (arith, ltb_false→le 1 size small))
    ]

Grows-mono :
    (low high : ℕ) (table : List (ℕ × String)) → low ≤ high → Grows high table → Grows low table
Grows-mono low high [] h g = tt
Grows-mono low high ((k, t) ∷ table) h g = (omega arith, g.1)

-- A walk either finds the key at some place, or no place has it.
walk :
    (low : ℕ) (table : List (ℕ × String)) (key : ℕ)
    → Grows low table
    → ((i : ℕ) × (i < length table) × (get_elem? table i ≡ some (key, known_text table key)))
      ⊎ ((known_text table key ≡ "Unknown error code")
          × ((i : ℕ) (t : String) → get_elem? table i ≢ some (key, t)))
unfolding known_text
walk low [] key g = inr (refl, λ i t e. cc)
walk low ((k, text) ∷ table) key g = elim (Bool-cases (k == key)) [
  | inl hit ↦ inl (0, omega arith, rw (hit, (==_iff k key).0 hit))
  | inr miss ↦ elim (walk (suc k) table key g.1) [
    | inl (i, room, e) ↦ inl (suc i, omega arith, rw miss e)
    | inr (unknown, nowhere) ↦ inr (rw miss unknown, further nowhere miss)
  ]
]
  where
    further :
        ((i : ℕ) (t : String) → get_elem? table i ≢ some (key, t))
        → (k == key) ≡ false
        → (i : ℕ) (t : String) → get_elem? ((k, text) ∷ table) i ≢ some (key, t)
    further nowhere miss zero t e = ground arith
    further nowhere miss (suc i) t e = nowhere i t e

-- At a place where the key does not stand, the text is the default.
text_at_absent :
    (o : Option (ℕ × String)) (key : ℕ)
    → ((t : String) → o ≢ some (key, t))
    → text_at o key ≡ "Unknown error code"
unfolding text_at
text_at_absent none key h = refl
text_at_absent (some (k, text)) key h = elim (Bool-cases (k == key)) [
  | inl hit ↦ absurd (h text (ground arith))
  | inr miss ↦ rw miss
]

text_at-search :
    (low : ℕ) (table : List (ℕ × String)) (key : ℕ)
    → Grows low table
    → text_at (get_elem? table (search table key (length table) 0 (length table))) key
      ≡ known_text table key
text_at-search low table key g = elim (walk low table key g) [
  | inl (i, room, e) ↦
      rw
        (
          search_finds table low key i (length table) 0 (length table) _ g e (omega arith)
              (omega arith) (omega arith) (omega arith),
          e,
        )
        (unfold text_at in rw (==_refl key))
  | inr (unknown, nowhere) ↦
      text_at_absent (get_elem? table (search table key (length table) 0 (length table))) key
        (nowhere _)
      ∙ sym unknown
]

ads_errors-Grows : Grows 1 ads_errors
ads_errors-Grows = omega arith

-- For every code, the binary search answers the text that the table has for it, and "Unknown error
-- code" where the table has none; the call always fails, with the action and the code.
pub ads_error_lem {ℓ} :
    {A : Type ℓ} (act : String) (code : ℕ)
    → ads_error {A = A} act code ≡ err (ads act (known_text ads_errors code) code)
unfolding ads_error
ads_error_lem act code =
    ap (λ text. err (ads act text code)) (text_at-search 1 ads_errors code ads_errors-Grows)
