-- ===== src/NetId/Split.antt =====
-- `str::split` at a character, and what undoes it.
use openstar_ads.Common.{
  ℕ, ◌≡◌, ◌≢◌, refl, ap, ◌∙◌, List, [], ◌∷◌, ◌++◌, if◌then◌else◌, ◌==◌, All, ==_ne, ==_refl,
  All-append,
}

-- Puts a character in front of the first piece.
abbrev pub onto_first : ℕ → List (List ℕ) → List (List ℕ)
onto_first c [] = (c ∷ []) ∷ []
onto_first c (p ∷ ps) = (c ∷ p) ∷ ps

-- The pieces between the separators; there is always one at least.
unfoldable pub split : ℕ → List ℕ → List (List ℕ)
split sep [] = [] ∷ []
split sep (c ∷ cs) = let rest = split sep cs in if c == sep then [] ∷ rest else onto_first c rest

-- `itertools::format` and `write!`: the pieces with the separator between them.
unfoldable pub join : ℕ → List (List ℕ) → List ℕ
join sep [] = []
join sep (p ∷ []) = p
join sep (p ∷ q ∷ ps) = p ++ (sep ∷ join sep (q ∷ ps))

abbrev pub Avoids : ℕ → List ℕ → Type 0
Avoids sep = All (λ c. c ≢ sep)

pub split_piece : (sep : ℕ) (p : List ℕ) → Avoids sep p → split sep p ≡ p ∷ []
unfolding split
split_piece sep [] h = refl
split_piece sep (c ∷ p) h = rw (==_ne c sep h.0, split_piece sep p h.1)

pub split-append :
    (sep : ℕ) (p rest : List ℕ) → Avoids sep p → split sep (p ++ (sep ∷ rest)) ≡ p ∷ split sep rest
unfolding split
split-append sep [] rest h = rw (==_refl sep)
split-append sep (c ∷ p) rest h = rw (==_ne c sep h.0, split-append sep p rest h.1)

-- Splitting what was joined gives the pieces.
pub split-join :
    (sep : ℕ) (p : List ℕ) (ps : List (List ℕ))
    → All (Avoids sep) (p ∷ ps)
    → split sep (join sep (p ∷ ps)) ≡ p ∷ ps
unfolding join
split-join sep p [] h = split_piece sep p h.0
split-join sep p (q ∷ ps) h =
    split-append sep p (join sep (q ∷ ps)) h.0 ∙ ap (λ r. p ∷ r) (split-join sep q ps h.1)

pub All-join {ℓ} :
    (P : ℕ → Type ℓ) (sep : ℕ) (ps : List (List ℕ)) → P sep → All (All P) ps → All P (join sep ps)
unfolding join
All-join P sep [] s h = tt
All-join P sep (p ∷ []) s h = h.0
All-join P sep (p ∷ q ∷ ps) s h = All-append P p _ h.0 (s, All-join P sep (q ∷ ps) s h.1)
