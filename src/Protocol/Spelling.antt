-- ===== src/Protocol/Spelling.antt =====
-- `AdsState::from_str` of src/core/protocol.rs, against the states' own names and numbers.
use openstar_ads.Common.{
  ℕ, zero, suc, ◌+◌, ◌≤◌, ◌<◌, ◌≡◌, ◌↔◌, ◌⊎◌, inl, inr, refl, sym, ap, ◌∙◌, List, [], ◌∷◌, Option,
  none, some, arith,
}
use openstar_ads.Protocol.{AdsState, state_code}
use openstar_ads.Protocol.Names.{lower_byte, lower, state_name, find_state, all_states, from_str}
use openstar_ads.NetId.{same_octets, same_octets_iff}

-- The names of the states as the enum `AdsState` spells them, in the order of their numbers.
abbrev pub spellings : List (List ℕ)
spellings =
    (b'I' ∷ b'n' ∷ b'v' ∷ b'a' ∷ b'l' ∷ b'i' ∷ b'd' ∷ [])
    ∷ (b'I' ∷ b'd' ∷ b'l' ∷ b'e' ∷ [])
    ∷ (b'R' ∷ b'e' ∷ b's' ∷ b'e' ∷ b't' ∷ [])
    ∷ (b'I' ∷ b'n' ∷ b'i' ∷ b't' ∷ [])
    ∷ (b'S' ∷ b't' ∷ b'a' ∷ b'r' ∷ b't' ∷ [])
    ∷ (b'R' ∷ b'u' ∷ b'n' ∷ [])
    ∷ (b'S' ∷ b't' ∷ b'o' ∷ b'p' ∷ [])
    ∷ (b'S' ∷ b'a' ∷ b'v' ∷ b'e' ∷ b'C' ∷ b'f' ∷ b'g' ∷ [])
    ∷ (b'L' ∷ b'o' ∷ b'a' ∷ b'd' ∷ b'C' ∷ b'f' ∷ b'g' ∷ [])
    ∷ (b'P' ∷ b'o' ∷ b'w' ∷ b'e' ∷ b'r' ∷ b'F' ∷ b'a' ∷ b'i' ∷ b'l' ∷ [])
    ∷ (b'P' ∷ b'o' ∷ b'w' ∷ b'e' ∷ b'r' ∷ b'G' ∷ b'o' ∷ b'o' ∷ b'd' ∷ [])
    ∷ (b'E' ∷ b'r' ∷ b'r' ∷ b'o' ∷ b'r' ∷ [])
    ∷ (b'S' ∷ b'h' ∷ b'u' ∷ b't' ∷ b'd' ∷ b'o' ∷ b'w' ∷ b'n' ∷ [])
    ∷ (b'S' ∷ b'u' ∷ b's' ∷ b'p' ∷ b'e' ∷ b'n' ∷ b'd' ∷ [])
    ∷ (b'R' ∷ b'e' ∷ b's' ∷ b'u' ∷ b'm' ∷ b'e' ∷ [])
    ∷ (b'C' ∷ b'o' ∷ b'n' ∷ b'f' ∷ b'i' ∷ b'g' ∷ [])
    ∷ (b'R' ∷ b'e' ∷ b'c' ∷ b'o' ∷ b'n' ∷ b'f' ∷ b'i' ∷ b'g' ∷ [])
    ∷ (b'S' ∷ b't' ∷ b'o' ∷ b'p' ∷ b'p' ∷ b'i' ∷ b'n' ∷ b'g' ∷ [])
    ∷ (b'I' ∷ b'n' ∷ b'c' ∷ b'o' ∷ b'm' ∷ b'p' ∷ b'a' ∷ b't' ∷ b'i' ∷ b'b' ∷ b'l' ∷ b'e' ∷ [])
    ∷ (b'E' ∷ b'x' ∷ b'c' ∷ b'e' ∷ b'p' ∷ b't' ∷ b'i' ∷ b'o' ∷ b'n' ∷ [])
    ∷ []

-- The spelling of the state of a number.
abbrev pub spelling : ℕ → List (List ℕ) → Option (List ℕ)
spelling n [] = none
spelling zero (name ∷ names) = some name
spelling (suc n) (name ∷ names) = spelling n names

-- One letter, in either case.
abbrev pub SameLetter : ℕ → ℕ → Type 0
SameLetter a b =
    (a ≡ b) ⊎ ((65 ≤ a) × (a ≤ 90) × (b ≡ a + 32)) ⊎ ((65 ≤ b) × (b ≤ 90) × (a ≡ b + 32))

-- One text, in letters of either case.
abbrev pub SameLetters : List ℕ → List ℕ → Type 0
SameLetters [] [] = Unit {0}
SameLetters [] (b ∷ t) = ⊥
SameLetters (a ∷ s) [] = ⊥
SameLetters (a ∷ s) (b ∷ t) = SameLetter a b × SameLetters s t

-- The text is the spelling of the state, in letters of either case.
abbrev pub Spells : List ℕ → AdsState → Type 0
Spells s state =
    (name : List ℕ) × (spelling (state_code state) spellings ≡ some name) × SameLetters s name

lower_byte_lem :
    (a : ℕ)
    → ((65 ≤ a) × (a ≤ 90) × (lower_byte a ≡ a + 32)) ⊎ (((a < 65) ⊎ (90 < a)) × (lower_byte a ≡ a))
lower_byte_lem a = ground arith

SameLetter-lower_byte : (a b : ℕ) → lower_byte a ≡ lower_byte b → SameLetter a b
SameLetter-lower_byte a b e = elim (lower_byte_lem a) [
  | inl (low, high, ea) ↦ elim (lower_byte_lem b) [
    | inl (low', high', eb) ↦ inl (omega (arith, ea, eb, e))
    | inr (small, eb) ↦ inr (inl (low, high, omega (arith, ea, eb, e)))
  ]
  | inr (small, ea) ↦ elim (lower_byte_lem b) [
    | inl (low, high, eb) ↦ inr (inr (low, high, omega (arith, ea, eb, e)))
    | inr (small', eb) ↦ inl (omega (arith, ea, eb, e))
  ]
]

lower_byte-SameLetter : (a b : ℕ) → SameLetter a b → lower_byte a ≡ lower_byte b
lower_byte-SameLetter a b (inl e) = ap lower_byte e
lower_byte-SameLetter a b (inr (inl (low, high, e))) = ground arith
lower_byte-SameLetter a b (inr (inr (low, high, e))) = ground arith

head_of : ℕ → List ℕ → ℕ
head_of a [] = a
head_of a (b ∷ t) = b

tail_of : List ℕ → List ℕ
tail_of [] = []
tail_of (b ∷ t) = t

SameLetters-lower : (s t : List ℕ) → lower s ≡ lower t → SameLetters s t
unfolding head_of tail_of
SameLetters-lower [] [] e = tt
SameLetters-lower [] (b ∷ t) e = cc
SameLetters-lower (a ∷ s) [] e = cc
SameLetters-lower (a ∷ s) (b ∷ t) e =
    (SameLetter-lower_byte a b (ap (head_of 0) e), SameLetters-lower s t (ap tail_of e))

lower-SameLetters : (s t : List ℕ) → SameLetters s t → lower s ≡ lower t
lower-SameLetters [] [] w = refl
lower-SameLetters [] (b ∷ t) w = absurd w
lower-SameLetters (a ∷ s) [] w = absurd w
lower-SameLetters (a ∷ s) (b ∷ t) w =
    rw (lower_byte-SameLetter a b w.0, lower-SameLetters s t w.1) refl

name_found : (state : AdsState) → find_state (state_name state) all_states ≡ some state
unfolding find_state state_name same_octets
name_found AdsState.invalid = refl
name_found AdsState.idle = refl
name_found AdsState.reset = refl
name_found AdsState.init = refl
name_found AdsState.start = refl
name_found AdsState.run = refl
name_found AdsState.stop = refl
name_found AdsState.save_cfg = refl
name_found AdsState.load_cfg = refl
name_found AdsState.power_fail = refl
name_found AdsState.power_good = refl
name_found AdsState.error = refl
name_found AdsState.shutdown = refl
name_found AdsState.suspend = refl
name_found AdsState.resume = refl
name_found AdsState.config = refl
name_found AdsState.reconfig = refl
name_found AdsState.stopping = refl
name_found AdsState.incompatible = refl
name_found AdsState.exception = refl

find_state_inv :
    (s : List ℕ) (states : List AdsState) (state : AdsState)
    → find_state s states ≡ some state
    → s ≡ state_name state
unfolding find_state
find_state_inv s [] state e = cc
find_state_inv s (x ∷ states) state e =
    ground (arith, same_octets_iff s (state_name x), find_state_inv s states state)

-- The text of each arm is the state's name in small letters.
arm_lem :
    (state : AdsState)
    → (name : List ℕ) × (spelling (state_code state) spellings ≡ some name)
      × (state_name state ≡ lower name)
unfolding state_name state_code
arm_lem AdsState.invalid = (_, refl, refl)
arm_lem AdsState.idle = (_, refl, refl)
arm_lem AdsState.reset = (_, refl, refl)
arm_lem AdsState.init = (_, refl, refl)
arm_lem AdsState.start = (_, refl, refl)
arm_lem AdsState.run = (_, refl, refl)
arm_lem AdsState.stop = (_, refl, refl)
arm_lem AdsState.save_cfg = (_, refl, refl)
arm_lem AdsState.load_cfg = (_, refl, refl)
arm_lem AdsState.power_fail = (_, refl, refl)
arm_lem AdsState.power_good = (_, refl, refl)
arm_lem AdsState.error = (_, refl, refl)
arm_lem AdsState.shutdown = (_, refl, refl)
arm_lem AdsState.suspend = (_, refl, refl)
arm_lem AdsState.resume = (_, refl, refl)
arm_lem AdsState.config = (_, refl, refl)
arm_lem AdsState.reconfig = (_, refl, refl)
arm_lem AdsState.stopping = (_, refl, refl)
arm_lem AdsState.incompatible = (_, refl, refl)
arm_lem AdsState.exception = (_, refl, refl)

-- `from_str` reads a text as a state exactly when the text is the name of this state, as the enum
-- spells it, in letters of either case.
pub from_str_iff : (s : List ℕ) (state : AdsState) → (from_str s ≡ some state) ↔ Spells s state
unfolding from_str
from_str_iff s state =
    let (name, place, arm) = arm_lem state in
    (
      (λ e.
          let small : lower s ≡ state_name state = find_state_inv (lower s) all_states state e in
          (name, place, SameLetters-lower s name (small ∙ arm))),
      (λ (other, place', same).
          let one : name ≡ other =
            ap (λ o. elim o [ some x ↦ x | none ↦ name ]) (sym place ∙ place') in
          let small : lower s ≡ state_name state =
            lower-SameLetters s other same ∙ ap lower (sym one) ∙ sym arm in
          ap (λ t. find_state t all_states) small ∙ name_found state),
    )
