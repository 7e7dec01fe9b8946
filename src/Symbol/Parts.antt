-- ===== src/Symbol/Parts.antt =====
-- The layout of the parts that entries share: lists, attributes, what a flag announces, sized entries.
use openstar_ads.Common.{
  ℕ, ◌+◌, ◌-◌, ◌^◌, ◌≤◌, ◌<◌, ◌≡◌, refl, ◌∙◌, String, List, [], ◌∷◌, ◌++◌, Bool, Option, none, some,
  All, length, map, arith, append_assoc, le→ltb, length-append, take-append_at, drop-append_at, ap,
}
use openstar_ads.Error.{Result, ok}
use openstar_ads.Wire.{le_bytes, split_at}
use openstar_ads.Wire.Laws.{read_uint_step}
use openstar_ads.Symbol.{Text, Attribute}
use openstar_ads.Symbol.Fields.{times, attribute, parse_attributes}
use openstar_ads.Symbol.Methods.{entry, optional}
use openstar_ads.Symbol.Format.{encode_text, encode_sized, read_text_step}
use openstar_ads.Client.{is_some}

-- Items one after the other, in front of `rest`.
unfoldable pub encode_all {ℓ} : {A : Type ℓ} → (A → List ℕ → List ℕ) → List A → List ℕ → List ℕ
encode_all enc [] rest = rest
encode_all enc (a ∷ xs) rest = enc a (encode_all enc xs rest)

unfoldable pub encode_attribute : Attribute → List ℕ → List ℕ
encode_attribute a rest =
    le_bytes 1 (length a.name)
    ++ (le_bytes 1 (length a.value) ++ encode_text a.name (encode_text a.value rest))

unfoldable pub encode_attributes : List Attribute → List ℕ → List ℕ
unfolding encode_all encode_attribute
encode_attributes attrs rest = le_bytes 2 (length attrs) ++ encode_all encode_attribute attrs rest

abbrev pub encode_optional {ℓ} : {A : Type ℓ} → (A → List ℕ → List ℕ) → Option A → List ℕ → List ℕ
encode_optional enc none rest = rest
encode_optional enc (some a) rest = enc a rest

abbrev pub map_option {ℓ κ} : {A : Type ℓ} {B : Type κ} → (A → B) → Option A → Option B
map_option f none = none
map_option f (some a) = some (f a)

abbrev pub IsOptional {ℓ} : {A : Type ℓ} → (A → Type 0) → Option A → Type 0
IsOptional P none = Unit {0}
IsOptional P (some a) = P a

-- Items one after the other are read back, as what `f` makes of each.
pub times-encode_all {ℓ κ} :
    {A : Type ℓ} {X : Type κ} (P : X → Type 0) (item : List ℕ → Result (A × List ℕ))
    (enc : X → List ℕ → List ℕ) (f : X → A) (xs : List X) (rest : List ℕ)
    → ((x : X) (more : List ℕ) → P x → item (enc x more) ≡ ok (f x, more))
    → All P xs
    → times item (length xs) (encode_all enc xs rest) ≡ ok (map f xs, rest)
unfolding times encode_all
times-encode_all P item enc f [] rest h w = refl
times-encode_all P item enc f (x ∷ xs) rest h w =
    rw (h x (encode_all enc xs rest) w.0, times-encode_all P item enc f xs rest h w.1) refl

pub map-id {ℓ} : {A : Type ℓ} (xs : List A) → map (λ x. x) xs ≡ xs
map-id [] = refl
map-id (x ∷ xs) = ap (λ ys. x ∷ ys) (map-id xs)

pub optional-encode_optional {ℓ κ} :
    {A : Type ℓ} {B : Type κ} (P : A → Type 0) (part : List ℕ → Result (B × List ℕ))
    (enc : A → List ℕ → List ℕ) (f : A → B) (flag : Bool) (o : Option A) (rest : List ℕ)
    → ((a : A) → P a → part (enc a rest) ≡ ok (f a, rest))
    → flag ≡ is_some o
    → IsOptional P o
    → optional flag part (encode_optional enc o rest) ≡ ok (map_option f o, rest)
unfolding optional
optional-encode_optional P part enc f flag none rest h e w = rw e refl
optional-encode_optional P part enc f flag (some a) rest h e w = rw (e, h a w) refl

pub map_option-id {ℓ} : {A : Type ℓ} (o : Option A) → map_option (λ a. a) o ≡ o
map_option-id none = refl
map_option-id (some a) = refl

-- An entry that begins with its length is read back.
pub entry-append {ℓ} :
    {A : Type ℓ} (ctx what : String) (part : List ℕ → Result A) (body rest : List ℕ) (a : A)
    → 4 + length body < 256 ^ 4
    → part body ≡ ok a
    → entry ctx what part (le_bytes 4 (4 + length body) ++ (body ++ rest)) ≡ ok (a, rest)
unfolding entry split_at
entry-append ctx what part body rest a fits e =
    let size : 4 + length body - 4 ≡ length body = omega arith in
    read_uint_step ctx 4 (4 + length body) _ _ fits
    ∙ rw (
      le→ltb (4 + length body) 4 (omega arith),
      size,
      le→ltb (length (body ++ rest)) (length body) (omega (arith, length-append body rest)),
      take-append_at (length body) body rest refl,
      drop-append_at (length body) body rest refl,
      e,
    )

-- What the entries behind their lengths say, where each is read back.
pub times-encode_sized {ℓ κ} :
    {A : Type ℓ} {X : Type κ} (P : X → Type 0) (item : List ℕ → Result (A × List ℕ))
    (enc : X → List ℕ) (f : X → A) (xs : List X) (rest : List ℕ)
    → ((x : X) (more : List ℕ)
        → P x
        → item (le_bytes 4 (4 + length (enc x)) ++ (enc x ++ more)) ≡ ok (f x, more))
    → All P xs
    → times item (length xs) (encode_sized (map enc xs) ++ rest) ≡ ok (map f xs, rest)
unfolding times encode_sized
times-encode_sized P item enc f [] rest h w = refl
times-encode_sized P item enc f (x ∷ xs) rest h w =
    let body = enc x in
    let more = encode_sized (map enc xs) in
    rw
      (
        append_assoc (le_bytes 4 (4 + length body)) (body ++ more) rest,
        append_assoc body more rest,
        h x (more ++ rest) w.0,
        times-encode_sized P item enc f xs rest h w.1,
      )
      refl

module _ (lossy : List ℕ → Text) where
  -- A text that a length of one or two bytes describes, in a buffer of `cap` bytes.
  pub record IsText (cap : ℕ) (s : Text) : Type 0 where
    pub room : length s + 1 ≤ cap
    pub utf8 : lossy s ≡ s

  pub record IsAttribute (a : Attribute) : Type 0 where
    pub name_fits : IsText 256 a.name
    pub value_fits : IsText 256 a.value

  pub record IsAttributes (attrs : List Attribute) : Type 0 where
    pub count_fits : length attrs < 256 ^ 2
    pub each : All IsAttribute attrs

module _ (lossy : List ℕ → Text) where
  attribute-encode_attribute :
      (a : Attribute) (rest : List ℕ)
      → IsAttribute lossy a
      → attribute lossy (encode_attribute a rest) ≡ ok (a, rest)
  unfolding attribute encode_attribute
  attribute-encode_attribute a rest w =
      let ctx : String = "parsing attributes" in
      read_uint_step ctx 1 (length a.name) _ _ (omega (arith, w.name_fits.room))
      ∙ read_uint_step ctx 1 (length a.value) _ _ (omega (arith, w.value_fits.room))
      ∙ read_text_step lossy 256 ctx a.name _ _ w.name_fits.room w.name_fits.utf8
      ∙ read_text_step lossy 256 ctx a.value _ _ w.value_fits.room w.value_fits.utf8

  -- The attributes of a type or a field are read back from their encoding.
  pub parse_attributes-encode_attributes :
      (attrs : List Attribute) (rest : List ℕ)
      → IsAttributes lossy attrs
      → parse_attributes lossy (encode_attributes attrs rest) ≡ ok (attrs, rest)
  unfolding parse_attributes encode_attributes
  parse_attributes-encode_attributes attrs rest w =
      read_uint_step "parsing attributes" 2 (length attrs) _ _ w.count_fits
      ∙ times-encode_all (IsAttribute lossy) (attribute lossy) encode_attribute (λ a. a) attrs rest
          attribute-encode_attribute w.each
      ∙ ap (λ xs. ok (xs, rest)) (map-id attrs)

  -- Attributes that a flag announces.
  pub optional_attributes :
      (flag : Bool) (attrs : Option (List Attribute)) (rest : List ℕ)
      → flag ≡ is_some attrs
      → IsOptional (IsAttributes lossy) attrs
      → optional flag (parse_attributes lossy) (encode_optional encode_attributes attrs rest)
        ≡ ok (attrs, rest)
  optional_attributes flag attrs rest e w =
      optional-encode_optional (IsAttributes lossy) (parse_attributes lossy) encode_attributes
        (λ a. a) flag attrs rest (λ a. parse_attributes-encode_attributes a rest) e w
      ∙ rw (map_option-id attrs)
