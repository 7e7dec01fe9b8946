-- ===== src/Ads/Cache.antt =====
-- `Ads::symbol_handle` asks for the handle of a symbol once.
use openstar_ads.Common.{
  ℕ, ◌≡◌, refl, sym, ap, ◌∙◌, [], ◌∷◌, Bool, Option, none, some, Bool-cases, inl, inr,
}
use openstar_ads.Error.{ok, err, panic}
use openstar_ads.Client.Commands.{Exchange}
use openstar_ads.Symbol.{Text, same_text}
use openstar_ads.Symbol.Values.Names.{same_text_refl}
use openstar_ads.Ads.{
  SymbolHandles, Ads, Step, get_handle, insert_handle, symbol_handle, get_symbol_handle, remember,
  or_ask,
}

get_handle-insert_handle :
    (symbol : Text) (handle : ℕ) (m : SymbolHandles)
    → get_handle symbol (insert_handle symbol handle m) ≡ some handle
unfolding get_handle insert_handle
get_handle-insert_handle symbol handle [] = rw (same_text_refl symbol) refl
get_handle-insert_handle symbol handle ((s, h) ∷ m) = elim (Bool-cases (same_text s symbol)) [
  | inl same ↦ rw (same, same) refl
  | inr other ↦ rw (other, other) (get_handle-insert_handle symbol handle m)
]

module _ {Chan : Type 0} (communicate : Exchange Chan) (port_opened : Bool) where
  remember-kept :
      (symbol : Text) (r : Step Chan ℕ) (ads : Ads Chan) (handle : ℕ)
      → remember symbol r ≡ (ads, ok handle)
      → get_handle symbol ads.symbol_handles ≡ some handle
  remember-kept symbol (before, ok h) ads handle e =
      let state : record before { symbol_handles = insert_handle symbol h before.symbol_handles }
          ≡ ads =
        ap (λ p. p.0) e in
      let same : h ≡ handle =
        ap (λ (p : Step Chan ℕ). elim p.1 [ ok x ↦ x | err e ↦ h | panic ↦ h ]) e in
      ap (λ a. get_handle symbol a.symbol_handles) (sym state)
      ∙ get_handle-insert_handle symbol h before.symbol_handles
      ∙ ap some same
  remember-kept symbol (before, err x) ads handle e = cc
  remember-kept symbol (before, panic) ads handle e = cc

  or_ask-kept :
      (before ads : Ads Chan) (symbol : Text) (handle : ℕ) (o : Option ℕ)
      → get_handle symbol before.symbol_handles ≡ o
      → or_ask communicate port_opened before symbol o ≡ (ads, ok handle)
      → get_handle symbol ads.symbol_handles ≡ some handle
  or_ask-kept before ads symbol handle (some h) there e =
      let state : before ≡ ads = ap (λ p. p.0) e in
      let same : h ≡ handle =
        ap (λ (p : Step Chan ℕ). elim p.1 [ ok x ↦ x | err e ↦ h | panic ↦ h ]) e in
      ap (λ a. get_handle symbol a.symbol_handles) (sym state) ∙ there ∙ ap some same
  or_ask-kept before ads symbol handle none there e =
      remember-kept symbol (get_symbol_handle communicate port_opened before symbol) ads handle e

  -- A handle that `symbol_handle` gives is the one that is kept for the symbol from then on: asked for
  -- again, it is given at once, whatever an exchange would do now, and nothing changes.
  pub symbol_handle-again :
      (before ads : Ads Chan) (symbol : Text) (handle : ℕ)
      → symbol_handle communicate port_opened before symbol ≡ (ads, ok handle)
      → (other : Exchange Chan) (opened : Bool)
      → symbol_handle other opened ads symbol ≡ (ads, ok handle)
  unfolding symbol_handle
  symbol_handle-again before ads symbol handle e other opened =
      rw (or_ask-kept before ads symbol handle (get_handle symbol before.symbol_handles) refl e)
        refl
