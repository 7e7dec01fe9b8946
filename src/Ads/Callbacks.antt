-- ===== src/Ads/Callbacks.antt =====
-- The callbacks that `Ads` hands to `with_client` keep what every exchange of the client keeps.
use openstar_ads.Common.{ℕ, List, not, if◌then◌else◌, replicate, Bool-cases, inl, inr}
use openstar_ads.Error.{ok}
use openstar_ads.Protocol.{run, AdsStateInfo}
use openstar_ads.Client.{Client}
use openstar_ads.Client.Commands.{
  Outcome, Exchange, then_result, then_step, read_state, read_device_info, read_exact,
  write_control,
}
use openstar_ads.Client.Commands.Stable.{
  then_step-Stable, read_device_info-Stable, read_exact-Stable, read_state-Stable,
  write_control-Stable,
}
use openstar_ads.Connection.{is_run_mode, set_to_run_mode, check_run, tell_to_run, same_state}
use openstar_ads.Symbol.{Text, Symbol}
use openstar_ads.Symbol.Decode.{decode_symbol_info}
use openstar_ads.Symbol.Tree.{TypeMap}
use openstar_ads.Ads.Describe.{
  get_symbol_info, sym_upload_info2, sym_dt_upload, sym_upload, length_at, answer,
}
use openstar_ads.Ads.Handles.{Keeps}

module _ {Chan : Type 0} (communicate : Exchange Chan) where
  check_run-Keeps :
      (P : Client Chan → Type 0) (c : Client Chan) (info : AdsStateInfo)
      → P c
      → P (check_run communicate c info).0
  unfolding check_run
  check_run-Keeps P c info h = elim (Bool-cases (same_state info.ads_state run)) [
    | inl running ↦ rw running h
    | inr idle ↦ rw idle h
  ]

  tell_to_run-Keeps :
      (device_state : ℕ) → Keeps communicate (λ c. tell_to_run communicate c device_state)
  unfolding tell_to_run
  tell_to_run-Keeps device_state P stable c h =
      then_step-Stable stable (write_control communicate c run device_state)
        (λ c u. then_step (read_state communicate c) λ c info. check_run communicate c info)
        (write_control-Stable stable c run device_state h)
        λ c u hc.
          then_step-Stable stable (read_state communicate c)
            (λ c info. check_run communicate c info) (read_state-Stable stable c hc)
            (λ c info hd. check_run-Keeps P c info hd)

  pub is_run_mode-Keeps : Keeps communicate (is_run_mode communicate)
  unfolding is_run_mode
  is_run_mode-Keeps P stable c h = read_state-Stable stable c h

  pub set_to_run_mode-Keeps : Keeps communicate (set_to_run_mode communicate)
  unfolding set_to_run_mode
  set_to_run_mode-Keeps P stable c h =
      then_step-Stable stable (read_device_info communicate c)
        (λ c device_info. then_step (read_state communicate c) if_idle)
        (read_device_info-Stable stable c h)
        λ c device_info hc.
          then_step-Stable stable (read_state communicate c) if_idle (read_state-Stable stable c hc)
            if_idle-kept
    where
      if_idle : Client Chan → AdsStateInfo → Outcome Chan (Unit {0})
      if_idle c info =
          if not (same_state info.ads_state run)
          then tell_to_run communicate c info.device_state
          else (c, ok tt)

      if_idle-kept : (c : Client Chan) (info : AdsStateInfo) → P c → P (if_idle c info).0
      if_idle-kept c info h = elim (Bool-cases (same_state info.ads_state run)) [
        | inl running ↦ rw running h
        | inr idle ↦ rw idle (tell_to_run-Keeps info.device_state P stable c h)
      ]

  pub get_symbol_info-Keeps :
      (lossy : List ℕ → Text) → Keeps communicate (get_symbol_info communicate lossy)
  unfolding get_symbol_info
  get_symbol_info-Keeps lossy P stable c h =
      then_step-Stable stable (read_exact communicate c sym_upload_info2 0 (replicate 64 0)) types
        (read_exact-Stable stable c sym_upload_info2 0 (replicate 64 0) h)
        λ c read_data hc.
          then_step-Stable stable
            (read_exact communicate c sym_dt_upload 0 (replicate (length_at 12 read_data) 0))
            (symbols read_data)
            (read_exact-Stable stable c sym_dt_upload 0 (replicate (length_at 12 read_data) 0) hc)
            λ c type_data hd.
              read_exact-Stable stable c sym_upload 0 (replicate (length_at 4 read_data) 0) hd
    where
      symbols : List ℕ → Client Chan → List ℕ → Outcome Chan (List Symbol × TypeMap)
      symbols read_data c type_data =
          then_result (read_exact communicate c sym_upload 0 (replicate (length_at 4 read_data) 0))
            λ symbol_data. answer (decode_symbol_info lossy symbol_data type_data)

      types : Client Chan → List ℕ → Outcome Chan (List Symbol × TypeMap)
      types c read_data =
          then_step
            (read_exact communicate c sym_dt_upload 0 (replicate (length_at 12 read_data) 0))
            (symbols read_data)
