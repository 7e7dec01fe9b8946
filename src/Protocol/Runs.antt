-- ===== src/Protocol/Runs.antt =====
-- An example of a state's name.
use openstar_ads.Common.{◌≡◌, ◌↔◌, [], ◌∷◌, some}
use openstar_ads.Protocol.{AdsState}
use openstar_ads.Protocol.Names.{from_str}
use openstar_ads.Protocol.Spelling.{Spells, from_str_iff}

from_str_iff_example :
    (from_str (b's' ∷ b'A' ∷ b'V' ∷ b'e' ∷ b'C' ∷ b'f' ∷ b'g' ∷ []) ≡ some AdsState.save_cfg)
    ↔ Spells (b's' ∷ b'A' ∷ b'V' ∷ b'e' ∷ b'C' ∷ b'f' ∷ b'g' ∷ []) AdsState.save_cfg
from_str_iff_example =
    from_str_iff (b's' ∷ b'A' ∷ b'V' ∷ b'e' ∷ b'C' ∷ b'f' ∷ b'g' ∷ []) AdsState.save_cfg
