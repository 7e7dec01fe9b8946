-- ===== src/Protocol/Names.antt =====
-- src/core/protocol.rs: the names of the ADS states, and `AdsState::from_str`.
use openstar_ads.Common.{ℕ, ◌+◌, List, [], ◌∷◌, ◌&&◌, Option, none, some, leb, if◌then◌else◌}
use openstar_ads.Protocol.{AdsState}
use openstar_ads.NetId.{same_octets}

-- `to_ascii_lowercase`.
abbrev pub lower_byte : ℕ → ℕ
lower_byte b = if leb 65 b && leb b 90 then b + 32 else b

abbrev pub lower : List ℕ → List ℕ
lower [] = []
lower (b ∷ s) = lower_byte b ∷ lower s

-- The name that the table has for a state.
unfoldable pub state_name : AdsState → List ℕ
state_name AdsState.invalid = b'i' ∷ b'n' ∷ b'v' ∷ b'a' ∷ b'l' ∷ b'i' ∷ b'd' ∷ []
state_name AdsState.idle = b'i' ∷ b'd' ∷ b'l' ∷ b'e' ∷ []
state_name AdsState.reset = b'r' ∷ b'e' ∷ b's' ∷ b'e' ∷ b't' ∷ []
state_name AdsState.init = b'i' ∷ b'n' ∷ b'i' ∷ b't' ∷ []
state_name AdsState.start = b's' ∷ b't' ∷ b'a' ∷ b'r' ∷ b't' ∷ []
state_name AdsState.run = b'r' ∷ b'u' ∷ b'n' ∷ []
state_name AdsState.stop = b's' ∷ b't' ∷ b'o' ∷ b'p' ∷ []
state_name AdsState.save_cfg = b's' ∷ b'a' ∷ b'v' ∷ b'e' ∷ b'c' ∷ b'f' ∷ b'g' ∷ []
state_name AdsState.load_cfg = b'l' ∷ b'o' ∷ b'a' ∷ b'd' ∷ b'c' ∷ b'f' ∷ b'g' ∷ []
state_name AdsState.power_fail = b'p' ∷ b'o' ∷ b'w' ∷ b'e' ∷ b'r' ∷ b'f' ∷ b'a' ∷ b'i' ∷ b'l' ∷ []
state_name AdsState.power_good = b'p' ∷ b'o' ∷ b'w' ∷ b'e' ∷ b'r' ∷ b'g' ∷ b'o' ∷ b'o' ∷ b'd' ∷ []
state_name AdsState.error = b'e' ∷ b'r' ∷ b'r' ∷ b'o' ∷ b'r' ∷ []
state_name AdsState.shutdown = b's' ∷ b'h' ∷ b'u' ∷ b't' ∷ b'd' ∷ b'o' ∷ b'w' ∷ b'n' ∷ []
state_name AdsState.suspend = b's' ∷ b'u' ∷ b's' ∷ b'p' ∷ b'e' ∷ b'n' ∷ b'd' ∷ []
state_name AdsState.resume = b'r' ∷ b'e' ∷ b's' ∷ b'u' ∷ b'm' ∷ b'e' ∷ []
state_name AdsState.config = b'c' ∷ b'o' ∷ b'n' ∷ b'f' ∷ b'i' ∷ b'g' ∷ []
state_name AdsState.reconfig = b'r' ∷ b'e' ∷ b'c' ∷ b'o' ∷ b'n' ∷ b'f' ∷ b'i' ∷ b'g' ∷ []
state_name AdsState.stopping = b's' ∷ b't' ∷ b'o' ∷ b'p' ∷ b'p' ∷ b'i' ∷ b'n' ∷ b'g' ∷ []
state_name AdsState.incompatible =
    b'i' ∷ b'n' ∷ b'c' ∷ b'o' ∷ b'm' ∷ b'p' ∷ b'a' ∷ b't' ∷ b'i' ∷ b'b' ∷ b'l' ∷ b'e' ∷ []
state_name AdsState.exception = b'e' ∷ b'x' ∷ b'c' ∷ b'e' ∷ b'p' ∷ b't' ∷ b'i' ∷ b'o' ∷ b'n' ∷ []

-- The arms of the `match`, from the first to the last; `none` is `Err("invalid state name")`.
unfoldable pub find_state : List ℕ → List AdsState → Option AdsState
unfolding state_name
find_state s [] = none
find_state s (state ∷ states) =
    let later = find_state s states in
    if same_octets s (state_name state) then some state else later

abbrev pub all_states : List AdsState
all_states =
    AdsState.invalid ∷ AdsState.idle ∷ AdsState.reset ∷ AdsState.init ∷ AdsState.start
    ∷ AdsState.run ∷ AdsState.stop ∷ AdsState.save_cfg ∷ AdsState.load_cfg ∷ AdsState.power_fail
    ∷ AdsState.power_good ∷ AdsState.error ∷ AdsState.shutdown ∷ AdsState.suspend ∷ AdsState.resume
    ∷ AdsState.config ∷ AdsState.reconfig ∷ AdsState.stopping ∷ AdsState.incompatible
    ∷ AdsState.exception ∷ []

-- `AdsState::from_str`.
unfoldable pub from_str : List ℕ → Option AdsState
unfolding find_state
from_str s = find_state (lower s) all_states
