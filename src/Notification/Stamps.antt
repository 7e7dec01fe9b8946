-- ===== src/Notification/Stamps.antt =====
-- The layout of a notification's stamps, on its own: what the loops of the library have to accept.
use openstar_ads.Common.{ℕ, ◌^◌, ◌<◌, List, [], ◌∷◌, ◌++◌, length, All}
use openstar_ads.Wire.{le_bytes}

-- The value of one handle.
pub record Entry : Type 0 where
  pub handle : ℕ
  pub payload : List ℕ

pub record Stamp : Type 0 where
  pub timestamp : ℕ
  pub entries : List Entry

pub record IsEntry (e : Entry) : Type 0 where
  pub handle_fits : e.handle < 256 ^ 4
  pub length_fits : length e.payload < 256 ^ 4

pub record IsStamp (s : Stamp) : Type 0 where
  pub timestamp_fits : s.timestamp < 256 ^ 8
  pub count_fits : length s.entries < 256 ^ 4
  pub entries_fit : All IsEntry s.entries

abbrev pub encode_entry : Entry → List ℕ → List ℕ
encode_entry e rest = le_bytes 4 e.handle ++ (le_bytes 4 (length e.payload) ++ (e.payload ++ rest))

-- The bytes of some entries, in front of `rest`.
unfoldable pub encode_entries : List Entry → List ℕ → List ℕ
encode_entries [] rest = rest
encode_entries (e ∷ es) rest = encode_entry e (encode_entries es rest)

unfoldable pub encode_stamps : List Stamp → List ℕ → List ℕ
encode_stamps [] rest = rest
encode_stamps (s ∷ ss) rest =
    le_bytes 8 s.timestamp
    ++ (le_bytes 4 (length s.entries) ++ encode_entries s.entries (encode_stamps ss rest))
