-- ===== src/Client/Commands/Reads.antt =====
-- What the reading commands return for a reply, where the reply answers the request.
use openstar_ads.Common.{
  ℕ, ◌+◌, ◌-◌, ◌^◌, ◌<◌, ◌≡◌, ◌≢◌, refl, sym, ap, ◌∙◌, List, [], ◌∷◌, ◌++◌, ◌==◌, if◌then◌else◌,
  length, take, drop, replicate, min, arith, ==_iff, lt→ltb, length-append, drop-append_at,
  take-append_at, take_over, append-nil, ==_ne, drop_over, dec_lt,
}
use openstar_ads.Error.{Error, ok, err}
use openstar_ads.Wire.{le_value, le_bytes}
use openstar_ads.Wire.Laws.{length-le_bytes, le_value-le_bytes}
use openstar_ads.NetId.{AmsAddr}
use openstar_ads.Protocol.{AdsHeader, Command}
use openstar_ads.Client.{Client}
use openstar_ads.Client.Buffers.{distribute}
use openstar_ads.Client.Reply.{process_reply}
use openstar_ads.Client.Accepted.{Answers, process_reply-ok}
use openstar_ads.Client.Commands.{Exchange, read, read_exact}

-- An exchange that hands the caller the reply `h` with the payload `resp` to request `id`.
abbrev pub replying : {Chan : Type 0} → ℕ → AdsHeader → List ℕ → Exchange Chan
replying id h resp c cmd payload bufs = (c, process_reply c.target cmd id h resp bufs)

-- The payload of a reply to a read: no error, the length `n`, and the data.
abbrev pub read_payload : ℕ → List ℕ → List ℕ
read_payload n bytes = le_bytes 4 0 ++ (le_bytes 4 n ++ bytes)

-- The buffer after the data was written to it.
abbrev pub overlay : List ℕ → List ℕ → List ℕ
overlay bytes buf = take (length buf) bytes ++ drop (length bytes) buf

take-drop-min :
    (buf bytes : List ℕ)
    → let n = min (length buf) (length bytes) in take n bytes ++ drop n buf ≡ overlay bytes buf
take-drop-min buf bytes = elim (dec_lt (length buf) (length bytes)) [
  | yes h ↦
      let n : min (length buf) (length bytes) ≡ length buf = omega arith in
      rw (n, drop_over (length buf) buf (omega arith), drop_over (length bytes) buf (omega arith))
  | no h ↦
      let n : min (length buf) (length bytes) ≡ length bytes = omega arith in
      rw (
        n,
        take_over (length bytes) bytes (omega arith),
        take_over (length buf) bytes (omega arith),
      )
]

distribute_last : (bytes buf : List ℕ) → distribute bytes (buf ∷ []) ≡ overlay bytes buf ∷ []
unfolding distribute
distribute_last bytes buf = rw (take-drop-min buf bytes) (ground arith)

distribute_nil : (bufs : List (List ℕ)) → distribute [] bufs ≡ bufs
unfolding distribute
distribute_nil [] = refl
distribute_nil (buf ∷ bufs) = let n : min (length buf) 0 ≡ 0 = omega arith in rw n

-- A buffer that the front of the data fills.
distribute_front :
    (front bytes buf : List ℕ) (bufs : List (List ℕ))
    → length front ≡ length buf
    → distribute (front ++ bytes) (buf ∷ bufs) ≡ front ∷ distribute bytes bufs
unfolding distribute
distribute_front front bytes buf bufs h =
    let total = length-append front bytes in
    let n : min (length buf) (length (front ++ bytes)) ≡ length buf = omega arith in
    let left : length (front ++ bytes) - length buf ≡ length bytes = omega arith in
    rw
      (
        n,
        left,
        take-append_at (length buf) front bytes h,
        drop-append_at (length buf) front bytes h,
        drop_over (length buf) buf (omega arith),
        append-nil front,
      )
      (by_rest bytes)
  where
    by_rest :
        (bytes : List ℕ)
        → (if length bytes == 0 then front ∷ bufs else front ∷ distribute bytes bufs)
          ≡ front ∷ distribute bytes bufs
    by_rest [] = ap (λ r. front ∷ r) (sym (distribute_nil bufs))
    by_rest (b ∷ bytes) = rw (==_ne (length (b ∷ bytes)) 0 (λ p. absurd (omega arith)))

distribute_read :
    (n : ℕ) (bytes buf : List ℕ)
    → distribute (le_bytes 4 n ++ bytes) (replicate 4 0 ∷ buf ∷ [])
      ≡ le_bytes 4 n ∷ overlay bytes buf ∷ []
distribute_read n bytes buf =
    distribute_front (le_bytes 4 n) bytes (replicate 4 0) (buf ∷ []) (length-le_bytes 4 n)
    ∙ ap (λ r. le_bytes 4 n ∷ r) (distribute_last bytes buf)

-- What `communicate` makes of an answering reply to a read.
process_read :
    (c : AmsAddr) (cmd : Command) (id : ℕ) (h : AdsHeader) (n : ℕ) (bytes buf : List ℕ)
    → Answers c cmd id h
    → process_reply c cmd id h (read_payload n bytes) (replicate 4 0 ∷ buf ∷ [])
      ≡ ok (4 + length bytes, le_bytes 4 n ∷ overlay bytes buf ∷ [])
process_read c cmd id h n bytes buf a =
    let resp = read_payload n bytes in
    let four = length-le_bytes 4 in
    let size : length resp ≡ 8 + length bytes = omega (
      arith,
      length-append (le_bytes 4 0) (le_bytes 4 n ++ bytes),
      length-append (le_bytes 4 n) bytes,
      four 0,
      four n,
    ) in
    let rest : drop 4 resp ≡ le_bytes 4 n ++ bytes =
      drop-append_at 4 (le_bytes 4 0) (le_bytes 4 n ++ bytes) (four 0) in
    let zero_field : le_value (take 4 resp) ≡ 0 =
      ap le_value (take-append_at 4 (le_bytes 4 0) (le_bytes 4 n ++ bytes) (four 0))
      ∙ le_value-le_bytes 4 0 (omega arith) in
    let more : length (le_bytes 4 n ++ bytes) ≡ 4 + length bytes =
      omega (arith, length-append (le_bytes 4 n) bytes, four n) in
    (process_reply-ok c cmd id h resp (replicate 4 0 ∷ buf ∷ [])
        (4 + length bytes, le_bytes 4 n ∷ overlay bytes buf ∷ [])).1
      (a, omega arith, zero_field, (omega arith, rw (rest, more, distribute_read n bytes buf)))

module _ {Chan : Type 0} where
  -- A read that an error-free reply answers with the length `n` and some data: the caller gets `n`,
  -- and its buffer is overwritten by the data, as far as there is room and as far as there is data.
  -- `n` is the device's word for it: neither the data nor the buffer has to be of that length.
  pub read_lem :
      (c : Client Chan) (id : ℕ) (h : AdsHeader) (group offset n : ℕ) (bytes buf : List ℕ)
      → Answers c.target Command.read id h
      → length buf < 2 ^ 32
      → n < 2 ^ 32
      → read (replying id h (read_payload n bytes)) c group offset buf
        ≡ (c, ok (n, overlay bytes buf))
  unfolding read
  read_lem c id h group offset n bytes buf a room fits = rw (
    lt→ltb (length buf) (2 ^ 32) room,
    process_read c.target Command.read id h n bytes buf a,
    le_value-le_bytes 4 n (omega arith),
  )

  -- `read_exact` succeeds on such a reply exactly when the device's length is that of the buffer,
  -- with however much data came with it; any other length is an error that names it.
  pub read_exact_lem :
      (c : Client Chan) (id : ℕ) (h : AdsHeader) (group offset n : ℕ) (bytes buf : List ℕ)
      → Answers c.target Command.read id h
      → length buf < 2 ^ 32
      → n < 2 ^ 32
      → let outcome = read_exact (replying id h (read_payload n bytes)) c group offset buf in
        (n ≡ length buf → outcome ≡ (c, ok (overlay bytes buf)))
        × (n ≢ length buf
            → outcome ≡ (c, err (Error.reply "read data" "got less data than expected" n)))
  unfolding read_exact
  read_exact_lem c id h group offset n bytes buf a room fits =
      rw (read_lem c id h group offset n bytes buf a room fits)
        ((λ e. rw ((==_iff n (length buf)).1 e) refl), (λ e. rw (==_ne n (length buf) e) refl))
