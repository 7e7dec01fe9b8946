-- ===== src/Client/Notify.antt =====
-- One round of the reader on a notification: delivery to the subscribers, and the panic on a payload
-- that is too short for its length field.
use openstar_ads.Common.{
  ℕ, ◌+◌, ◌-◌, ◌^◌, ◌≤◌, ◌<◌, ◌≡◌, ◌≢◌, ◌↔◌, inl, inr, refl, sym, ◌∙◌, List, [], ◌++◌, Bool, true,
  false, not, ◌||◌, ltb, ◌==◌, if◌then◌else◌, length, take, arith, All, length-append, Bool-cases,
  le→ltb, ltb→lt, ltb_false→le, ==_iff, drop-append_at, drop-append_ge, All-append,
}
use openstar_ads.Error.{Result, ok, err, panic, ◌>>=◌}
use openstar_ads.Wire.{IsByte, le_value, le_bytes, split_at}
use openstar_ads.Wire.Laws.{le_value-le_bytes, length-le_bytes}
use openstar_ads.NetId.{AmsAddr, same_addr, same_addr_iff}
use openstar_ads.Protocol.{AdsHeader, IsHeader, command_code, header_bytes}
use openstar_ads.Protocol.Codec.{length-header_bytes, header_bytes-IsByte}
use openstar_ads.Notification.{new}
use openstar_ads.Notification.Stamps.{Stamp, IsStamp, encode_stamps}
use openstar_ads.Notification.Iterate.{stamp_samples, split_at-append}
use openstar_ads.Notification.Correct.{Holds, complete, samples_Holds, all_samples-new}
use openstar_ads.Notification.Total.{new_answers}
use openstar_ads.Client.{Shared}
use openstar_ads.Client.Reader.{
  SendOutcome, Turn, dest_of, unchanged, deliver, publish, dispatch, notify, receive,
}
use openstar_ads.Client.Delivery.{Delivers, deliver-Delivers}
use openstar_ads.Client.Receive.{IsPacket, receive-dispatch, same_dest}

-- The payload of a notification, behind its length field.
abbrev pub stamps_body : List Stamp → List ℕ
stamps_body ss = le_bytes 4 (length ss) ++ encode_stamps ss []

abbrev pub stamps_payload : List Stamp → List ℕ
stamps_payload ss = le_bytes 4 (length (stamps_body ss)) ++ stamps_body ss

length-stamps_payload : (ss : List Stamp) → length (stamps_payload ss) ≡ 4 + length (stamps_body ss)
length-stamps_payload ss = omega (
  arith,
  length-append (le_bytes 4 (length (stamps_body ss))) (stamps_body ss),
  length-le_bytes 4 (length (stamps_body ss)),
)

payload-Holds :
    (h : AdsHeader) (ss : List Stamp)
    → IsHeader h
    → All IsStamp ss
    → length ss < 256 ^ 4
    → Holds (header_bytes h ++ stamps_payload ss) ss
payload-Holds h ss w fit count =
    let size = length-header_bytes h w in
    let body_len : 4 ≤ length (stamps_body ss) = omega (
      arith,
      length-append (le_bytes 4 (length ss)) (encode_stamps ss []),
      length-le_bytes 4 (length ss),
    ) in
    (
      omega (
        arith,
        size,
        length-append (header_bytes h) (stamps_payload ss),
        length-stamps_payload ss,
      ),
      drop-append_ge 42 (header_bytes h) (stamps_payload ss) (omega (arith, size))
          ∙ rw size
              (drop-append_at 4 _ (stamps_body ss) (length-le_bytes 4 (length (stamps_body ss)))),
      count,
      fit,
    )

module _ {Chan : Type 0} (try_send : Chan → List ℕ → Chan × SendOutcome) where
  -- A notification for the client reaches its subscribers: the subscriber of each handle is offered
  -- the payloads of the samples of that handle, in the order of the message, and no other; each
  -- offer that is answered as the receiver is gone makes the reader ask once for the deletion of the
  -- handle. Handles without a subscriber get none, and pending requests are left alone.
  pub receive_notification :
      (source : AmsAddr) (s : Shared Chan) (h : AdsHeader) (ss : List Stamp) (rest : List ℕ)
      → IsPacket h (stamps_payload ss)
      → dest_of h ≡ source
      → h.command ≡ 8
      → h.state_flags ≡ 4
      → h.error_code ≡ 0
      → All IsStamp ss
      → length ss < 256 ^ 4
      → (subscribers : List (ℕ × Chan)) × (dropped : List ℕ) × (receive try_send source s
            (header_bytes h ++ (stamps_payload ss ++ rest))
          ≡ ok (
            record {
              shared = record s { subscribers = subscribers };
              replies = [];
              unsubscribe = dropped;
            },
            rest,
          ))
        × Delivers try_send s.subscribers (stamp_samples ss) subscribers dropped
  unfolding dispatch command_code
  receive_notification source s h ss rest p ours is_notif flags clean fit count =
      let body = stamps_body ss in
      let total = length-stamps_payload ss in
      let body_len : 4 ≤ length body = omega (
        arith,
        length-append (le_bytes 4 (length ss)) (encode_stamps ss []),
        length-le_bytes 4 (length ss),
      ) in
      let data_len : h.data_length - 4 ≡ length body = omega (arith, total, p.complete) in
      let holds = payload-Holds h ss p.fits fit count in
      let after = deliver try_send s.subscribers (stamp_samples ss) in
      (
        after.0,
        after.1,
        rw
            (
              receive-dispatch try_send source s h (stamps_payload ss) rest p,
              ours,
              same_dest source,
              (==_iff h.command 8).1 is_notif,
              split_at-append 4 (le_bytes 4 (length body)) body (length-le_bytes 4 (length body)),
              le_value-le_bytes 4 (length body)
                  (omega (arith, total, p.complete, p.fits.data_length_fits)),
              (==_iff h.state_flags 4).1 flags,
              (==_iff h.error_code 0).1 clean,
              (==_iff (length body) (h.data_length - 4)).1 (sym data_len),
              le→ltb (length body) 4 body_len,
              complete (header_bytes h ++ stamps_payload ss) ss holds,
              samples_Holds (header_bytes h ++ stamps_payload ss) ss holds,
            )
            refl,
        deliver-Delivers try_send (stamp_samples ss) s.subscribers,
      )

  publish-ne-panic :
      (s : Shared Chan) (msg : List ℕ) → All IsByte msg → publish try_send s (new msg) ≢ panic
  unfolding publish
  publish-ne-panic s msg b = elim (new_answers msg) [
    | inr e ↦ rw e (λ p. cc)
    | inl (n, e) ↦ let (ss, holds, run) = all_samples-new msg n b e in rw (e, run) (λ p. cc)
  ]

  notify-panic :
      (s : Shared Chan) (h : AdsHeader) (payload : List ℕ)
      → All IsByte (header_bytes h ++ payload)
      → (notify try_send s (header_bytes h) h payload ≡ panic) ↔ (length payload < 4)
  unfolding notify split_at
  notify-panic s h payload b = elim (Bool-cases (ltb (length payload) 4)) [
    | inl short ↦ rw short ((λ e. ltb→lt _ _ short), (λ e. refl))
    | inr long ↦ rw long (
      (λ e. absurd (
          checked
            (not (h.state_flags == 4)
              || not (h.error_code == 0)
              || not (le_value (take 4 payload) == (h.data_length - 4))
              || ltb (le_value (take 4 payload)) 4)
            e)),
      (λ e. absurd (omega (arith, ltb_false→le _ _ long))),
    )
  ]
    where
      checked :
          (test : Bool)
          → (if test
              then ok (unchanged s)
              else publish try_send s (new (header_bytes h ++ payload)))
            ≢ panic
      checked true e = cc
      checked false e = publish-ne-panic s (header_bytes h ++ payload) b e

  -- The reader panics on a whole packet exactly when it is a notification for the client whose
  -- payload is shorter than the four bytes of its length field.
  pub receive-panic :
      (source : AmsAddr) (s : Shared Chan) (h : AdsHeader) (payload rest : List ℕ)
      → IsPacket h payload
      → All IsByte payload
      → (receive try_send source s (header_bytes h ++ (payload ++ rest)) ≡ panic)
        ↔ ((dest_of h ≡ source) × (h.command ≡ 8) × (h.data_length < 4))
  unfolding dispatch command_code
  receive-panic source s h payload rest p b =
      rw (receive-dispatch try_send source s h payload rest p)
        (elim (Bool-cases (same_addr (dest_of h) source)) [
          | inr other ↦ rw other (
            (λ e. cc),
            (λ (ours, cmd, short). cc ((same_addr_iff (dest_of h) source).1 ours, other)),
          )
          | inl ours ↦ elim (Bool-cases (h.command == 8)) [
            | inr reply_cmd ↦
                rw (ours, reply_cmd)
                  ((λ e. cc), (λ (same, cmd, short). cc ((==_iff h.command 8).1 cmd, reply_cmd)))
            | inl is_notif ↦
                rw (ours, is_notif)
                  (
                    (λ e. (
                      (same_addr_iff _ _).0 ours,
                      (==_iff h.command 8).0 is_notif,
                      rw (sym p.complete) ((notify-panic s h payload whole).0 (bound _ e)),
                    )),
                    (λ (same, cmd, short).
                        rw ((notify-panic s h payload whole).1 (rw p.complete short))),
                  )
          ]
        ])
    where
      whole : All IsByte (header_bytes h ++ payload)
      whole = All-append IsByte (header_bytes h) payload (header_bytes-IsByte h p.fits) b

      bound :
          (m : Result (Turn Chan))
          → ◌>>=◌ {B = Turn Chan × List ℕ} m (λ t. ok (t, rest)) ≡ panic
          → m ≡ panic
      bound (ok a) e = cc
      bound (err x) e = cc
      bound panic e = refl
