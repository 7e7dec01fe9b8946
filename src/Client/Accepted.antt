-- ===== src/Client/Accepted.antt =====
-- Which replies `communicate` takes, and what it makes of them.
use openstar_ads.Common.{
  ℕ, ◌+◌, ◌≤◌, ◌<◌, ◌≡◌, ◌≢◌, ◌↔◌, refl, List, [], ◌∷◌, length, take, drop, ltb, ◌==◌,
  if◌then◌else◌, arith, Bool-cases, inl, inr, ltb→lt, ltb_false→le, le→ltb, lt→ltb, ==_iff, ◌⊎◌,
}
use openstar_ads.Error.{Error, Result, ok, err, panic, >>=-eq-ok}
use openstar_ads.Error.Search.{ads_error, ads_error_lem}
use openstar_ads.Wire.{le_value, split_at}
use openstar_ads.NetId.{AmsAddr, same_addr_iff}
use openstar_ads.Protocol.{AdsHeader, Command, command_code, action}
use openstar_ads.Client.Buffers.{distribute}
use openstar_ads.Client.Reply.{source_of, check_header, hand_out, process_reply}

-- A header that answers request `id` of command `cmd` to `target`, without an error.
pub record Answers (target : AmsAddr) (cmd : Command) (id : ℕ) (h : AdsHeader) : Type 0 where
  pub from_target : source_of h ≡ target
  pub same_command : h.command ≡ command_code cmd
  pub is_response : h.state_flags ≡ 5
  pub same_id : h.invoke_id ≡ id
  pub no_error : h.error_code ≡ 0

check_header-Answers :
    (target : AmsAddr) (cmd : Command) (id : ℕ) (h : AdsHeader)
    → (check_header target cmd id h ≡ ok tt) ↔ Answers target cmd id h
unfolding check_header
check_header-Answers target cmd id h = ground (
  arith,
  same_addr_iff (source_of h) target,
  ads_error_lem {A = Unit {0}} (action cmd) h.error_code,
)

-- What a reply gives to a caller that wants no data, and to one with buffers.
abbrev pub Delivers : List ℕ → List (List ℕ) → ℕ × List (List ℕ) → Type 0
Delivers resp [] r = r ≡ (0, [])
Delivers resp (buf ∷ bufs) r =
    (length buf + 4 ≤ length resp)
    × (r ≡ (length (drop 4 resp), distribute (drop 4 resp) (buf ∷ bufs)))

hand_out-Delivers :
    (cmd : Command) (resp : List ℕ) (bufs : List (List ℕ)) (r : ℕ × List (List ℕ))
    → (hand_out cmd resp (drop 4 resp) bufs ≡ ok r) ↔ Delivers resp bufs r
unfolding hand_out
hand_out-Delivers cmd resp [] r = ((λ e. cc), (λ e. cc))
hand_out-Delivers cmd resp (buf ∷ bufs) r = elim (Bool-cases (ltb (length resp) (length buf + 4))) [
  | inl short ↦ rw short ((λ e. cc), (λ (room, e). absurd (omega (arith, ltb→lt _ _ short))))
  | inr long ↦ rw long ((λ e. (ltb_false→le _ _ long, cc)), (λ (room, e). cc))
]

field_step :
    (cmd : Command) (resp : List ℕ) (bufs : List (List ℕ)) (r : ℕ × List (List ℕ))
    → 4 ≤ length resp
    → ((if le_value (take 4 resp) == 0
          then hand_out cmd resp (drop 4 resp) bufs
          else ads_error (action cmd) (le_value (take 4 resp)))
        ≡ ok r)
      ↔ ((le_value (take 4 resp) ≡ 0) × Delivers resp bufs r)
field_step cmd resp bufs r room = elim (Bool-cases (le_value (take 4 resp) == 0)) [
  | inl zero_field ↦ rw zero_field (
    (λ e. ((==_iff _ _).0 zero_field, (hand_out-Delivers cmd resp bufs r).0 e)),
    (λ (z, d). (hand_out-Delivers cmd resp bufs r).1 d),
  )
  | inr code ↦
      rw (code, ads_error_lem (action cmd) (le_value (take 4 resp)))
        ((λ e. cc), (λ (z, d). ground arith))
]

-- `communicate` succeeds on a reply exactly when its header answers the request without an error,
-- its result field is there and is zero, and the data fills the first buffer, if there is one;
-- the data behind the result field is then dealt out to the buffers.
pub process_reply-ok :
    (target : AmsAddr) (cmd : Command) (id : ℕ) (h : AdsHeader) (resp : List ℕ)
    (bufs : List (List ℕ)) (r : ℕ × List (List ℕ))
    → (process_reply target cmd id h resp bufs ≡ ok r) ↔ (
        Answers target cmd id h
        × (4 ≤ length resp)
        × (le_value (take 4 resp) ≡ 0)
        × Delivers resp bufs r)
unfolding process_reply split_at
process_reply-ok target cmd id h resp bufs r = ((λ e. forward e), (λ a. backward a))
  where
    forward :
        process_reply target cmd id h resp bufs ≡ ok r
        → Answers target cmd id h
          × (4 ≤ length resp)
          × (le_value (take 4 resp) ≡ 0)
          × Delivers resp bufs r
    forward e =
        let (u, checked, e₁) = >>=-eq-ok (check_header target cmd id h) _ e in
        elim (Bool-cases (ltb (length resp) 4)) [
          | inl short ↦ cc (rw short at e₁)
          | inr long ↦
              let room = ltb_false→le (length resp) 4 long in
              let (z, d) = (field_step cmd resp bufs r room).0 (rw long at e₁) in
              ((check_header-Answers target cmd id h).0 checked, room, z, d)
        ]

    backward :
        Answers target cmd id h
          × (4 ≤ length resp)
          × (le_value (take 4 resp) ≡ 0)
          × Delivers resp bufs r
        → process_reply target cmd id h resp bufs ≡ ok r
    backward (a, room, z, d) =
        rw ((check_header-Answers target cmd id h).1 a, le→ltb (length resp) 4 room)
          ((field_step cmd resp bufs r room).1 (z, d))

check_header-cases :
    (target : AmsAddr) (cmd : Command) (id : ℕ) (h : AdsHeader)
    → (check_header target cmd id h ≡ ok tt)
      ⊎ ((e : Error) × (check_header target cmd id h ≡ err e))
check_header-cases target cmd id h = split_result (check_header target cmd id h) no_panic
  where
    no_panic : check_header target cmd id h ≢ panic
    no_panic =
        unfold check_header in
        ground (arith, ads_error_lem {A = Unit {0}} (action cmd) h.error_code)

    split_result : (r : Result (Unit {0})) → r ≢ panic → (r ≡ ok tt) ⊎ ((e : Error) × (r ≡ err e))
    split_result (ok u) n = inl refl
    split_result (err e) n = inr (e, refl)
    split_result panic n = absurd (n refl)

field-ne-panic :
    (cmd : Command) (resp : List ℕ) (bufs : List (List ℕ)) (code : ℕ)
    → (if code == 0 then hand_out cmd resp (drop 4 resp) bufs else ads_error (action cmd) code)
      ≢ panic
unfolding hand_out
field-ne-panic cmd resp [] code =
    ground (arith, ads_error_lem {A = ℕ × List (List ℕ)} (action cmd) code)
field-ne-panic cmd resp (buf ∷ bufs) code =
    ground (arith, ads_error_lem {A = ℕ × List (List ℕ)} (action cmd) code)

-- `communicate` panics on a reply exactly when the reply's header is in order and its payload is
-- shorter than the four bytes of the result field.
pub process_reply-panic :
    (target : AmsAddr) (cmd : Command) (id : ℕ) (h : AdsHeader) (resp : List ℕ)
    (bufs : List (List ℕ))
    → (process_reply target cmd id h resp bufs ≡ panic)
      ↔ (Answers target cmd id h × (length resp < 4))
unfolding process_reply split_at
process_reply-panic target cmd id h resp bufs = ((λ e. forward e), (λ a. backward a))
  where
    forward :
        process_reply target cmd id h resp bufs ≡ panic
        → Answers target cmd id h × (length resp < 4)
    forward e = elim (check_header-cases target cmd id h) [
      | inr (x, bad) ↦ cc (rw bad at e)
      | inl good ↦ elim (Bool-cases (ltb (length resp) 4)) [
        | inl short ↦ ((check_header-Answers target cmd id h).0 good, ltb→lt _ _ short)
        | inr long ↦
            absurd (field-ne-panic cmd resp bufs (le_value (take 4 resp)) (rw (good, long) at e))
      ]
    ]

    backward :
        Answers target cmd id h × (length resp < 4)
        → process_reply target cmd id h resp bufs ≡ panic
    backward (a, short) =
        rw ((check_header-Answers target cmd id h).1 a, lt→ltb (length resp) 4 short)
