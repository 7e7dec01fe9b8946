-- ===== src/Client/Receive.antt =====
-- One round of the reader on a whole packet, for each kind of packet.
use openstar_ads.Common.{
  ℕ, ◌+◌, ◌-◌, ◌≤◌, ◌≡◌, ◌≢◌, inl, inr, refl, sym, ap, ◌∙◌, List, [], ◌∷◌, ◌++◌, true, false, none,
  some, length, take, drop, arith, take-append-drop, append_assoc, length-take, length-drop, le→ltb,
  ==_refl, ==_ne, Bool-cases,
}
use openstar_ads.Common.Map.{get, remove}
use openstar_ads.Error.{ok, ◌>>=◌}
use openstar_ads.Wire.{le_value, le_bytes}
use openstar_ads.Wire.Laws.{le_value-le_bytes, read_exact-append}
use openstar_ads.NetId.{AmsAddr, same_addr, same_addr_iff}
use openstar_ads.Protocol.{AdsHeader, IsHeader, command_code, header_bytes}
use openstar_ads.Protocol.Codec.{read_header-header_bytes}
use openstar_ads.Client.{Shared}
use openstar_ads.Client.Reader.{
  SendOutcome, frame, read_frame, dest_of, unchanged, dispatch, receive,
}

packet_len_field :
    (h : AdsHeader)
    → IsHeader h
    → le_value (take 4 (drop 2 (take 6 (header_bytes h)))) ≡ h.packet_length
unfolding header_bytes le_bytes
packet_len_field h w = le_value-le_bytes 4 h.packet_length w.length_fits

reserved_field : (h : AdsHeader) → IsHeader h → le_value (take 2 (header_bytes h)) ≡ h.ams_cmd
unfolding header_bytes le_bytes
reserved_field h w = le_value-le_bytes 2 h.ams_cmd w.ams_cmd_fits

-- A packet that is whole comes off the socket whole.
pub read_frame-header_bytes :
    (h : AdsHeader) (payload rest : List ℕ)
    → IsHeader h
    → 32 ≤ h.packet_length
    → length payload ≡ h.data_length
    → read_frame (header_bytes h ++ (payload ++ rest))
      ≡ ok (frame (header_bytes h) h.packet_length h payload, rest)
unfolding read_frame
read_frame-header_bytes h payload rest w room len =
    let hb = header_bytes h in
    let (size, back) = read_header-header_bytes h w in
    let head_len : length (take 6 hb) ≡ 6 = omega (arith, length-take 6 hb, size) in
    let tail_len : length (drop 6 hb) ≡ 32 = omega (arith, length-drop 6 hb, size) in
    let split : hb ++ (payload ++ rest) ≡ take 6 hb ++ (drop 6 hb ++ (payload ++ rest)) =
      ap (λ t. t ++ (payload ++ rest)) (sym (take-append-drop 6 hb))
      ∙ append_assoc (take 6 hb) (drop 6 hb) (payload ++ rest) in
    rw (
      split,
      read_exact-append "receiving AMS/TCP header" 6 (take 6 hb) (drop 6 hb ++ (payload ++ rest))
          head_len,
      packet_len_field h w,
      le→ltb h.packet_length 32 room,
      read_exact-append "receiving AMS header" 32 (drop 6 hb) (payload ++ rest) tail_len,
      take-append-drop 6 hb,
      back,
      read_exact-append "receiving Ads data payload" h.data_length payload rest len,
    )

-- A packet as a server sends it to the client: whole, with lengths that agree.
pub record IsPacket (h : AdsHeader) (payload : List ℕ) : Type 0 where
  pub fits : IsHeader h
  pub is_command : h.ams_cmd ≡ 0
  pub consistent : h.packet_length ≡ 32 + h.data_length
  pub complete : length payload ≡ h.data_length

pub same_dest : (a : AmsAddr) → same_addr a a ≡ true
same_dest a = (same_addr_iff a a).1 refl

pub other_dest : (a b : AmsAddr) → a ≢ b → same_addr a b ≡ false
other_dest a b n = elim (Bool-cases (same_addr a b)) [
  | inl same ↦ absurd (n ((same_addr_iff a b).0 same))
  | inr other ↦ other
]

module _ {Chan : Type 0} (try_send : Chan → List ℕ → Chan × SendOutcome) where
  -- Behind the reads, a packet with lengths that agree is dispatched.
  pub receive-dispatch :
      (source : AmsAddr) (s : Shared Chan) (h : AdsHeader) (payload rest : List ℕ)
      → IsPacket h payload
      → receive try_send source s (header_bytes h ++ (payload ++ rest))
        ≡ (do turn ← dispatch try_send source s (header_bytes h) h payload; ok (turn, rest))
  unfolding receive
  receive-dispatch source s h payload rest p =
      let data_len : h.packet_length - 32 ≡ h.data_length = omega (arith, p.consistent) in
      rw (
        read_frame-header_bytes h payload rest p.fits (omega (arith, p.consistent)) p.complete,
        reserved_field h p.fits,
        p.is_command,
        data_len,
        ==_refl h.data_length,
      )

  -- What the reader makes of a whole packet that is no notification. One for another address
  -- changes nothing. A reply that a request waits for is passed to that request alone, with its
  -- header and its payload, and the request is no longer pending; a reply that no request waits for
  -- changes nothing. In each case the reader goes on behind the packet.
  pub receive_reply :
      (source : AmsAddr) (s : Shared Chan) (h : AdsHeader) (payload rest : List ℕ)
      → IsPacket h payload
      → h.command ≢ 8
      → (dest_of h ≢ source
          → receive try_send source s (header_bytes h ++ (payload ++ rest))
            ≡ ok (unchanged s, rest))
        × (dest_of h ≡ source
            → get h.invoke_id s.commands ≡ none
            → receive try_send source s (header_bytes h ++ (payload ++ rest))
              ≡ ok (unchanged s, rest))
        × ((slot : ℕ)
            → dest_of h ≡ source
            → get h.invoke_id s.commands ≡ some slot
            → receive try_send source s (header_bytes h ++ (payload ++ rest))
              ≡ ok (
                record {
                  shared = record s { commands = remove h.invoke_id s.commands };
                  replies = (slot, h, payload) ∷ [];
                  unsubscribe = [];
                },
                rest,
              ))
  unfolding dispatch command_code
  receive_reply source s h payload rest p n = (
    (λ other. rw (receive-dispatch source s h payload rest p, other_dest (dest_of h) source other)),
    (λ ours late. rw (
      receive-dispatch source s h payload rest p,
      ours,
      same_dest source,
      ==_ne h.command 8 n,
      late,
    )),
    (λ slot ours waits. rw (
      receive-dispatch source s h payload rest p,
      ours,
      same_dest source,
      ==_ne h.command 8 n,
      waits,
    )),
  )
