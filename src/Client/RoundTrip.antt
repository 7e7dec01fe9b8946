-- ===== src/Client/RoundTrip.antt =====
-- A request and its reply, from `communicate` over the reader and back.
use openstar_ads.Common.{
  ℕ, ◌≤◌, ◌≡◌, ◌≢◌, inl, inr, refl, sym, ap, ◌∙◌, List, [], ◌∷◌, ◌++◌, some, none, length, take,
  ==_refl, arith,
}
use openstar_ads.Common.Map.{get, insert, remove, get-insert, get-remove}
use openstar_ads.Error.{ok}
use openstar_ads.Wire.{le_value}
use openstar_ads.Protocol.{AdsHeader, Command, header_bytes}
use openstar_ads.Client.{Client}
use openstar_ads.Client.Accepted.{Answers, Delivers, process_reply-ok}
use openstar_ads.Client.Request.{start, after_wait, replied}
use openstar_ads.Client.Calls.{start_lem}
use openstar_ads.Client.Reader.{SendOutcome, Turn, dest_of, receive}
use openstar_ads.Client.Receive.{IsPacket, receive_reply}

module _ {Chan : Type 0} (try_send : Chan → List ℕ → Chan × SendOutcome) where
  -- What the reader does with the reply, and the call with what the reader hands over.
  abbrev pub Served :
      Client Chan
      → Command
      → ℕ
      → ℕ
      → AdsHeader
      → List ℕ
      → List ℕ
      → List (List ℕ)
      → ℕ × List (List ℕ)
      → Type 0
  Served c cmd slot id h resp rest bufs r =
      (turn : Turn Chan) × (receive try_send c.source c.shared (header_bytes h ++ (resp ++ rest))
        ≡ ok (turn, rest))
      × (turn.replies ≡ (slot, h, resp) ∷ [])
      × (get id turn.shared.commands ≡ none)
      × ((after_wait (record c { shared = turn.shared }) cmd id bufs
            (replied (ok (h, resp)))).result
          ≡ ok r)

  served :
      (c : Client Chan) (cmd : Command) (slot id : ℕ) (h : AdsHeader) (resp rest : List ℕ)
      (bufs : List (List ℕ)) (r : ℕ × List (List ℕ))
      → get id c.shared.commands ≡ some slot
      → IsPacket h resp
      → dest_of h ≡ c.source
      → h.command ≢ 8
      → Answers c.target cmd id h
      → 4 ≤ length resp
      → le_value (take 4 resp) ≡ 0
      → Delivers resp bufs r
      → Served c cmd slot id h resp rest bufs r
  unfolding after_wait
  served c cmd slot id h resp rest bufs r pending p ours no_notif a room clean d =
      let key : get h.invoke_id c.shared.commands ≡ some slot =
        ap (λ k. get k c.shared.commands) a.same_id ∙ pending in
      (
        record {
          shared = record c.shared { commands = remove h.invoke_id c.shared.commands };
          replies = (slot, h, resp) ∷ [];
          unsubscribe = [];
        },
        (receive_reply try_send c.source c.shared h resp rest p no_notif).2 slot ours key,
        refl,
        ap (λ k. get k (remove h.invoke_id c.shared.commands)) (sym a.same_id)
            ∙ get-remove h.invoke_id h.invoke_id c.shared.commands
            ∙ rw (==_refl h.invoke_id) refl,
        (process_reply-ok c.target cmd id h resp bufs r).1 (a, room, clean, d),
      )

  -- A call that has written its packet, and a whole packet for the client that is no notification,
  -- answers the request without an error, has a zero result field, and fills the first buffer, if
  -- there is one: the reader hands that packet to this call and to no other, takes the request out of
  -- the pending ones and goes on behind the packet, and the call succeeds with the packet's data.
  pub call_lem :
      (c : Client Chan) (cmd : Command) (payload : List (List ℕ)) (slot id : ℕ) (packet : List ℕ)
      (h : AdsHeader) (resp rest : List ℕ) (bufs : List (List ℕ)) (r : ℕ × List (List ℕ))
      → (start c cmd payload slot).result ≡ ok (id, packet)
      → IsPacket h resp
      → dest_of h ≡ c.source
      → h.command ≢ 8
      → Answers c.target cmd id h
      → 4 ≤ length resp
      → le_value (take 4 resp) ≡ 0
      → Delivers resp bufs r
      → Served (start c cmd payload slot).client cmd slot id h resp rest bufs r
  call_lem c cmd payload slot id packet h resp rest bufs r e p ours no_notif a room clean d =
      elim (start_lem c cmd payload slot) [
        | inl (_, _, whole) ↦
            let result = sym e ∙ ap (λ s. s.result) whole in
            let same_id : c.invoke_id ≡ id = ground arith in
            let entered =
              get-insert c.invoke_id c.invoke_id slot c.shared.commands
              ∙ rw (==_refl c.invoke_id) refl in
            let pending : get id (insert c.invoke_id slot c.shared.commands) ≡ some slot =
              ap (λ k. get k (insert c.invoke_id slot c.shared.commands)) (sym same_id) ∙ entered in
            rw whole
              (served _ cmd slot id h resp rest bufs r pending p ours no_notif a room clean d)
        | inr (inl (_, whole)) ↦ cc (sym e ∙ ap (λ s. s.result) whole)
        | inr (inr (_, _, whole)) ↦ cc (sym e ∙ ap (λ s. s.result) whole)
      ]
