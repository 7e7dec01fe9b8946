-- ===== src/Client/Calls.antt =====
-- The steps of a call: what is written and registered, and how a call ends.
use openstar_ads.Common.{
  ℕ, ◌+◌, ◌%◌, ◌^◌, ◌≤◌, ◌<◌, ◌≡◌, ◌≢◌, ◌⊎◌, inl, inr, refl, sym, ap, ◌∙◌, List, ◌++◌, none, ltb,
  arith, length, take, drop, Bool-cases, ltb→lt, ltb_false→le, take-append_at, drop-append_at,
  lt→ltb, le→ltb, Option-cases,
}
use openstar_ads.Common.Map.{insert}
use openstar_ads.Error.{Error, ok, err}
use openstar_ads.NetId.{IsAddr}
use openstar_ads.Protocol.{AdsHeader, IsHeader, Command, command_code, header_bytes, read_header}
use openstar_ads.Protocol.Codec.{read_header-header_bytes}
use openstar_ads.Client.{Client, register, is_closed}
use openstar_ads.Client.Buffers.{total_length, concat, length-concat}
use openstar_ads.Client.Request.{request_header, start}

command_code_fits : (cmd : Command) → command_code cmd < 256 ^ 2
unfolding command_code
command_code_fits Command.dev_info = omega arith
command_code_fits _ = omega arith

module _ {Chan : Type 0} where
  -- The header of a request with `len` bytes of data.
  abbrev pub sent_header : Client Chan → Command → ℕ → AdsHeader
  sent_header c cmd len = record {
    ams_cmd = 0;
    packet_length = 32 + len;
    dest_netid = c.target.netid;
    dest_port = c.target.port;
    src_netid = c.source.netid;
    src_port = c.source.port;
    command = command_code cmd;
    state_flags = 4;
    data_length = len;
    error_code = 0;
    invoke_id = c.invoke_id;
  }

  request_header_fits :
      (c : Client Chan) (cmd : Command) (len : ℕ)
      → 32 + len < 2 ^ 32
      → request_header c cmd len c.invoke_id ≡ ok (sent_header c cmd len)
  unfolding request_header
  request_header_fits c cmd len h =
      let whole : len % 2 ^ 32 ≡ len = omega arith in rw (lt→ltb (32 + len) (2 ^ 32) h, whole)

  request_header_long :
      (c : Client Chan) (cmd : Command) (len : ℕ)
      → 2 ^ 32 ≤ 32 + len
      → request_header c cmd len c.invoke_id ≡ err Error.overflow
  unfolding request_header
  request_header_long c cmd len h = rw (le→ltb (32 + len) (2 ^ 32) h)

  -- The client with the next invoke ID.
  abbrev pub advanced : Client Chan → Client Chan
  advanced c = record c { invoke_id = (c.invoke_id + 1) % 2 ^ 32 }

  -- The three ways in which a call starts. A call whose packet fits 32 bits, on an open connection,
  -- registers its request under the invoke ID and writes the header and the data; a longer one fails
  -- with `overflow`, and one on a closed connection with `disconnected`. The invoke ID advances in
  -- each case, and nothing else changes.
  pub start_lem :
      (c : Client Chan) (cmd : Command) (payload : List (List ℕ)) (slot : ℕ)
      → ((32 + total_length payload < 2 ^ 32)
          × (c.shared.closed ≡ none)
          × (start c cmd payload slot ≡ record {
            client = record (advanced c) {
              shared = record c.shared { commands = insert c.invoke_id slot c.shared.commands };
            };
            result = ok (
              c.invoke_id,
              header_bytes (sent_header c cmd (total_length payload)) ++ concat payload,
            );
          }))
        ⊎ ((2 ^ 32 ≤ 32 + total_length payload)
            × (start c cmd payload slot
                ≡ record { client = advanced c; result = err Error.overflow }))
        ⊎ ((32 + total_length payload < 2 ^ 32)
            × (c.shared.closed ≢ none)
            × (start c cmd payload slot
                ≡ record { client = advanced c; result = err Error.disconnected }))
  unfolding start register is_closed
  start_lem c cmd payload slot = elim (Bool-cases (ltb (32 + len) (2 ^ 32))) [
    | inl fits ↦ elim (Option-cases c.shared.closed) [
      | inl open_now ↦ inl (
        ltb→lt _ _ fits,
        open_now,
        rw (request_header_fits c cmd len (ltb→lt _ _ fits), open_now),
      )
      | inr (e, ended) ↦ inr (
          inr (
            ltb→lt _ _ fits,
            (λ p. cc),
            rw (request_header_fits c cmd len (ltb→lt _ _ fits), ended),
          ))
    ]
    | inr long ↦
        inr
          (inl (ltb_false→le _ _ long, rw (request_header_long c cmd len (ltb_false→le _ _ long))))
  ]
    where
      len : ℕ
      len = total_length payload

  -- A packet that was written reads back as the header that was meant, of 38 bytes, with the data
  -- behind it; its two length fields agree with each other and with the data.
  pub start_packet :
      (c : Client Chan) (cmd : Command) (payload : List (List ℕ)) (slot id : ℕ) (packet : List ℕ)
      → IsAddr c.source
      → IsAddr c.target
      → c.invoke_id < 2 ^ 32
      → (start c cmd payload slot).result ≡ ok (id, packet)
      → (read_header (take 38 packet) ≡ ok (sent_header c cmd (total_length payload)))
        × (drop 38 packet ≡ concat payload)
        × (length (concat payload) ≡ total_length payload)
        × (id ≡ c.invoke_id)
  start_packet c cmd payload slot id packet ws wt wi e = elim (start_lem c cmd payload slot) [
    | inl (fits, open_now, whole) ↦
        let h = sent_header c cmd (total_length payload) in
        let w : IsHeader h = record {
          ams_cmd_fits = omega arith;
          length_fits = omega arith;
          dest_netid_fits = wt.netid_fits;
          dest_port_fits = wt.port_fits;
          src_netid_fits = ws.netid_fits;
          src_port_fits = ws.port_fits;
          command_fits = command_code_fits cmd;
          state_flags_fits = omega arith;
          data_length_fits = omega arith;
          error_code_fits = omega arith;
          invoke_id_fits = omega arith;
        } in
        let (len, back) = read_header-header_bytes h w in
        let result = sym e ∙ ap (λ s. s.result) whole in
        let same_packet : packet ≡ header_bytes h ++ concat payload = ground arith in
        let same_id : id ≡ c.invoke_id = ground arith in
        rw
          (
            same_packet,
            take-append_at 38 (header_bytes h) (concat payload) len,
            drop-append_at 38 (header_bytes h) (concat payload) len,
          )
          (back, refl, length-concat payload, same_id)
    | inr (inl (long, whole)) ↦ cc (sym e ∙ ap (λ s. s.result) whole)
    | inr (inr (fits, ended, whole)) ↦ cc (sym e ∙ ap (λ s. s.result) whole)
  ]
