-- ===== src/Client/Communicate.antt =====
-- src/core/client.rs: `communicate` from end to end, where no other task comes between its parts.
pub mod Silence
use openstar_ads.Common.{ℕ, List, []}
use openstar_ads.Error.{Error, Result, ok, err, panic}
use openstar_ads.Protocol.{Command}
use openstar_ads.Client.{Client}
use openstar_ads.Client.Request.{Waited, Stepped, start, after_write, after_wait}

module _ {Chan : Type 0} where
  -- The wait, unless the write failed.
  unfoldable pub awaited :
      Command
      → ℕ
      → List (List ℕ)
      → Waited
      → Client Chan
      → List (ℕ × Error)
      → Result (Unit {0})
      → Stepped Chan (ℕ × List (List ℕ))
  awaited cmd id bufs w c sent (ok u) = after_wait c cmd id bufs w
  awaited cmd id bufs w c sent (err e) = record { client = c; sent = sent; result = err e }
  awaited cmd id bufs w c sent panic = record { client = c; sent = sent; result = panic }

  -- The write, unless the start failed.
  unfoldable pub written :
      Command
      → List (List ℕ)
      → Result (Unit {0})
      → Waited
      → Client Chan
      → Result (ℕ × List ℕ)
      → Stepped Chan (ℕ × List (List ℕ))
  unfolding awaited
  written cmd bufs write w c (ok (id, packet)) =
      let s = after_write c id write in awaited cmd id bufs w s.client s.sent s.result
  written cmd bufs write w c (err e) = record { client = c; sent = []; result = err e }
  written cmd bufs write w c panic = record { client = c; sent = []; result = panic }

  -- A call, given how the socket takes its bytes and what its wait ends with.
  unfoldable pub communicate :
      Client Chan
      → Command
      → List (List ℕ)
      → List (List ℕ)
      → ℕ
      → Result (Unit {0})
      → Waited
      → Stepped Chan (ℕ × List (List ℕ))
  unfolding written
  communicate c cmd payload bufs slot write w =
      let started = start c cmd payload slot in
      written cmd bufs write w started.client started.result
