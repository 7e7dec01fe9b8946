-- ===== src/Client/Loop.antt =====
-- The reader's loop ends on every input: each round takes six bytes at least off the socket.
use openstar_ads.Common.{
  ℕ, zero, suc, ◌+◌, ◌≤◌, ◌<◌, ◌≡◌, ◌≢◌, inl, inr, ◌⊎◌, refl, none, Option-cases, List, length,
  take, drop, arith, ltb, Bool-cases,
}
use openstar_ads.Error.{Error, Result, ok, >>=-eq-ok, Result-cases}
use openstar_ads.Wire.{le_value, read_exact}
use openstar_ads.Wire.Laws.{read_exact_shrinks}
use openstar_ads.NetId.{AmsAddr}
use openstar_ads.Protocol.{read_header}
use openstar_ads.Client.{Shared, tear_down, is_closed}
use openstar_ads.Client.Reader.{
  SendOutcome, Frame, junk, read_frame, Turn, handle_frame, receive, reader_work, Ending, failed,
  panicked, exhausted, reader_task, task_end,
}

read_frame_shrinks :
    (socket : List ℕ) (f : Frame) (rest : List ℕ)
    → read_frame socket ≡ ok (f, rest)
    → length rest + 6 ≤ length socket
unfolding read_frame
read_frame_shrinks socket f rest e =
    let ((head, s₁), e₁, e₂) = >>=-eq-ok (read_exact "receiving AMS/TCP header" 6 socket) _ e in
    let taken = read_exact_shrinks "receiving AMS/TCP header" 6 socket head s₁ e₁ in
    elim (Bool-cases (ltb (le_value (take 4 (drop 2 head))) 32)) [
      | inl short ↦
          let len = le_value (take 4 (drop 2 head)) in
          let ((discard, s₂), e₃, e₄) =
            >>=-eq-ok (read_exact "discarding bad data" len s₁) _ (rw short at e₂) in
          omega (
            arith,
            taken,
            read_exact_shrinks "discarding bad data" len s₁ discard s₂ e₃,
            same_rest junk s₂ f rest e₄,
          )
      | inr long ↦
          let ((tail, s₂), e₃, e₄) =
            >>=-eq-ok (read_exact "receiving AMS header" 32 s₁) _ (rw long at e₂) in
          let (h, e₅, e₆) = >>=-eq-ok (read_header _) _ e₄ in
          let ((payload, s₃), e₇, e₈) =
            >>=-eq-ok (read_exact "receiving Ads data payload" h.data_length s₂) _ e₆ in
          omega (
            arith,
            taken,
            read_exact_shrinks "receiving AMS header" 32 s₁ tail s₂ e₃,
            read_exact_shrinks "receiving Ads data payload" h.data_length s₂ payload s₃ e₇,
            same_rest _ s₃ f rest e₈,
          )
    ]
  where
    same_rest :
        (g : Frame) (s : List ℕ) (f : Frame) (rest : List ℕ)
        → ◌≡◌ {A = Result (Frame × List ℕ)} (ok (g, s)) (ok (f, rest))
        → length s ≡ length rest
    same_rest g s f rest e = cc

module _ {Chan : Type 0} (try_send : Chan → List ℕ → Chan × SendOutcome) where
  receive_shrinks :
      (source : AmsAddr) (s : Shared Chan) (socket : List ℕ) (turn : Turn Chan) (rest : List ℕ)
      → receive try_send source s socket ≡ ok (turn, rest)
      → length rest + 6 ≤ length socket
  unfolding receive
  receive_shrinks source s socket turn rest e =
      let ((f, s₁), e₁, e₂) = >>=-eq-ok (read_frame socket) _ e in
      let (t, e₃, e₄) = >>=-eq-ok (handle_frame try_send source s f) _ e₂ in
      omega (arith, read_frame_shrinks socket f s₁ e₁, same_rest t s₁ e₄)
    where
      same_rest :
          (t : Turn Chan) (s₁ : List ℕ)
          → ◌≡◌ {A = Result (Turn Chan × List ℕ)} (ok (t, s₁)) (ok (turn, rest))
          → length s₁ ≡ length rest
      same_rest t s₁ e = cc

  -- Whatever comes off the socket, the loop ends by an error or a panic before it has made as many
  -- rounds as there are bytes.
  pub reader_work-ne-exhausted :
      (fuel : ℕ) (source : AmsAddr) (s : Shared Chan) (socket : List ℕ)
      → length socket < fuel
      → (reader_work try_send fuel source s socket).1 ≢ exhausted
  unfolding reader_work
  reader_work-ne-exhausted zero source s socket h = absurd (omega arith)
  reader_work-ne-exhausted (suc fuel) source s socket h =
      elim (Result-cases (receive try_send source s socket)) [
        | inl ((turn, rest), e) ↦
            let shrinks = receive_shrinks source s socket turn rest e in
            rw (e, reader_work)
              (reader_work-ne-exhausted fuel source turn.shared rest (omega arith))
        | inr (inl (x, e)) ↦ rw (e, reader_work) (λ p. cc)
        | inr (inr e) ↦ rw (e, reader_work) (λ p. cc)
      ]

module _ {Chan : Type 0} where
  pub tear_down-closed : (s : Shared Chan) (e : Error) → (tear_down s e).0.closed ≢ none
  unfolding tear_down is_closed
  tear_down-closed s e = elim (Option-cases s.closed) [
    | inl open_now ↦ rw (open_now, is_closed) (λ p. cc)
    | inr (x, ended) ↦ rw (ended, is_closed) (λ p. cc)
  ]

module _ {Chan : Type 0} (try_send : Chan → List ℕ → Chan × SendOutcome) where
  -- The reader's task on any socket, with more fuel than the socket has bytes: its loop panics, or
  -- the connection is closed when the task ends.
  pub reader_task-closed :
      (fuel : ℕ) (source : AmsAddr) (s : Shared Chan) (socket : List ℕ)
      → length socket < fuel
      → ((reader_work try_send fuel source s socket).1 ≡ panicked)
        ⊎ ((reader_task try_send fuel source s socket).0.closed ≢ none)
  unfolding reader_task
  reader_task-closed fuel source s socket h =
      by_ending (reader_work try_send fuel source s socket).1
        (reader_work-ne-exhausted try_send fuel source s socket h)
    where
      last : Shared Chan
      last = (reader_work try_send fuel source s socket).0.shared

      by_ending :
          (e : Ending)
          → e ≢ exhausted
          → (e ≡ panicked) ⊎ ((task_end try_send last e).0.closed ≢ none)
      by_ending (failed x) n = inr (tear_down-closed last x)
      by_ending panicked n = inl refl
      by_ending exhausted n = absurd (n refl)
