-- ===== src/Worker/Progress.antt =====
-- Whatever the worker is doing, it can finish, and then nothing waits.
use mathlib.Core.Path.{subst}
use sukumad.Prelude.{◌≡◌, refl, sym, ◌∙◌, ◌≢◌, List, [], ◌∷◌, arith}
use sukumad.Text.{Bytes}
use sukumad.Config.{Config}
use sukumad.Worker.Limiter.{Luck, blocked}
use sukumad.Worker.Places.{used}
use sukumad.Worker.System.{
  Held, System, send_wait, poll_wait, finish_send, finish_poll, Pick, here, finishes_send,
  finishes_poll, Reach, start, next,
}
use sukumad.Worker.Bounded.{IsCounted, Reach-IsCounted}
use sukumad.Worker.Handlers.{Outside}
use sukumad.Worker.Wire.{DeliveryRow, PollRow}
use sukumad.Worker.Unblocked.{IsRoomy, send_wait-Waits, poll_wait-Waits, Reach-IsRoomy}

-- After the workers have finished: the channels hold what they held, and no row is kept waiting.
pub record IsClear (s u : System) : Type 0 where
  pub no_sends : u.sending ≡ []
  pub no_polls : u.polling ≡ []
  pub sends_left : u.send_ch ≡ s.send_ch
  pub polls_left : u.poll_ch ≡ s.poll_ch
  pub sends_pass : (luck : Luck) (row : DeliveryRow) → (send_wait luck row u.limiters).0 ≢ blocked
  pub polls_pass : (luck : Luck) (row : PollRow) → (poll_wait luck row u.limiters).0 ≢ blocked

module _ (cfg : Config) (out : Outside) where
  finish_sends :
      {s t : System} (hs : List (Held DeliveryRow))
      → t.sending ≡ hs
      → Reach cfg s t
      → (u : System) × Reach cfg s u
        × (u.sending ≡ [])
        × (u.polling ≡ t.polling)
        × (u.send_ch ≡ t.send_ch)
        × (u.poll_ch ≡ t.poll_ch)
  unfolding finish_send
  finish_sends {t} [] e r = (t, r, e, refl, refl, refl)
  finish_sends {t} ((row, held) ∷ others) e r =
      finish_sends {t = finish_send out cfg (row, held) others t} others refl (
        next r
          (finishes_send out t (row, held) others (subst (Pick (row, held) others) (sym e) here)))

  finish_polls :
      {s t : System} (hs : List (Held PollRow))
      → t.polling ≡ hs
      → Reach cfg s t
      → (u : System) × Reach cfg s u
        × (u.polling ≡ [])
        × (u.sending ≡ t.sending)
        × (u.send_ch ≡ t.send_ch)
        × (u.poll_ch ≡ t.poll_ch)
  unfolding finish_poll
  finish_polls {t} [] e r = (t, r, e, refl, refl, refl)
  finish_polls {t} ((row, held) ∷ others) e r =
      finish_polls {t = finish_poll out cfg (row, held) others t} others refl (
        next r
          (finishes_poll out t (row, held) others (subst (Pick (row, held) others) (sym e) here)))

  nothing_held :
      (key : Bytes) (u : System)
      → u.sending ≡ []
      → u.polling ≡ []
      → IsCounted u
      → used key u.limiters ≡ 0
  nothing_held key u a b v = sym (v.counted key) ∙ rw a (rw b refl)

  -- The workers cannot deadlock on the semaphores: from every state that is reached from one where
  -- the semaphores count what is held and have a place each, such as a start with none, the workers
  -- can finish what they are handling, whatever the servers answer; and in the state after that,
  -- with the channels as they were, no row that could come is kept waiting for a place.
  pub Reach-IsClear :
      {s t : System}
      → Reach cfg s t
      → IsCounted s
      → IsRoomy s.limiters
      → (u : System) × Reach cfg t u × IsClear t u
  Reach-IsClear {s} {t} r c v =
      let (a, to_a, a_sending, a_polling, a_sends, a_polls) =
        finish_sends {s = t} t.sending refl start in
      let (u, to_u, u_polling, u_sending, u_sends, u_polls) = finish_polls a.polling refl to_a in
      let roomy = Reach-IsRoomy cfg to_u (Reach-IsRoomy cfg r v) in
      let counted = Reach-IsCounted cfg to_u (Reach-IsCounted cfg r c) in
      let free = λ (key : Bytes). nothing_held key u (u_sending ∙ a_sending) u_polling counted in
      (
        u,
        to_u,
        record {
          no_sends = u_sending ∙ a_sending;
          no_polls = u_polling;
          sends_left = u_sends ∙ a_sends;
          polls_left = u_polls ∙ a_polls;
          sends_pass = λ luck row e. absurd (
              omega (arith, free row.rate_key, (send_wait-Waits luck row u.limiters roomy).full e));
          polls_pass = λ luck row e. absurd (
              omega (arith, free row.rate_key, (poll_wait-Waits luck row u.limiters roomy).full e));
        },
      )
