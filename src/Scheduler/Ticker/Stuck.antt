-- ===== src/Scheduler/Ticker/Stuck.antt =====
-- Where the goroutines of a ticker and of its feed come to a stop.
use transiter.Base.{Bool, false, inl, inr, nat_keys, refl, string_keys, true, ◌↔◌, ◌≡◌, ◌⊎◌}
use transiter.Base.Int.{int_keys}
use transiter.Scheduler.Ticker.{
  Place, Reader, Running, TickerReach, TickerStep, at_start, awaiting_reply, awaiting_update,
  cancelled, cancelled_updating, ended, fires, in_select, next_step, reply_received, replying,
  returned, selecting, sending, stop_received, stopping, tick_received, together, update_received,
}

-- The ticker's goroutine and its reader belong together.
abbrev pub matches_place : Place → Reader → Bool
matches_place in_select selecting = true
matches_place in_select awaiting_update = true
matches_place in_select stopping = true
matches_place sending selecting = true
matches_place sending awaiting_update = true
matches_place sending stopping = true
matches_place replying awaiting_reply = true
matches_place ended returned = true
matches_place _ _ = false

-- Stop has returned.
abbrev pub IsStopped : {Timer : Type 0} → Running Timer → Type 0
IsStopped s = (s.place ≡ ended) × (s.reader ≡ returned)

-- The ticker has a tick to send, and its reader has only Stop to send.
abbrev pub IsBlocked : {Timer : Type 0} → Running Timer → Type 0
IsBlocked s = (s.place ≡ sending) × (s.reader ≡ stopping)

fires_matched :
    (reader : Reader) → matches_place in_select reader ≡ true → matches_place sending reader ≡ true
fires_matched selecting h = refl
fires_matched awaiting_update h = refl
fires_matched stopping h = refl
fires_matched awaiting_reply h = absurd (cc h)
fires_matched returned h = absurd (cc h)

awaiting_matched :
    (place : Place)
    → matches_place place selecting ≡ true
    → matches_place place awaiting_update ≡ true
awaiting_matched in_select h = refl
awaiting_matched sending h = refl
awaiting_matched replying h = absurd (cc h)
awaiting_matched ended h = absurd (cc h)

stopping_matched :
    (place : Place)
    → matches_place place awaiting_update ≡ true
    → matches_place place stopping ≡ true
stopping_matched in_select h = refl
stopping_matched sending h = refl
stopping_matched replying h = absurd (cc h)
stopping_matched ended h = absurd (cc h)

abbrev can_step : Place → Reader → Bool
can_step in_select reader = true
can_step sending selecting = true
can_step sending awaiting_update = true
can_step replying selecting = true
can_step replying awaiting_update = true
can_step replying awaiting_reply = true
can_step ended selecting = true
can_step ended awaiting_update = true
can_step _ _ = false

can_step-selecting : (place : Place) → can_step place selecting ≡ true
can_step-selecting in_select = refl
can_step-selecting sending = refl
can_step-selecting replying = refl
can_step-selecting ended = refl

can_step-awaiting : (place : Place) → can_step place awaiting_update ≡ true
can_step-awaiting in_select = refl
can_step-awaiting sending = refl
can_step-awaiting replying = refl
can_step-awaiting ended = refl

abbrev ends : Place → Reader → Bool
ends ended returned = true
ends sending stopping = true
ends _ _ = false

module _ {Timer : Type 0} (after : Timer → Timer) where
  abbrev pub CannotStep : Running Timer → Type 0
  CannotStep s = (t : Running Timer) → TickerStep after s t → ⊥

  matched-step :
      (s t : Running Timer)
      → TickerStep after s t
      → matches_place s.place s.reader ≡ true
      → matches_place t.place t.reader ≡ true
  matched-step s t (fires {timer} {reader}) h = fires_matched reader h
  matched-step s t tick_received h = refl
  matched-step s t (cancelled_updating {timer} {place}) h = awaiting_matched place h
  matched-step s t (cancelled {timer} {place}) h = stopping_matched place (awaiting_matched place h)
  matched-step s t (update_received {timer} {place}) h = stopping_matched place h
  matched-step s t stop_received h = refl
  matched-step s t reply_received h = refl

  matched-TickerReach :
      {timer : Timer} {s : Running Timer}
      → TickerReach after (together timer in_select selecting) s
      → matches_place s.place s.reader ≡ true
  matched-TickerReach at_start = refl
  matched-TickerReach (next_step {s} {t} reached step) =
      matched-step s t step (matched-TickerReach reached)

  steps_from : {s t : Running Timer} → TickerStep after s t → can_step s.place s.reader ≡ true
  steps_from fires = refl
  steps_from tick_received = refl
  steps_from (cancelled_updating {timer} {place}) = can_step-selecting place
  steps_from (cancelled {timer} {place}) = can_step-selecting place
  steps_from (update_received {timer} {place}) = can_step-awaiting place
  steps_from stop_received = refl
  steps_from reply_received = refl

  goes_on :
      (timer : Timer) (place : Place) (reader : Reader) {t : Running Timer}
      → TickerStep after (together timer place reader) t
      → ends place reader ≡ false
      → CannotStep (together timer place reader)
        ↔ (IsStopped (together timer place reader) ⊎ IsBlocked (together timer place reader))
  goes_on timer place reader {t} step h = (
    λ stuck. absurd (stuck t step),
    λ over. elim over [
      | inl (p, r) ↦ absurd (cc (rw (p, r) at h))
      | inr (p, r) ↦ absurd (cc (rw (p, r) at h))
    ],
  )

  places-CannotStep :
      (timer : Timer) (place : Place) (reader : Reader)
      → matches_place place reader ≡ true
      → CannotStep (together timer place reader)
        ↔ (IsStopped (together timer place reader) ⊎ IsBlocked (together timer place reader))
  places-CannotStep timer in_select selecting h = goes_on timer in_select selecting fires refl
  places-CannotStep timer in_select awaiting_update h =
      goes_on timer in_select awaiting_update fires refl
  places-CannotStep timer in_select stopping h = goes_on timer in_select stopping fires refl
  places-CannotStep timer in_select awaiting_reply h = absurd (cc h)
  places-CannotStep timer in_select returned h = absurd (cc h)
  places-CannotStep timer sending selecting h = goes_on timer sending selecting tick_received refl
  places-CannotStep timer sending awaiting_update h =
      goes_on timer sending awaiting_update update_received refl
  places-CannotStep timer sending stopping h =
      (λ _. inr (refl, refl), λ _ t step. absurd (cc (steps_from step)))
  places-CannotStep timer sending awaiting_reply h = absurd (cc h)
  places-CannotStep timer sending returned h = absurd (cc h)
  places-CannotStep timer replying selecting h = absurd (cc h)
  places-CannotStep timer replying awaiting_update h = absurd (cc h)
  places-CannotStep timer replying stopping h = absurd (cc h)
  places-CannotStep timer replying awaiting_reply h =
      goes_on timer replying awaiting_reply reply_received refl
  places-CannotStep timer replying returned h = absurd (cc h)
  places-CannotStep timer ended selecting h = absurd (cc h)
  places-CannotStep timer ended awaiting_update h = absurd (cc h)
  places-CannotStep timer ended stopping h = absurd (cc h)
  places-CannotStep timer ended awaiting_reply h = absurd (cc h)
  places-CannotStep timer ended returned h =
      (λ _. inl (refl, refl), λ _ t step. absurd (cc (steps_from step)))

  -- The deadlock: the context ends while an update runs, a tick comes, and the update ends.
  pub blocked_reached :
      (timer : Timer)
      → TickerReach after (together timer in_select selecting) (together timer sending stopping)
  blocked_reached timer =
      next_step (next_step (next_step at_start cancelled_updating) fires) update_received

  -- A ticker and its reader, from their start on, can both no longer go on in exactly two cases:
  -- Stop has returned and both have ended, or the ticker has a tick to send while its reader is at
  -- Stop. The second case, a deadlock, is reached from every start.
  pub CannotStep-iff :
      (timer : Timer) {s : Running Timer}
      (reached : TickerReach after (together timer in_select selecting) s)
      → (CannotStep s ↔ (IsStopped s ⊎ IsBlocked s))
        × TickerReach after (together timer in_select selecting) (together timer sending stopping)
  CannotStep-iff timer {s} reached = (
    places-CannotStep s.timer s.place s.reader (matched-TickerReach reached),
    blocked_reached timer,
  )
