-- ===== src/Scheduler/Ticker.antt =====
-- The tickers of internal/scheduler/ticker/ticker.go, with the goroutine of
-- `feedScheduler.run` (internal/scheduler/scheduler.go) that receives from one and stops it. The
-- channels have no buffer: a message passes when both sides are ready.
pub mod Stuck
use transiter.Base.{if◌then◌else◌, nat_keys, string_keys, suc, ℕ, ◌==◌}
use transiter.Base.Int.{int_keys}

-- Where the ticker's goroutine is: in its `select`, at `t.c <- tickTime`, at `reply <- struct{}{}`,
-- or ended.
pub data Place : Type 0 where
  in_select : Place
  sending : Place
  replying : Place
  ended : Place

-- Where the goroutine of the feed is: in its `select`, at `<-updateFinished` after the end of the
-- context, at `t.stopC <- reply`, at `<-reply`, or returned.
pub data Reader : Type 0 where
  selecting : Reader
  awaiting_update : Reader
  stopping : Reader
  awaiting_reply : Reader
  returned : Reader

-- The periods of a periodic ticker: `tickerPeriod`, and that of the clock's ticker.
abbrev pub after_periodic : ℕ → ℕ × ℕ → ℕ × ℕ
after_periodic period (ticker_period, base_period) =
    if ticker_period == period then (ticker_period, base_period) else (period, period)

-- The day and the period of a daily ticker; `until` is the time from now to the tick of a day.
abbrev pub after_daily : (ℕ → ℕ) → ℕ × ℕ → ℕ × ℕ
after_daily until (day, base_period) = (suc day, until (suc day))

pub record Running (Timer : Type 0) : Type 0 where
  pub timer : Timer
  pub place : Place
  pub reader : Reader

abbrev pub together : {Timer : Type 0} → Timer → Place → Reader → Running Timer
together timer place reader = record { timer = timer; place = place; reader = reader }

module _ {Timer : Type 0} (after : Timer → Timer) where
  pub data TickerStep : Running Timer → Running Timer → Type 0 where
    -- `case tickTime := <-base.C`
    fires :
        {timer : Timer} {reader : Reader}
        → TickerStep (together timer in_select reader) (together timer sending reader)
    -- `t.c <- tickTime` and `case <-t.C()`; the loops go on.
    tick_received :
        {timer : Timer}
        → TickerStep (together timer sending selecting) (together (after timer) in_select selecting)
    -- `case <-ctx.Done()`, with an update running or not
    cancelled_updating :
        {timer : Timer} {place : Place}
        → TickerStep (together timer place selecting) (together timer place awaiting_update)
    cancelled :
        {timer : Timer} {place : Place}
        → TickerStep (together timer place selecting) (together timer place stopping)
    update_received :
        {timer : Timer} {place : Place}
        → TickerStep (together timer place awaiting_update) (together timer place stopping)
    -- `t.stopC <- reply` and `case reply := <-t.stopC`
    stop_received :
        {timer : Timer}
        → TickerStep (together timer in_select stopping) (together timer replying awaiting_reply)
    -- `reply <- struct{}{}` and `<-reply`
    reply_received :
        {timer : Timer}
        → TickerStep (together timer replying awaiting_reply) (together timer ended returned)

  pub data TickerReach (first : Running Timer) : Running Timer → Type 0 where
    at_start : TickerReach first first
    next_step : {s t : Running Timer} → TickerReach first s → TickerStep s t → TickerReach first t
