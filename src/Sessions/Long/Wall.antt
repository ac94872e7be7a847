-- ===== src/Sessions/Long/Wall.antt =====
-- The automatic wall budget: `payload_count`, `session_count` and `auto_max_wall_seconds` of
-- scripts/lab/sysex_long_loopback_lib.py, and `_apply_auto_wall` of sysex-long-loopback.py. Times
-- are exact, in milliseconds.
use unitor_win64_driver.Base.{
  ℕ, ◌+◌, ◌-◌, ◌*◌, Bool, ◌&&◌, not, Option, none, some, List, max, ltb, ◌==◌, if◌then◌else◌,
  length,
}
use unitor_win64_driver.Options.Labs.{LongOptions}

abbrev pub payload_count : LongOptions → List ℕ → ℕ
payload_count o sizes = length sizes + (if o.skip_fixture then 0 else 1)

abbrev pub session_count : LongOptions → ℕ
session_count o = if o.with_bridge then o.fresh_starts else o.fresh_sessions

abbrev pub abort_count : LongOptions → ℕ
abort_count o = max 1 o.abort_after_timeouts

-- `max(args.interval, 0.2)`
abbrev pub pace : LongOptions → ℕ
pace o = max o.interval 200

abbrev pub per_session : LongOptions → ℕ → ℕ
per_session o payloads =
    payloads * (abort_count o * o.reply_timeout + (o.count - abort_count o) * pace o + 5000)

abbrev pub bridge_overhead : LongOptions → ℕ
bridge_overhead o =
    if o.with_bridge
    then session_count o * (o.bridge_ready_timeout + 20000)
    else session_count o * 10000

unfoldable pub auto_max_wall_seconds : LongOptions → List ℕ → ℕ
auto_max_wall_seconds o sizes =
    bridge_overhead o + session_count o * per_session o (payload_count o sizes) + 30000

-- `_apply_auto_wall`, with the clock that it reads: the budget and the deadline
unfoldable pub apply_auto_wall : LongOptions → List ℕ → Bool → ℕ → ℕ × Option ℕ
unfolding auto_max_wall_seconds
apply_auto_wall o sizes list_ports clock =
    let budget : ℕ =
      if o.max_wall == 0 && not list_ports then auto_max_wall_seconds o sizes else o.max_wall in
    (budget, if ltb 0 budget then some (clock + budget) else none)
