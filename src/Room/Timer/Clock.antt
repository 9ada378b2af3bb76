-- ===== src/Room/Timer/Clock.antt =====
-- server/src/room.cpp: the remaining time of an exam, also past its end.
use network_final_project.Base.{ℕ, ◌-◌, ◌^◌, ◌≤◌, ◌<◌, ◌≡◌, arith, ltb, if◌then◌else◌}
use network_final_project.Base.Int.{pos, negsuc}
use network_final_project.Room.Timer.{timer_at}

-- For a duration and an elapsed time that fit an int32_t: until the duration is over the seconds that
-- are left and those that have passed sum up to it, and past it the timer shows how far past.
pub timer_at_lem :
    (now start duration : ℕ)
    → duration < 2 ^ 31
    → start ≤ now
    → now - start < 2 ^ 31
    → (timer_at now start (pos duration)).remaining_sec ≡ (
        if ltb duration (now - start)
        then negsuc (now - start - duration - 1)
        else pos (duration - (now - start)))
unfolding timer_at
timer_at_lem now start duration hd hs he = ground arith
