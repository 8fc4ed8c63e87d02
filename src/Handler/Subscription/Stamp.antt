-- ===== src/Handler/Subscription/Stamp.antt =====
-- The time that a raw message carries, from two readings of the clock.
use rws.Base.{ℕ, ◌+◌, ◌*◌, ◌/◌, ◌^◌, ◌≤◌, ◌<◌, ◌≡◌, ◌↔◌, leb, if◌then◌else◌, arith}
use rws.Handler.Subscription.{nsecs_of}

-- Whatever whole seconds the first reading of the clock has been converted to, if the second
-- reading is less than 2 ^ 32 nanoseconds behind their start and at most 3 * 10 ^ 9 in front of it:
-- the seconds and the nanoseconds of the message add up to the second reading if it is not in front
-- of their start, and to 2 ^ 32 nanoseconds more if it is; the nanoseconds are below 10 ^ 9 exactly
-- if the second reading lies in that second.
pub nsecs_of_lem :
    (secs second : ℕ)
    → second < secs * 1000000000 + 2 ^ 32
    → secs * 1000000000 ≤ second + 3000000000
    → (secs * 1000000000 + nsecs_of secs second
        ≡ (if leb (secs * 1000000000) second then second else second + 2 ^ 32))
      × ((nsecs_of secs second < 1000000000) ↔ (secs ≡ second / 1000000000))
nsecs_of_lem secs second soon near = ground arith
