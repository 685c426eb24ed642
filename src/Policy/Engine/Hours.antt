-- ===== src/Policy/Engine/Hours.antt =====
-- The quiet hours of policy_engine.py, which may pass midnight, as an interval of the clock face.
use revive_x.Prelude.{ℕ, ◌+◌, ◌-◌, ◌%◌, ◌<◌, ◌≡◌, arith, ltb}
use revive_x.Policy.Engine.{quiet_at}

-- How many hours after `start` an hour of the day comes round.
abbrev pub hours_after : ℕ → ℕ → ℕ
hours_after start hour = (hour + 24 - start) % 24

-- For hours of the day: an hour is quiet exactly when, going round the clock from the start, it
-- comes before the end; if start and end are the same hour, none is quiet.
pub quiet_at_lem :
    (hour start end : ℕ)
    → hour < 24
    → start < 24
    → end < 24
    → quiet_at hour start end ≡ ltb (hours_after start hour) (hours_after start end)
unfolding quiet_at
quiet_at_lem hour start end h s e = ground arith
