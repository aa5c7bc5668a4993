-- ===== src/Prelude/Clock.antt =====
-- `time.Duration` constants in nanoseconds.
use Prim.Native.Nat.{ℕ, ◌*◌}

abbrev pub millisecond : ℕ
millisecond = 1000000

abbrev pub second : ℕ
second = 1000000000

abbrev pub minute : ℕ
minute = 60 * second

abbrev pub hour : ℕ
hour = 60 * minute
