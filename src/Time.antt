-- ===== src/Time.antt =====
-- Go's `time.Time`, as far as the code uses it: an instant, counted in nanoseconds from the zero
-- time on, the location (0 is UTC) and the monotonic clock reading. `==`, and so the key of a map,
-- compares all three; `Equal` and `After` compare the instants.
use access_controller.Prelude.{
  ℕ, ◌≡◌, ◌↔◌, Bool, true, false, ◌&&◌, Option, none, some, arith, ltb, ◌==◌,
}
use access_controller.Map.{Key}

pub record Time : Type 0 where
  pub instant : ℕ
  pub location : ℕ
  pub monotonic : Option ℕ

-- var t time.Time
abbrev pub zero_time : Time
zero_time = record { instant = 0; location = 0; monotonic = none }

-- t.Round(0).UTC()
unfoldable pub round_utc : Time → Time
round_utc t = record { instant = t.instant; location = 0; monotonic = none }

-- t.Equal(u)
abbrev pub equal : Time → Time → Bool
equal t u = t.instant == u.instant

-- t.After(u)
abbrev pub after : Time → Time → Bool
after t u = ltb u.instant t.instant

same_reading : Option ℕ → Option ℕ → Bool
same_reading none none = true
same_reading (some a) (some b) = a == b
same_reading _ _ = false

-- t == u
unfoldable pub time_eq : Time → Time → Bool
unfolding same_reading
time_eq t u =
    t.instant == u.instant && t.location == u.location && same_reading t.monotonic u.monotonic

pub time_eq_iff : (t u : Time) → (time_eq t u ≡ true) ↔ (t ≡ u)
unfolding time_eq
time_eq_iff t u = ground arith

instance abbrev pub time_key : Key Time
time_key = record { beq = time_eq; beq_iff = time_eq_iff }
