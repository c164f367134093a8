-- ===== src/Redis/Memory.antt =====
-- A server in memory that meets the assumptions: a table of counters and a table of values.
use inference_control_plane.Prelude.{ℕ, ◌+◌, String, refl, Option, none, some, ◌==◌, if◌then◌else◌}
use inference_control_plane.Prelude.Int.{pos}
use inference_control_plane.Python.{ok}
use inference_control_plane.Redis.{Redis, IsReliable}

pub record Tables (Text : Type 0) : Type 0 where
  pub counters : String → ℕ
  pub values : String → Option Text

module _ {Text : Type 0} where
  abbrev pub put_count : Tables Text → String → Tables Text
  put_count s k = record s { counters = λ j. if j == k then s.counters k + 1 else s.counters j }

  abbrev pub put_value : Tables Text → String → Text → Tables Text
  put_value s k v = record s { values = λ j. if j == k then some v else s.values j }

abbrev pub memory : (Text : Type 0) → Redis Text
memory Text = record {
  State = Tables Text;
  incr_ttl = λ k s. (ok (pos (s.counters k + 1), pos 42), put_count s k);
  expire = λ k n s. (ok tt, s);
  get = λ k s. (ok (s.values k), s);
  set = λ k v n s. (ok tt, put_value s k v);
}

abbrev pub memory-IsReliable : (Text : Type 0) → IsReliable (memory Text)
memory-IsReliable Text = record {
  count = λ s k. s.counters k;
  value = λ s k. s.values k;
  ttl = λ s k. pos 42;
  incr = put_count;
  incr_ttl_lem = λ k s. refl;
  count-incr = λ k j s. refl;
  expire_ok = λ k n s. refl;
  count-expire = λ k j n s. refl;
  get_lem = λ k s. refl;
  set_ok = λ k v n s. refl;
  value-set = λ k j v n s. refl;
}

abbrev pub empty : (Text : Type 0) → Tables Text
empty Text = record { counters = λ k. 0; values = λ k. none }
