-- ===== src/Controller/Backoff/Laws.antt =====
-- The delay after any sequence of failures and resets.
use stoker_operator.Prelude.{
  ℕ, zero, suc, ◌-◌, ◌≡◌, refl, String, Option, none, some, List, [], ◌∷◌, ◌==◌, string_eq, arith,
  if◌then◌else◌,
}
use stoker_operator.Prelude.Dict.{lookup, lookup-insert, lookup-erase}
use stoker_operator.Controller.Backoff.{
  BackoffState, Backoff, doubled, delay_of, backoff_delay, failed_once_more, record_failure,
  reset_backoff,
}

-- What happens to the map, by any of the reconciles.
pub data Event : Type 0 where
  failed : ℕ → String → Event
  reset : String → Event

-- The map after the events, the latest first.
unfoldable pub replay : List Event → Backoff
replay [] = []
replay (failed now key ∷ earlier) = record_failure now key (replay earlier)
replay (reset key ∷ earlier) = reset_backoff key (replay earlier)

-- The failures of a key since its last reset.
unfoldable pub streak : String → List Event → ℕ
streak key [] = 0
streak key (failed now j ∷ earlier) = let n = streak key earlier in if key == j then suc n else n
streak key (reset j ∷ earlier) = let n = streak key earlier in if key == j then 0 else n

-- 30, 60, 120, 240 and then 300 seconds.
unfoldable pub backoff_table : ℕ → ℕ
backoff_table zero = 30
backoff_table (suc zero) = 30
backoff_table (suc (suc zero)) = 60
backoff_table (suc (suc (suc zero))) = 120
backoff_table (suc (suc (suc (suc zero)))) = 240
backoff_table (suc (suc (suc (suc (suc n))))) = 300

abbrev failures : Option BackoffState → ℕ
failures none = 0
failures (some state) = state.failure_count

doubled_capped : (rounds : ℕ) → doubled rounds 480 ≡ 480
unfolding doubled
doubled_capped zero = refl
doubled_capped (suc rounds) = refl

doubled_late : (n rounds : ℕ) → rounds ≡ suc (suc (suc (suc n))) → doubled rounds 30 ≡ 480
unfolding doubled
doubled_late n rounds e = rw e (doubled_capped n)

delay_of_table : (o : Option BackoffState) (n : ℕ) → failures o ≡ n → delay_of o ≡ backoff_table n
unfolding delay_of backoff_table doubled
delay_of_table none zero e = refl
delay_of_table none (suc n) e = omega (arith, e)
delay_of_table (some state) zero e = rw e refl
delay_of_table (some state) (suc zero) e = rw e refl
delay_of_table (some state) (suc (suc zero)) e = rw e refl
delay_of_table (some state) (suc (suc (suc zero))) e = rw e refl
delay_of_table (some state) (suc (suc (suc (suc zero)))) e = rw e refl
delay_of_table (some state) (suc (suc (suc (suc (suc n))))) e =
    let d = doubled_late n (state.failure_count - 1) (omega (arith, e)) in ground (arith, e, d)

failures_once_more :
    (now : ℕ) (o : Option BackoffState)
    → failures (some (failed_once_more now o)) ≡ suc (failures o)
unfolding failed_once_more
failures_once_more now none = refl
failures_once_more now (some state) = refl

failures-replay :
    (key : String) (es : List Event) → failures (lookup key (replay es)) ≡ streak key es
unfolding replay streak record_failure reset_backoff lookup
failures-replay key [] = refl
failures-replay key (failed now j ∷ es) =
    let state = failed_once_more now (lookup j (replay es)) in
    ground (
      arith,
      lookup-insert key j state (replay es),
      failures_once_more now (lookup key (replay es)),
      failures-replay key es,
    )
failures-replay key (reset j ∷ es) =
    ground (arith, lookup-erase key j (replay es), failures-replay key es)

-- After any sequence of failures and resets of any objects, an object's delay is that of the
-- documented table at the number of its own failures since its last reset.
pub backoff_delay-replay :
    (key : String) (es : List Event) → backoff_delay (replay es) key ≡ backoff_table (streak key es)
unfolding backoff_delay
backoff_delay-replay key es =
    delay_of_table (lookup key (replay es)) (streak key es) (failures-replay key es)
