-- ===== src/Consumer/Limits/Calls.antt =====
-- clientlibrary/worker/polling-shard-consumer.go: the limit of calls a second, the cool-down, and
-- what a call that reads nothing does to the budget.
use vmware_go_kcl_v2_test.Prelude.{
  zero, suc, ◌⊎◌, Bool-cases, All, ℕ, ◌+◌, ◌-◌, ◌*◌, ◌≤◌, ◌<◌, ◌≡◌, inl, inr, refl, String, true,
  false, Option, List, [], ◌∷◌, ltb, arith,
}
use vmware_go_kcl_v2_test.Prelude.Int.{
  ℤ, pos, ◌+ℤ◌, ◌-ℤ◌, ◌≤ℤ◌, ◌<ℤ◌, ltb_ℤ, ltb_ℤ→lt, +ℤ_parts, -ℤ_parts,
}
use vmware_go_kcl_v2_test.Partition.{Time}
use vmware_go_kcl_v2_test.Checkpoint.{Reply, ok, failed, local_tps_exceeded}
use vmware_go_kcl_v2_test.Kinesis.{GetRecordsOutput, KinesisApi}
use vmware_go_kcl_v2_test.Consumer.Limits.Bytes.{check-cases}
use vmware_go_kcl_v2_test.Consumer.Limits.{
  Limits, CallInstants, kinesis_read_tps_limit, refill, cool_down, refilled, check_cool_off_period,
  check_if_read, renew_window, record_read, call_in_window, call_get_records_api,
}

-- The readings of a call, in their order and up to an end.
abbrev pub IsTimed : Time → CallInstants × Option String → Type 0
IsTimed end call = (call.0.since ≤ℤ call.0.renew) × (call.0.renew ≤ℤ end)

-- A second has passed since the window began.
abbrev second : ℕ
second = 1_000_000_000

-- A window that is renewed begins more than a second after the old one, so an end that is within
-- some seconds of the old one is within one less of the new one.
one_window_less :
    (since renew curr end : Time) (seconds : ℕ)
    → pos second <ℤ (since -ℤ curr)
    → since ≤ℤ renew
    → renew ≤ℤ end
    → end ≤ℤ curr +ℤ pos (seconds * second)
    → (fewer : ℕ) × (seconds ≡ fewer + 1) × (end ≤ℤ renew +ℤ pos (fewer * second))
one_window_less since renew curr end zero late order last within =
    absurd (omega (arith, -ℤ_parts since curr, +ℤ_parts curr (pos (0 * second))))
one_window_less since renew curr end (suc fewer) late order last within = (
  fewer,
  omega arith,
  omega (
    arith,
    -ℤ_parts since curr,
    +ℤ_parts curr (pos (suc fewer * second)),
    +ℤ_parts renew (pos (fewer * second)),
  ),
)

module _ (k : KinesisApi) (limit : ℤ) (served : k.State → ℕ)
    (counts : (iterator : Option String) (s : k.State)
      → served (k.get_records limit iterator s).0 ≡ served s + 1) where
  record_read-window :
      (done : Time) (reply : Reply GetRecordsOutput) (l : Limits)
      → ((record_read done reply l).calls_left ≡ l.calls_left)
        × ((record_read done reply l).curr_time ≡ l.curr_time)
  unfolding record_read
  record_read-window done (failed e) l = (refl, refl)
  record_read-window done (ok out) l = (refl, refl)

  -- What a call leaves of a window that has `left` calls and began at `start`.
  abbrev Spent : Time → ℕ → k.State → k.State × Limits × ℕ × Reply GetRecordsOutput → Type 0
  Spent start left s r = (served r.0 + r.1.calls_left ≤ served s + left) × (r.1.curr_time ≡ start)

  call_in_window-Spent :
      (now : CallInstants) (iterator : Option String) (l : Limits) (s : k.State)
      → Spent l.curr_time l.calls_left s (call_in_window k now limit iterator l s)
  unfolding call_in_window
  call_in_window-Spent now iterator l s =
      let less = record l { calls_left = l.calls_left - 1 } in
      let (left, same) = record_read-window now.done (k.get_records limit iterator s).1 less in
      elim (Bool-cases (ltb l.calls_left 1)) [
        | inl none_left ↦ rw none_left (omega arith, refl)
        | inr some_left ↦ rw some_left (ground (arith, left, counts iterator s), same)
      ]

  -- A call in the window that is open, or in a new one.
  abbrev InWindow :
      CallInstants → Limits → k.State → k.State × Limits × ℕ × Reply GetRecordsOutput → Type 0
  InWindow now l s r =
      Spent l.curr_time l.calls_left s r
      ⊎ ((pos second <ℤ (now.since -ℤ l.curr_time)) × Spent now.renew 5 s r)

  renewed-InWindow :
      (now : CallInstants) (iterator : Option String) (l : Limits) (s : k.State)
      → InWindow now l s
          (call_in_window k now limit iterator (renew_window now.since now.renew l) s)
  unfolding renew_window
  renewed-InWindow now iterator l s =
      elim (Bool-cases (ltb_ℤ (pos second) (now.since -ℤ l.curr_time))) [
        | inl late ↦
            let passed = ltb_ℤ→lt (pos second) (now.since -ℤ l.curr_time) late in
            rw late (inr (passed, call_in_window-Spent now iterator _ s))
        | inr within ↦ rw within (inl (call_in_window-Spent now iterator l s))
      ]

  call-InWindow :
      (now : CallInstants) (iterator : Option String) (l : Limits) (s : k.State)
      → InWindow now l s (call_get_records_api k now limit iterator l s)
  unfolding call_get_records_api
  call-InWindow now iterator l s = elim (check-cases now.check l) [
    | inl (e, q) ↦ rw q (renewed-InWindow now iterator l s)
    | inr (inl q) ↦ rw q (inl (omega arith, refl))
    | inr (inr (_, q)) ↦ rw q (renewed-InWindow now iterator _ s)
  ]

  -- A call after another, each with its readings of the clock and its iterator.
  pub make_calls : List (CallInstants × Option String) → Limits → k.State → k.State × Limits
  make_calls [] l s = (s, l)
  make_calls ((now, iterator) ∷ calls) l s =
      let (s', l', _, _) = call_get_records_api k now limit iterator l s in make_calls calls l' s'

  make_calls-bounded :
      (calls : List (CallInstants × Option String)) (l : Limits) (s : k.State) (end : Time)
      (seconds : ℕ)
      → All (IsTimed end) calls
      → end ≤ℤ l.curr_time +ℤ pos (seconds * second)
      → served (make_calls calls l s).0 ≤ served s + l.calls_left + 5 * seconds
  unfolding make_calls
  make_calls-bounded [] l s end seconds timed within = omega arith
  make_calls-bounded ((now, iterator) ∷ calls) l s end seconds ((order, last), timed) within =
      let r = call_get_records_api k now limit iterator l s in
      elim (call-InWindow now iterator l s) [
        | inl (spent, same) ↦
            let rest = make_calls-bounded calls r.1 r.0 end seconds timed (rw same within) in
            omega (arith, spent, rest)
        | inr (late, (spent, new)) ↦
            let (fewer, one, nearer) =
              one_window_less now.since now.renew l.curr_time end seconds late order last within in
            let rest = make_calls-bounded calls r.1 r.0 end fewer timed (rw new nearer) in
            omega (arith, spent, rest, one)
      ]

  -- Kinesis is called at most five times a second: with at most five calls left in a window, any
  -- number of calls of callGetRecordsAPI that end within some seconds of the start of the window
  -- make at most five calls of GetRecords for each of the seconds, and five more. (The clock does
  -- not run backwards within a call; `served` is any count that a call of GetRecords raises by one.)
  pub calls_reached_bounded :
      (calls : List (CallInstants × Option String)) (l : Limits) (s : k.State) (end : Time)
      (seconds : ℕ)
      → l.calls_left ≤ kinesis_read_tps_limit
      → All (IsTimed end) calls
      → end ≤ℤ l.curr_time +ℤ pos (seconds * 1_000_000_000)
      → served (make_calls calls l s).0 ≤ served s + kinesis_read_tps_limit * (seconds + 1)
  calls_reached_bounded calls l s end seconds left timed within =
      omega (arith, make_calls-bounded calls l s end seconds timed within)

module _ (k : KinesisApi) (limit : ℤ) where
  -- A call that passes the check of bytes and then finds no call left in its window has charged
  -- the bytes of the last read to the budget and still holds them as the last read.
  pub refused_call_charges :
      (now : CallInstants) (iterator : Option String) (l : Limits) (s : k.State)
      → 0 < l.bytes_read
      → pos 1 ≤ℤ refilled now.check l
      → l.calls_left ≡ 0
      → now.since ≤ℤ l.curr_time +ℤ pos 1_000_000_000
      → call_get_records_api k now limit iterator l s ≡ (
        s,
        record l {
          last_check_time = now.check;
          rem_bytes = refilled now.check l -ℤ pos l.bytes_read;
        },
        0,
        failed local_tps_exceeded,
      )
  unfolding call_get_records_api check_if_read check_cool_off_period renew_window call_in_window
  refused_call_charges now iterator l s read paid out_of_calls recent =
      ground (arith, -ℤ_parts now.since l.curr_time, +ℤ_parts l.curr_time (pos 1_000_000_000))

cool_down-refill :
    (n : ℕ) (a b : Time) → a +ℤ pos (cool_down n * 1_000_000_000) ≤ℤ b → pos n ≤ℤ refill (b -ℤ a)
unfolding cool_down refill
cool_down-refill n a b h =
    ground (arith, -ℤ_parts b a, +ℤ_parts a (pos (cool_down n * 1_000_000_000)))

check-refused :
    (now : Time) (l : Limits)
    → (check_cool_off_period now l).2 ≡ true
    → check_cool_off_period now l ≡ (
      record l { last_check_time = now; rem_bytes = refilled now l },
      cool_down l.bytes_read,
      true,
    )
unfolding check_cool_off_period
check-refused now l h = ground arith

check-passed :
    (now : Time) (l : Limits) → pos 1 ≤ℤ refilled now l → (check_cool_off_period now l).2 ≡ false
unfolding check_cool_off_period
check-passed now l h = ground arith

refilled-paid :
    (later : Time) (l : Limits) (n : ℕ)
    → pos 1 ≤ℤ l.rem_bytes +ℤ pos n
    → pos n ≤ℤ refill (later -ℤ l.last_check_time)
    → pos 1 ≤ℤ refilled later l
unfolding refilled
refilled-paid later l n debt paid = ground (
  arith,
  +ℤ_parts l.rem_bytes (pos n),
  +ℤ_parts l.rem_bytes (refill (later -ℤ l.last_check_time)),
)

-- To wait for the cool-down is enough: when a check is refused with a debt of less than the last
-- read, the next check, made no sooner than the seconds that the refusal names, passes.
pub cool_down_suffices :
    (now later : Time) (l : Limits)
    → let (l', wait, over) = check_cool_off_period now l in
      over ≡ true
      → pos 1 ≤ℤ l'.rem_bytes +ℤ pos l.bytes_read
      → now +ℤ pos (wait * 1_000_000_000) ≤ℤ later
      → (check_cool_off_period later l').2 ≡ false
cool_down_suffices now later l refused debt waited =
    let e = check-refused now l refused in
    let l' = record l { last_check_time = now; rem_bytes = refilled now l } in
    rw e (
      check-passed later l' (
        refilled-paid later l' l.bytes_read (rw e at debt)
          (cool_down-refill l.bytes_read now later (rw e at waited))))
