-- ===== src/Consumer/Limits/Bytes.antt =====
-- clientlibrary/worker/polling-shard-consumer.go: the budget of bytes.
use vmware_go_kcl_v2_test.Prelude.{
  ℕ, ◌-◌, ◌*◌, ◌≤◌, ◌≡◌, ◌⊎◌, inl, inr, String, true, false, Option, arith,
}
use vmware_go_kcl_v2_test.Prelude.Int.{ℤ, pos, ◌+ℤ◌, ◌-ℤ◌, ◌≤ℤ◌, ◌<ℤ◌, -ℤ_parts, int_laws}
use vmware_go_kcl_v2_test.Partition.{Time, zero_time}
use vmware_go_kcl_v2_test.Checkpoint.{Reply, ok, failed}
use vmware_go_kcl_v2_test.Kinesis.{GetRecordsOutput, KinesisApi}
use vmware_go_kcl_v2_test.Consumer.Limits.{
  Limits, refill, cool_down, refilled, check_cool_off_period, check_if_read, CallInstants,
  renew_window, count_bytes, record_read, call_in_window, call_get_records_api, max_bytes,
  max_bytes_per_second,
}

-- The cool-down is the least number of seconds in which the bytes of the last read may be read.
pub cool_down_least :
    (n : ℕ)
    → (n ≤ cool_down n * max_bytes_per_second)
      × ((k : ℕ) → n ≤ k * max_bytes_per_second → cool_down n ≤ k)
unfolding cool_down
cool_down_least n = (ground arith, λ k h. ground arith)

refill-pos : (k n : ℕ) → k * 1_000_000_000 ≤ n → pos (k * max_bytes_per_second) ≤ℤ refill (pos n)
unfolding refill
refill-pos k n h = omega arith

abbrev pub bytes_of : Reply GetRecordsOutput → ℕ
bytes_of (failed e) = 0
bytes_of (ok out) = count_bytes out.records

refill-nonneg : (a b : Time) → a ≤ℤ b → pos 0 ≤ℤ refill (b -ℤ a)
unfolding refill
refill-nonneg a b h = ground (arith, -ℤ_parts b a)

pub refilled-le :
    (now : Time) (l : Limits)
    → (refilled now l ≤ℤ l.rem_bytes +ℤ refill (now -ℤ l.last_check_time))
      × (refilled now l ≤ℤ pos max_bytes)
unfolding refilled
refilled-le now l = ground arith

-- From `l` to `l'`, with `n` bytes read in between: the bytes read, and those left to charge, are
-- covered by the budget and its refill.
pub record Spends (n : ℕ) (l l' : Limits) : Type 0 where
  pub covered :
      pos n +ℤ l'.rem_bytes +ℤ pos l.bytes_read
      ≤ℤ l.rem_bytes +ℤ pos l'.bytes_read +ℤ refill (l'.last_check_time -ℤ l.last_check_time)
  pub forward : l.last_check_time ≤ℤ l'.last_check_time
  pub capped : l.rem_bytes ≤ℤ pos max_bytes → l'.rem_bytes ≤ℤ pos max_bytes

-- What a check that passes leaves, and what one that fails leaves.
pub check-cases :
    (now : Time) (l : Limits)
    → ((l.bytes_read ≡ 0) × (check_if_read now l ≡ (l, 0, false)))
      ⊎ (check_if_read now l ≡ (
        record l { last_check_time = now; rem_bytes = refilled now l },
        cool_down l.bytes_read,
        true,
      ))
      ⊎ ((pos 1 ≤ℤ refilled now l)
          × (check_if_read now l ≡ (
            record l { last_check_time = now; rem_bytes = refilled now l -ℤ pos l.bytes_read },
            0,
            false,
          )))
unfolding check_if_read check_cool_off_period
check-cases now l = ground arith

-- A call in the window keeps the budget, and charges nothing yet.
pub record Reads (n : ℕ) (l l' : Limits) : Type 0 where
  pub budget : l'.rem_bytes ≡ l.rem_bytes
  pub checked : l'.last_check_time ≡ l.last_check_time
  pub read : ((n ≡ 0) × (l'.bytes_read ≡ l.bytes_read)) ⊎ (l'.bytes_read ≡ n)

module _ (k : KinesisApi) (now : CallInstants) (limit : ℤ) (iterator : Option String) where
  record_read-Reads :
      (reply : Reply GetRecordsOutput) (l : Limits)
      → zero_time <ℤ l.last_check_time
      → Reads (bytes_of reply) l (record_read now.done reply l)
  unfolding record_read
  record_read-Reads (failed e) l h = ground arith
  record_read-Reads (ok out) l h = ground arith

  call_in_window-Reads :
      (l : Limits) (s : k.State)
      → zero_time <ℤ l.last_check_time
      → Reads
          (bytes_of (call_in_window k now limit iterator l s).3)
          l
          (call_in_window k now limit iterator l s).1
  unfolding call_in_window
  call_in_window-Reads l s h = ground (
    arith,
    record_read-Reads (k.get_records limit iterator s).1
        (record l { calls_left = l.calls_left - 1 }) h,
  )

  renew_window-Reads : (l : Limits) → Reads 0 l (renew_window now.since now.renew l)
  unfolding renew_window
  renew_window-Reads l = ground arith

  pub window-Reads :
      (l : Limits) (s : k.State)
      → zero_time <ℤ l.last_check_time
      → let r = call_in_window k now limit iterator (renew_window now.since now.renew l) s in
        Reads (bytes_of r.3) l r.1
  window-Reads l s h =
      let w = renew_window-Reads l in
      let r =
        call_in_window-Reads (renew_window now.since now.renew l) s (ground (arith, w.checked)) in
      ground (arith, w.budget, w.checked, w.read, r.budget, r.checked, r.read)

  Reads-Spends-idle : (n : ℕ) (l l' : Limits) → l.bytes_read ≡ 0 → Reads n l l' → Spends n l l'
  Reads-Spends-idle n l l' e r =
      let read = r.read in
      let more = refill-nonneg l.last_check_time l.last_check_time (omega arith) in
      record {
        covered = rw (r.budget, r.checked) (omega int_laws);
        forward = rw r.checked (omega arith);
        capped = rw r.budget (λ h. h);
      }

  Reads-Spends-charged :
      (n : ℕ) (l l' : Limits)
      → l.last_check_time ≤ℤ now.check
      → Reads n
          (record l {
            last_check_time = now.check;
            rem_bytes = refilled now.check l -ℤ pos l.bytes_read;
          })
          l'
      → Spends n l l'
  Reads-Spends-charged n l l' h r =
      let read = r.read in
      let le = refilled-le now.check l in
      record {
        covered = rw (r.budget, r.checked) (omega int_laws);
        forward = rw r.checked h;
        capped = λ c. rw r.budget (omega int_laws);
      }

  refused-Spends :
      (l : Limits)
      → l.last_check_time ≤ℤ now.check
      → Spends 0 l (record l { last_check_time = now.check; rem_bytes = refilled now.check l })
  refused-Spends l h =
      let le = refilled-le now.check l in
      record { covered = omega int_laws; forward = h; capped = λ c. le.1 }

  -- One call of the API.
  pub call-Spends :
      (l : Limits) (s : k.State)
      → zero_time <ℤ l.last_check_time
      → l.last_check_time ≤ℤ now.check
      → let r = call_get_records_api k now limit iterator l s in Spends (bytes_of r.3) l r.1
  unfolding call_get_records_api
  call-Spends l s known h = elim (check-cases now.check l) [
    | inl (e, q) ↦ rw q (Reads-Spends-idle _ l _ e (window-Reads l s known))
    | inr (inl q) ↦ rw q (refused-Spends l h)
    | inr (inr (_, q)) ↦ rw q (Reads-Spends-charged _ l _ h (window-Reads _ s (omega arith)))
  ]
