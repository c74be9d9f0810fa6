-- ===== src/Consumer/Limits/Rate.antt =====
-- clientlibrary/worker/polling-shard-consumer.go: the bytes read over any number of calls of
-- callGetRecordsAPI.
use vmware_go_kcl_v2_test.Prelude.{
  ℕ, ◌+◌, ◌*◌, ◌≤◌, ◌⊎◌, inl, inr, String, Option, List, [], ◌∷◌, arith,
}
use vmware_go_kcl_v2_test.Prelude.Int.{ℤ, pos, ◌+ℤ◌, ◌-ℤ◌, ◌≤ℤ◌, ◌<ℤ◌, +ℤ_parts, -ℤ_parts, int_laws}
use vmware_go_kcl_v2_test.Partition.{Time, zero_time}
use vmware_go_kcl_v2_test.Kinesis.{KinesisApi}
use vmware_go_kcl_v2_test.Consumer.Limits.{
  Limits, refill, refilled, CallInstants, call_in_window, call_get_records_api, max_bytes,
}
use vmware_go_kcl_v2_test.Consumer.Limits.Bytes.{
  Spends, Reads, bytes_of, check-cases, window-Reads, call-Spends,
}

refill-add :
    (a b c : Time) → a ≤ℤ b → b ≤ℤ c → refill (b -ℤ a) +ℤ refill (c -ℤ b) ≤ℤ refill (c -ℤ a)
unfolding refill
refill-add a b c h k =
    ground (
      arith,
      -ℤ_parts b a,
      -ℤ_parts c b,
      -ℤ_parts c a,
      +ℤ_parts (refill (b -ℤ a)) (refill (c -ℤ b)),
    )

Spends-trans :
    (n m : ℕ) (l l' l'' : Limits) → Spends n l l' → Spends m l' l'' → Spends (n + m) l l''
Spends-trans n m l l' l'' p q =
    let more =
      refill-add l.last_check_time l'.last_check_time l''.last_check_time p.forward q.forward in
    record {
      covered = omega (int_laws, p.covered, q.covered);
      forward = omega (arith, p.forward, q.forward);
      capped = λ h. q.capped (p.capped h);
    }

refill-self : (a : Time) → pos 0 ≤ℤ refill (a -ℤ a)
unfolding refill
refill-self a = ground (arith, -ℤ_parts a a)

refilled-ge :
    (now : Time) (l : Limits)
    → l.last_check_time ≤ℤ now
    → (l.rem_bytes ≤ℤ refilled now l) ⊎ (pos max_bytes ≤ℤ refilled now l)
unfolding refilled refill
refilled-ge now l h = ground (
  arith,
  -ℤ_parts now l.last_check_time,
  +ℤ_parts l.rem_bytes (refill (now -ℤ l.last_check_time)),
)

Spends-refl : (l : Limits) → Spends 0 l l
Spends-refl l =
    let more = refill-self l.last_check_time in
    record { covered = omega int_laws; forward = omega arith; capped = λ h. h }

module _ (k : KinesisApi) (limit : ℤ) where
  -- A call after another, each with its readings of the clock and its iterator; the bytes read.
  pub run_calls : List (CallInstants × Option String) → Limits → k.State → Limits × ℕ
  run_calls [] l s = (l, 0)
  run_calls ((now, iterator) ∷ calls) l s =
      let (s', l', _, reply) = call_get_records_api k now limit iterator l s in
      let (l'', n) = run_calls calls l' s' in (l'', bytes_of reply + n)

  -- The clock does not run backwards from one check to the next.
  abbrev pub InOrder : Time → List (CallInstants × Option String) → Type 0
  InOrder t [] = Unit
  InOrder t ((now, iterator) ∷ calls) = (t ≤ℤ now.check) × InOrder now.check calls

  -- No reply is longer than `most`, and the debt is no larger.
  pub record IsWithin (most : ℕ) (l : Limits) : Type 0 where
    pub bytes : l.bytes_read ≤ most
    pub debt : pos 0 ≤ℤ l.rem_bytes +ℤ pos most
    pub known : zero_time <ℤ l.last_check_time

  module _ (most : ℕ) (now : CallInstants) (iterator : Option String) where
    -- What a call keeps, from what the part in the window does.
    read-IsWithin :
        (n : ℕ) (l l' : Limits) → n ≤ most → IsWithin most l → Reads n l l' → IsWithin most l'
    read-IsWithin n l l' fits w r =
        let read = r.read in
        record {
          bytes = omega (arith, w.bytes);
          debt = rw r.budget w.debt;
          known = rw r.checked w.known;
        }

    reply_fits :
        ((t : Option String) (s : k.State) → bytes_of (k.get_records limit t s).1 ≤ most)
        → (l : Limits) (s : k.State) → bytes_of (call_in_window k now limit iterator l s).3 ≤ most
    unfolding call_in_window
    reply_fits fits l s = ground (arith, fits iterator s)

    call-IsWithin :
        ((t : Option String) (s : k.State) → bytes_of (k.get_records limit t s).1 ≤ most)
        → (l : Limits) (s : k.State) → l.last_check_time ≤ℤ now.check
        → IsWithin most l
        → let r = call_get_records_api k now limit iterator l s in
          IsWithin most r.1 × (r.1.last_check_time ≤ℤ now.check)
    unfolding call_get_records_api
    call-IsWithin fits l s h w = elim (check-cases now.check l) [
      | inl (e, q) ↦
          let r = window-Reads k now limit iterator l s w.known in
          rw q (read-IsWithin _ l _ (reply_fits fits _ s) w r, rw r.checked h)
      | inr (inl q) ↦ rw q (
        record {
          bytes = w.bytes;
          debt = omega (int_laws, refilled-ge now.check l h, w.debt);
          known = omega (arith, w.known);
        },
        omega arith,
      )
      | inr (inr (paid, q)) ↦
          let l1 = record l {
            last_check_time = now.check;
            rem_bytes = refilled now.check l -ℤ pos l.bytes_read;
          } in
          let w1 : IsWithin most l1 = record {
            bytes = w.bytes;
            debt = omega (int_laws, paid, w.bytes);
            known = omega (arith, w.known, h);
          } in
          let r = window-Reads k now limit iterator l1 s w1.known in
          rw q (read-IsWithin _ l1 _ (reply_fits fits _ s) w1 r, rw r.checked (omega arith))
    ]

  run-Spends :
      (most : ℕ) (calls : List (CallInstants × Option String)) (l : Limits) (s : k.State)
      → ((t : Option String) (u : k.State) → bytes_of (k.get_records limit t u).1 ≤ most)
      → InOrder l.last_check_time calls
      → IsWithin most l
      → let r = run_calls calls l s in Spends r.1 l r.0 × IsWithin most r.0
  unfolding run_calls
  run-Spends most [] l s fits o w = (Spends-refl l, w)
  run-Spends most ((now, iterator) ∷ calls) l s fits (h, o) w =
      let r = call_get_records_api k now limit iterator l s in
      let (w', recent) = call-IsWithin most now iterator fits l s h w in
      let (p, w'') =
        run-Spends most calls r.1 r.0 fits (later r.1.last_check_time now.check calls recent o)
          w' in
      (Spends-trans _ _ l r.1 _ (call-Spends k now limit iterator l s w.known h) p, w'')
    where
      later :
          (t u : Time) (cs : List (CallInstants × Option String))
          → t ≤ℤ u
          → InOrder u cs
          → InOrder t cs
      later t u [] le o = tt
      later t u (c ∷ cs) le (p, o) = (omega (arith, p, le), o)

  -- Over any number of calls the bytes read are within the limit of the shard: with replies of at
  -- most `most` bytes and checks in order of time, from a state whose last check has a time and
  -- whose budget and last read are within bounds, they are at most the budget, twice `most`, and
  -- what the refill of 2,000,000 bytes a second gives for the time from the first to the last check.
  pub bytes_read_bounded :
      (most : ℕ) (calls : List (CallInstants × Option String)) (l : Limits) (s : k.State)
      → ((t : Option String) (u : k.State) → bytes_of (k.get_records limit t u).1 ≤ most)
      → InOrder l.last_check_time calls
      → IsWithin most l
      → let (l', read) = run_calls calls l s in
        pos read
        ≤ℤ l.rem_bytes +ℤ pos (2 * most) +ℤ refill (l'.last_check_time -ℤ l.last_check_time)
  bytes_read_bounded most calls l s fits o w =
      let (p, w') = run-Spends most calls l s fits o w in
      omega (int_laws, p.covered, w'.bytes, w'.debt)
