-- ===== src/Worker/FanOut/Retries.antt =====
-- clientlibrary/worker/worker-fan-out.go: the attempts of fetchConsumerARNWithRetry.
use vmware_go_kcl_v2_test.Prelude.{
  ℕ, zero, suc, ◌≤◌, ◌<◌, ◌≡◌, ◌⊎◌, inl, inr, refl, sym, ap, String, arith,
}
use vmware_go_kcl_v2_test.Config.{KinesisClientLibConfiguration}
use vmware_go_kcl_v2_test.Checkpoint.{Error, Reply, ok, failed}
use vmware_go_kcl_v2_test.Kinesis.{KinesisApi}
use vmware_go_kcl_v2_test.Worker.FanOut.{
  fetch_consumer_arn, retry_arn, fetch_retrying, fetch_consumer_arn_with_retry,
}

module _ (k : KinesisApi) (cfg : KinesisClientLibConfiguration) where
  -- The state after so many attempts.
  unfoldable pub attempted : ℕ → k.State → k.State
  attempted zero s = s
  attempted (suc n) s = attempted n (fetch_consumer_arn k cfg s).0

  -- The result is that of attempt `n`, of at most `most`: each one before it failed, and it
  -- succeeded unless it is the last.
  pub record Settled (most : ℕ) (s : k.State) (result : k.State × Reply String) : Type 0 where
    pub n : ℕ
    pub few : n ≤ most
    pub outcome : result ≡ fetch_consumer_arn k cfg (attempted n s)
    pub before :
        (i : ℕ) → i < n → (e : Error) × ((fetch_consumer_arn k cfg (attempted i s)).1 ≡ failed e)
    pub success : ((arn : String) × (result.1 ≡ ok arn)) ⊎ (n ≡ most)

  Settled-now :
      (most : ℕ) (s s' : k.State) (arn : String)
      → fetch_consumer_arn k cfg s ≡ (s', ok arn)
      → Settled most s (s', ok arn)
  unfolding attempted
  Settled-now most s s' arn e = record {
    n = 0;
    few = omega arith;
    outcome = sym e;
    before = λ i h. absurd (omega arith);
    success = inl (arn, refl);
  }

  Settled-later :
      (most : ℕ) (s s' : k.State) (e : Error) (result : k.State × Reply String)
      → fetch_consumer_arn k cfg s ≡ (s', failed e)
      → Settled most s' result
      → Settled (suc most) s result
  unfolding attempted
  Settled-later most s s' e result q t =
      let same : (fetch_consumer_arn k cfg s).0 ≡ s' = ap (λ (r : k.State × Reply String). r.0) q in
      record {
        n = suc t.n;
        few = omega (arith, t.few);
        outcome = rw same t.outcome;
        before = earlier same t.before;
        success = elim t.success [ inl found ↦ inl found | inr last ↦ inr (ap suc last) ];
      }
    where
      earlier :
          (fetch_consumer_arn k cfg s).0 ≡ s'
          → ((i : ℕ)
              → i < t.n
              → (d : Error) × ((fetch_consumer_arn k cfg (attempted i s')).1 ≡ failed d))
          → (i : ℕ) → i < suc t.n
          → (d : Error) × ((fetch_consumer_arn k cfg (attempted i s)).1 ≡ failed d)
      earlier same before zero h = (e, ap (λ (r : k.State × Reply String). r.1) q)
      earlier same before (suc i) h = rw same (before i (omega arith))

  retry_arn-Settled :
      (left : ℕ) (s : k.State) (r : k.State × Reply String)
      → fetch_consumer_arn k cfg s ≡ r
      → ((s' : k.State) → Settled left s' (fetch_retrying k cfg left s'))
      → Settled (suc left) s (retry_arn k cfg r (fetch_retrying k cfg left))
  retry_arn-Settled left s (s', ok arn) q later = Settled-now (suc left) s s' arn q
  retry_arn-Settled left s (s', failed e) q later = Settled-later left s s' e _ q (later s')

  fetch_retrying-Settled : (left : ℕ) (s : k.State) → Settled left s (fetch_retrying k cfg left s)
  unfolding fetch_retrying attempted
  fetch_retrying-Settled zero s = record {
    n = 0;
    few = omega arith;
    outcome = refl;
    before = λ i h. absurd (omega arith);
    success = inr refl;
  }
  fetch_retrying-Settled (suc left) s =
      retry_arn-Settled left s (fetch_consumer_arn k cfg s) refl (fetch_retrying-Settled left)

  -- fetchConsumerARNWithRetry makes at most eleven attempts and returns the result of the last one that it
  -- makes: all before it have failed, and it has succeeded or is the eleventh.
  pub fetch_consumer_arn_with_retry-Settled :
      (s : k.State) → Settled 10 s (fetch_consumer_arn_with_retry k cfg s)
  unfolding fetch_consumer_arn_with_retry
  fetch_consumer_arn_with_retry-Settled s = fetch_retrying-Settled 10 s
