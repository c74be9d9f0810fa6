-- ===== src/Metrics/CloudWatch/Flush/Statistics.antt =====
-- clientlibrary/metrics/cloudwatch/cloudwatch.go: what the published statistics say of the samples.
use vmware_go_kcl_v2_test.Prelude.{
  ◌≡◌, ◌⊎◌, ap, sym, subst, ◌++◌, inl, inr, refl, String, Bool, true, false, none, some, List, [],
  ◌∷◌, All, length, arith, if◌then◌else◌,
}
use vmware_go_kcl_v2_test.Partition.{Time}
use vmware_go_kcl_v2_test.Metrics.Float.{Float64, IsOrdered}
use vmware_go_kcl_v2_test.Metrics.CloudWatch.Flush.{
  Dimension, StatisticSet, sum_from, max_from, min_from, sum_float64, max_float64, min_float64,
  statistics, milliseconds,
}

abbrev pub Occurs : {A : Type 0} → A → List A → Type 0
Occurs x [] = ⊥
Occurs x (y ∷ ys) = (x ≡ y) ⊎ Occurs x ys

module _ {A : Type 0} (less : A → A → Bool) where
  -- The value occurs in the list, and comes before no value of it.
  abbrev pub IsGreatest : A → List A → Type 0
  IsGreatest x xs = Occurs x xs × All (λ y. less x y ≡ false) xs

  -- A loop that starts from `max` and replaces it by each number that it is less than.
  IsGreatest-step :
      (transitive : (x y z : A) → less x y ≡ false → less y z ≡ false → less x z ≡ false)
      (asymmetric : (x y : A) → less x y ≡ true → less y x ≡ false) (res max num : A)
      (nums : List A) (b : Bool)
      → less max num ≡ b
      → IsGreatest res ((if b then num else max) ∷ nums)
      → IsGreatest res (max ∷ num ∷ nums)
  IsGreatest-step transitive asymmetric res max num nums true e (among, (first, rest)) =
      (inr among, (transitive res num max first (asymmetric max num e), (first, rest)))
  IsGreatest-step transitive asymmetric res max num nums false e (inl at, (first, rest)) =
      (inl at, (first, (transitive res max num first e, rest)))
  IsGreatest-step transitive asymmetric res max num nums false e (inr later, (first, rest)) =
      (inr (inr later), (first, (transitive res max num first e, rest)))

  -- The first of the list may be named twice.
  IsGreatest-again :
      (res num : A) (nums : List A)
      → IsGreatest res (num ∷ num ∷ nums)
      → IsGreatest res (num ∷ nums)
  IsGreatest-again res num nums (inl at, (first, rest)) = (inl at, rest)
  IsGreatest-again res num nums (inr among, (first, rest)) = (among, rest)

module _ (f : Float64) (o : IsOrdered f) where
  abbrev flipped : f.Value → f.Value → Bool
  flipped x y = f.less y x

  max_from-IsGreatest :
      (max : f.Value) (nums : List f.Value) → IsGreatest f.less (max_from f max nums) (max ∷ nums)
  unfolding max_from
  max_from-IsGreatest max [] = (inl refl, (o.irreflexive max, tt))
  max_from-IsGreatest max (num ∷ nums) =
      IsGreatest-step f.less o.transitive o.asymmetric _ max num nums (f.less max num) refl
        (max_from-IsGreatest (if f.less max num then num else max) nums)

  min_from-IsGreatest :
      (min : f.Value) (nums : List f.Value) → IsGreatest flipped (min_from f min nums) (min ∷ nums)
  unfolding min_from
  min_from-IsGreatest min [] = (inl refl, (o.irreflexive min, tt))
  min_from-IsGreatest min (num ∷ nums) =
      IsGreatest-step flipped (λ x y z h k. o.transitive z y x k h) (λ x y h. o.asymmetric y x h) _
        min num nums (f.less num min) refl
        (min_from-IsGreatest (if f.less num min then num else min) nums)

  append-nil : (xs : List f.Value) → xs ++ [] ≡ xs
  append-nil [] = refl
  append-nil (x ∷ xs) = ap (λ l. x ∷ l) (append-nil xs)

  -- A sum of samples: nothing for no samples, and with one more sample at the end that sample added.
  pub data IsSum : List f.Value → f.Value → Type 0 where
    no_samples : IsSum [] f.zero_value
    one_more :
        (xs : List f.Value) (x sum : f.Value) → IsSum xs sum → IsSum (xs ++ x ∷ []) (f.add sum x)

  append-snoc :
      (xs : List f.Value) (x : f.Value) (ys : List f.Value) → (xs ++ x ∷ []) ++ ys ≡ xs ++ x ∷ ys
  append-snoc [] x ys = refl
  append-snoc (z ∷ xs) x ys = ap (λ l. z ∷ l) (append-snoc xs x ys)

  sum_from-IsSum :
      (before : List f.Value) (sum : f.Value) (nums : List f.Value)
      → IsSum before sum
      → IsSum (before ++ nums) (sum_from f sum nums)
  unfolding sum_from
  sum_from-IsSum before sum [] h = subst (λ l. IsSum l sum) (sym (append-nil before)) h
  sum_from-IsSum before sum (num ∷ nums) h =
      subst (λ l. IsSum l (sum_from f (f.add sum num) nums)) (append-snoc before num nums)
        (sum_from-IsSum (before ++ num ∷ []) (f.add sum num) nums (one_more before num sum h))

  -- The statistics of a list of samples: how many there are, their sum in the order of the list, a
  -- greatest and a least one.
  pub record Summarises (st : StatisticSet f) (samples : List f.Value) : Type 0 where
    pub counts : st.sample_count ≡ f.of_count (length samples)
    pub adds : IsSum samples st.sum
    pub greatest : IsGreatest f.less st.maximum samples
    pub least : IsGreatest flipped st.minimum samples

  -- A datum with statistics is published exactly for a list that has samples, under the name and
  -- the dimensions given and without a value; its statistics are the number of the samples, what
  -- adding them one by one to zero in their order gives, and a greatest and a least among them. (No sample is a NaN.)
  pub statistics-Summarises :
      (dimensions : List Dimension) (name : String) (now : Time) (samples : List f.Value)
      → ((samples ≡ []) × (statistics f dimensions name now samples ≡ []))
        ⊎ ((st : StatisticSet f) × Summarises st samples
            × (statistics f dimensions name now samples
                ≡ record {
                  dimensions = dimensions;
                  metric_name = name;
                  unit = milliseconds;
                  timestamp = now;
                  value = none;
                  statistic_values = some st;
                }
                  ∷ []))
  unfolding statistics sum_float64
  statistics-Summarises dimensions name now [] = inl (refl, refl)
  statistics-Summarises dimensions name now (num ∷ nums) = inr (
    record {
      sample_count = f.of_count (length (num ∷ nums));
      sum = sum_float64 f (num ∷ nums);
      maximum = max_float64 f (num ∷ nums);
      minimum = min_float64 f (num ∷ nums);
    },
    record {
      counts = refl;
      adds = sum_from-IsSum [] f.zero_value (num ∷ nums) no_samples;
      greatest = IsGreatest-again f.less _ num nums (max_from-IsGreatest num (num ∷ nums));
      least = IsGreatest-again flipped _ num nums (min_from-IsGreatest num (num ∷ nums));
    },
    ground arith,
  )
