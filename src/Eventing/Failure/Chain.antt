-- ===== src/Eventing/Failure/Chain.antt =====
-- One failure of a record in internal/platform/eventing/consumer.go: its retry or its dead letter.
use golang_template.Prelude.{
  ℕ, zero, suc, ◌-◌, ◌≤◌, ◌<◌, String, ◌≡◌, ◌⊎◌, refl, true, false, ◌||◌, leb, if◌then◌else◌, List,
  [], ◌∷◌, some, arith, length, get_elem?, ◌∙◌, inl, inr,
}
use golang_template.Prelude.Int.{ℤ, pos, max_int64, succ_int64, leb_ℤ}
use golang_template.Errors.{Err, is_permanent}
use golang_template.Event.{retry_topic, dlq_topic}
use golang_template.Eventing.Failure.{
  Record, Env, dead_letter, retry, source_topic, retry_attempt, retry_delay, failure_record, route,
}
use golang_template.Eventing.Failure.Reads.{
  IsClean, failure_record-IsClean, source_topic-failed, retry_attempt-failed,
}

get_elem?-lt : (ds : List ℤ) (i : ℕ) → i < length ds → (d : ℤ) × (get_elem? ds i ≡ some d)
get_elem?-lt [] i h = absurd (omega arith)
get_elem?-lt (d ∷ ds) zero h = (d, refl)
get_elem?-lt (d ∷ ds) (suc i) h = get_elem?-lt ds i (omega arith)

abbrev last_or : ℕ → ℕ → ℕ
last_or n i = if leb n i then n - 1 else i

retry_delay-index :
    (ds : List ℤ) (a : ℕ)
    → 0 < length ds
    → retry_delay ds (pos (suc a)) ≡ get_elem? ds (last_or (length ds) a)
unfolding retry_delay
retry_delay-index ds a h = ground arith

-- The delay of a positive attempt: its own, or the last one.
retry_delay-pos :
    (ds : List ℤ) (a : ℕ) → 0 < length ds → (d : ℤ) × (retry_delay ds (pos (suc a)) ≡ some d)
retry_delay-pos ds a h =
    let (d, e) = get_elem?-lt ds (last_or (length ds) a) (ground arith) in
    (d, retry_delay-index ds a h ∙ e)

module _ {S : Type 0} (env : Env S) where
  -- The configuration of a consumer that `NewConsumer` built.
  pub record IsConfigured (m : ℕ) : Type 0 where
    pub attempts : env.cfg.max_attempts ≡ pos (suc m)
    pub fits : suc m ≤ max_int64
    pub delays : 0 < length env.cfg.retry_delays

  -- `f` carries the event of `r` after its attempt `a`, from the same source topic.
  pub record IsFailure (r f : Record) (a : ℕ) : Type 0 where
    pub same_key : f.key ≡ r.key
    pub same_value : f.value ≡ r.value
    pub same_source : source_topic f ≡ source_topic r
    pub clean : IsClean f
    pub attempt : retry_attempt f ≡ pos a

  module _ {m : ℕ} (c : IsConfigured m) (r : Record) (a : ℕ) (x : Err) (now : ℕ) where
    failed-IsFailure :
        (topic : String) (d : ℤ)
        → IsClean r
        → suc a ≤ max_int64
        → IsFailure r
            (failure_record env.format_time env.cfg.name now r topic (pos (suc a)) x d)
            (suc a)
    unfolding failure_record
    failed-IsFailure topic d clean small = record {
      same_key = refl;
      same_value = refl;
      same_source =
          source_topic-failed env.format_time env.cfg.name now r topic (pos (suc a)) x d clean;
      clean =
          failure_record-IsClean env.format_time env.cfg.name now r topic (pos (suc a)) x d clean;
      attempt =
          retry_attempt-failed env.format_time env.cfg.name now r topic (pos (suc a)) x d (suc a)
            clean refl small;
    }

    next_attempt : retry_attempt r ≡ pos a → a ≤ m → succ_int64 (retry_attempt r) ≡ pos (suc a)
    next_attempt at h = rw at (ground (arith, c.fits))

    not_last : suc a ≤ m → leb_ℤ env.cfg.max_attempts (pos (suc a)) ≡ false
    not_last h = rw (c.attempts) (ground arith)

    last : m ≤ a → leb_ℤ env.cfg.max_attempts (pos (suc a)) ≡ true
    last h = rw (c.attempts) (ground arith)

    -- Before the last attempt a transient failure goes to the retry topic.
    pub route-retry :
        IsClean r
        → retry_attempt r ≡ pos a
        → suc a ≤ m
        → is_permanent x ≡ false
        → (f : Record) × (route env r x now ≡ retry f)
          × (f.topic ≡ retry_topic (source_topic r) env.cfg.name)
          × IsFailure r f (suc a)
    unfolding route failure_record
    route-retry clean at more transient =
        let (d, e) = retry_delay-pos env.cfg.retry_delays a c.delays in
        (
          failure_record env.format_time env.cfg.name now r
              (retry_topic (source_topic r) env.cfg.name) (pos (suc a)) x d,
          rw (next_attempt at (omega arith), transient, not_last more, e),
          refl,
          failed-IsFailure (retry_topic (source_topic r) env.cfg.name) d clean
              (omega (arith, c.fits)),
        )

    -- On the last attempt, and on a permanent error, it is a dead letter.
    pub route-dead_letter :
        IsClean r
        → retry_attempt r ≡ pos a
        → a ≤ m
        → (is_permanent x ≡ true) ⊎ (m ≤ a)
        → (f : Record) × (route env r x now ≡ dead_letter f)
          × (f.topic ≡ dlq_topic (source_topic r) env.cfg.name)
          × IsFailure r f (suc a)
    unfolding route failure_record
    route-dead_letter clean at within why = (
      failure_record env.format_time env.cfg.name now r (dlq_topic (source_topic r) env.cfg.name)
          (pos (suc a)) x (pos 0),
      rw (next_attempt at within) (rw (settled why)),
      refl,
      failed-IsFailure (dlq_topic (source_topic r) env.cfg.name) (pos 0) clean
          (omega (arith, c.fits)),
    )
      where
        settled :
            (is_permanent x ≡ true) ⊎ (m ≤ a)
            → (is_permanent x || leb_ℤ env.cfg.max_attempts (pos (suc a))) ≡ true
        settled (inl p) = rw p
        settled (inr h) = rw (last h) (ground arith)
