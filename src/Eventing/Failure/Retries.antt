-- ===== src/Eventing/Failure/Retries.antt =====
-- The whole life of a record whose handling always fails.
use mathlib.Core.Path.{subst}
use golang_template.Prelude.{
  ℕ, suc, ◌+◌, ◌≤◌, String, ◌≡◌, refl, false, List, [], ◌∷◌, arith, length, All, ap, ◌∙◌, inl, inr,
  Bool-cases, ltb, ltb→lt,
}
use golang_template.Prelude.Int.{pos}
use golang_template.Errors.{Err, is_permanent}
use golang_template.Event.{retry_topic, dlq_topic}
use golang_template.Eventing.Failure.{
  Record, Env, Route, dead_letter, retry, crash, source_topic, retry_attempt, route,
}
use golang_template.Eventing.Failure.Reads.{IsClean}
use golang_template.Eventing.Failure.Chain.{IsConfigured, IsFailure, route-retry, route-dead_letter}

-- The route after a series of failures, each with its error and its time: what is retried fails
-- again, and a dead letter is not consumed any more.
abbrev fail_again : {S : Type 0} → Env S → Err → ℕ → Route → Route
fail_again env x now (retry r) = route env r x now
fail_again env x now (dead_letter r) = dead_letter r
fail_again env x now crash = crash

unfoldable pub follow : {S : Type 0} → Env S → List (Err × ℕ) → Route → Route
follow env [] rt = rt
follow env ((x, now) ∷ fs) rt = follow env fs (fail_again env x now rt)

abbrev pub IsTransient : Err × ℕ → Type 0
IsTransient f = is_permanent f.0 ≡ false

module _ {S : Type 0} (env : Env S) where
  IsFailure-trans :
      {r f g : Record} {a b : ℕ} → IsFailure env r f a → IsFailure env f g b → IsFailure env r g b
  IsFailure-trans p q = record {
    same_key = q.same_key ∙ p.same_key;
    same_value = q.same_value ∙ p.same_value;
    same_source = q.same_source ∙ p.same_source;
    clean = q.clean;
    attempt = q.attempt;
  }

  module _ {m : ℕ} (c : IsConfigured env m) where
    retried :
        (fs : List (Err × ℕ)) (x : Err) (now : ℕ) (r : Record) (a : ℕ)
        → IsClean r
        → retry_attempt r ≡ pos a
        → suc a + length fs ≤ m
        → IsTransient (x, now)
        → All IsTransient fs
        → (f : Record) × (follow env ((x, now) ∷ fs) (retry r) ≡ retry f)
          × (f.topic ≡ retry_topic (source_topic r) env.cfg.name)
          × IsFailure env r f (suc a + length fs)
    unfolding follow
    retried [] x now r a clean at room t ts =
        let (f, e, topic, p) = route-retry env c r a x now clean at (omega arith) t in
        (f, e, topic, subst (IsFailure env r f) (omega arith) p)
    retried ((y, later) ∷ fs) x now r a clean at room t (u, us) =
        let (f, e, _, p) = route-retry env c r a x now clean at (omega arith) t in
        let (g, e', topic, q) = retried fs y later f (suc a) p.clean p.attempt (omega arith) u us in
        (
          g,
          rw e e',
          topic ∙ ap (λ (s : String). retry_topic s env.cfg.name) p.same_source,
          subst (IsFailure env r g) (omega arith) (IsFailure-trans p q),
        )

    follow-dead_letter :
        (fs : List (Err × ℕ)) (f : Record) → follow env fs (dead_letter f) ≡ dead_letter f
    unfolding follow
    follow-dead_letter [] f = refl
    follow-dead_letter ((x, now) ∷ fs) f = follow-dead_letter fs f

    dead :
        (fs : List (Err × ℕ)) (x : Err) (now : ℕ) (r : Record) (a : ℕ)
        → IsClean r
        → retry_attempt r ≡ pos a
        → a ≤ m
        → m ≤ a + length fs
        → IsTransient (x, now)
        → All IsTransient fs
        → (f : Record) × (follow env ((x, now) ∷ fs) (retry r) ≡ dead_letter f)
          × (f.topic ≡ dlq_topic (source_topic r) env.cfg.name)
          × IsFailure env r f (suc m)
    unfolding follow
    dead [] x now r a clean at within enough t ts =
        let (f, e, topic, p) =
          route-dead_letter env c r a x now clean at within (inr (omega arith)) in
        (f, e, topic, subst (IsFailure env r f) (omega arith) p)
    dead ((y, later) ∷ fs) x now r a clean at within enough t (u, us) =
        elim (Bool-cases (ltb a m)) [
          | inl more ↦
              let (f, e, _, p) = route-retry env c r a x now clean at (ltb→lt a m more) t in
              let (g, e', topic, q) =
                dead fs y later f (suc a) p.clean p.attempt (ltb→lt a m more) (omega arith) u us in
              (
                g,
                rw e e',
                topic ∙ ap (λ (s : String). dlq_topic s env.cfg.name) p.same_source,
                IsFailure-trans p q,
              )
          | inr full ↦
              let same : a ≡ m = ground arith in
              let (f, e, topic, p) =
                route-dead_letter env c r a x now clean at within (inr (omega arith)) in
              (
                f,
                rw e (follow-dead_letter ((y, later) ∷ fs) f),
                topic,
                subst (IsFailure env r f) (ap suc same) p,
              )
        ]

-- A fresh record whose handling keeps failing with errors that are not permanent, fewer times than
-- `MaxAttempts`, is on the retry topic with its attempt counted up, and with its key, value and
-- source topic. `suc m` is `MaxAttempts`.
pub retried_while_attempts_remain :
    {S : Type 0} (env : Env S) (m : ℕ) (r : Record) (f : Err × ℕ) (fs : List (Err × ℕ))
    → IsConfigured env m
    → IsClean r
    → retry_attempt r ≡ pos 0
    → IsTransient f
    → All IsTransient fs
    → suc (length fs) ≤ m
    → (g : Record) × (follow env (f ∷ fs) (retry r) ≡ retry g)
      × (g.topic ≡ retry_topic (source_topic r) env.cfg.name)
      × IsFailure env r g (suc (length fs))
retried_while_attempts_remain env m r (x, now) fs c clean fresh t ts few =
    let (g, e, topic, p) = retried env c fs x now r 0 clean fresh (omega arith) t ts in
    (g, e, topic, subst (IsFailure env r g) (omega arith) p)

-- A fresh record whose handling keeps failing with errors that are not permanent, `MaxAttempts`
-- times or more, is a dead letter of attempt `MaxAttempts`, with its key, value and source topic:
-- later failures change nothing. `suc m` is `MaxAttempts`.
pub dead_letter_after_max_attempts :
    {S : Type 0} (env : Env S) (m : ℕ) (r : Record) (f : Err × ℕ) (fs : List (Err × ℕ))
    → IsConfigured env m
    → IsClean r
    → retry_attempt r ≡ pos 0
    → IsTransient f
    → All IsTransient fs
    → m ≤ length fs
    → (g : Record) × (follow env (f ∷ fs) (retry r) ≡ dead_letter g)
      × (g.topic ≡ dlq_topic (source_topic r) env.cfg.name)
      × IsFailure env r g (suc m)
dead_letter_after_max_attempts env m r (x, now) fs c clean fresh t ts many =
    dead env c fs x now r 0 clean fresh (omega arith) (omega arith) t ts
