-- ===== src/Telemetry/Sampling/Durations.antt =====
-- How long a trace lasts.
use demo_hybrid_microservice.Common.{
  any_of-ext, any_of-none, ℕ, ◌+◌, ◌-◌, ◌*◌, ◌≡◌, refl, sym, ◌∙◌, Bool, true, false, ◌||◌, List, [],
  ◌∷◌, Option, none, some, leb, any_of, Bool-cases, inl, inr, arith,
}
use demo_hybrid_microservice.Telemetry.Sampling.{
  Span, Window, unbounded, lower, raise, lasts, in_nanoseconds, widen_by, widen,
  is_anomaly_duration,
}

abbrev pub below : Option ℕ → ℕ → Bool
below none x = false
below (some a) x = leb a x

abbrev pub above : Option ℕ → ℕ → Bool
above none y = false
above (some b) y = leb y b

pub below-lower : (n : ℕ) (o : Option ℕ) (x : ℕ) → below (lower n o) x ≡ (below o x || leb n x)
below-lower n none x = refl
below-lower n (some a) x = ground arith

pub above-raise : (n : ℕ) (o : Option ℕ) (x : ℕ) → above (raise n o) x ≡ (above o x || leb x n)
above-raise n none x = refl
above-raise n (some a) x = ground arith

module _ (round : ℕ → ℕ) where
  abbrev pub start_of : Span → ℕ
  start_of s = in_nanoseconds round s.start_time

  abbrev pub end_of : Span → ℕ
  end_of s = in_nanoseconds round s.end_time

  pub below-widen :
      (w : Window) (spans : List Span) (x : ℕ)
      → below (widen round w spans).min_start x
        ≡ (below w.min_start x || any_of (λ s. leb (start_of s) x) spans)
  unfolding widen
  below-widen w [] x = ground arith
  below-widen w (s ∷ spans) x =
      below-widen (widen_by round s w) spans x
      ∙ ground (arith, below-lower (start_of s) w.min_start x)

  pub above-widen :
      (w : Window) (spans : List Span) (x : ℕ)
      → above (widen round w spans).max_end x
        ≡ (above w.max_end x || any_of (λ s. leb x (end_of s)) spans)
  unfolding widen
  above-widen w [] x = ground arith
  above-widen w (s ∷ spans) x =
      above-widen (widen_by round s w) spans x ∙ ground (arith, above-raise (end_of s) w.max_end x)

  -- Some span ends that many milliseconds after some span starts.
  abbrev pub is_long : ℕ → List Span → Bool
  is_long threshold spans =
      any_of (λ a. any_of (λ b. leb (start_of a + threshold * 1000000) (end_of b)) spans) spans

  pub lasts-above :
      (threshold : ℕ) (o p : Option ℕ) (spans : List Span)
      → ((x : ℕ) → below o x ≡ any_of (λ s. leb (start_of s) x) spans)
      → lasts threshold o p ≡ any_of (λ a. above p (start_of a + threshold * 1000000)) spans
  lasts-above threshold none none spans h = sym (any_of-none _ spans λ s. refl)
  lasts-above threshold (some a) none spans h = sym (any_of-none _ spans λ s. refl)
  lasts-above threshold o (some b) spans h = elim (Bool-cases (leb (threshold * 1000000) b)) [
    | inl fits ↦
        before threshold o b fits
        ∙ h (b - threshold * 1000000)
        ∙ any_of-ext _ _ spans λ s. ground arith
    | inr over ↦ never threshold o b over ∙ sym (any_of-none _ spans λ s. ground arith)
  ]
    where
      before :
          (threshold : ℕ) (o : Option ℕ) (b : ℕ)
          → leb (threshold * 1000000) b ≡ true
          → lasts threshold o (some b) ≡ below o (b - threshold * 1000000)
      before threshold none b fits = refl
      before threshold (some a) b fits = ground arith

      never :
          (threshold : ℕ) (o : Option ℕ) (b : ℕ)
          → leb (threshold * 1000000) b ≡ false
          → lasts threshold o (some b) ≡ false
      never threshold none b over = refl
      never threshold (some a) b over = ground arith

  pub is_anomaly_duration-is_long :
      (threshold : ℕ) (spans : List Span)
      → is_anomaly_duration threshold (widen round unbounded spans) ≡ is_long threshold spans
  is_anomaly_duration-is_long threshold spans =
      lasts-above threshold _ _ spans (below-widen unbounded spans)
      ∙ any_of-ext _ _ spans λ a. above-widen unbounded spans (start_of a + threshold * 1000000)
