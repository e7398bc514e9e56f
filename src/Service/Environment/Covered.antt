-- ===== src/Service/Environment/Covered.antt =====
-- The indicators that internal/service/environment.go's `EnvironmentBrief` answers for.
use mcp_grand_lyon.Base.{
  String, Bool, true, false, not, ◌||◌, ◌&&◌, ◌≡◌, Option, none, some, List, [], ◌∷◌, ◌++◌, any,
  ◌=ₛ◌, refl, arith, inl, inr, Bool-cases, is_some, is_nil, if◌then◌else◌, ap, ◌∙◌, eq_iff,
}
use mcp_grand_lyon.Model.Envelope.{Time, WarningItem, warn, warn_if, set_payload, new_envelope}
use mcp_grand_lyon.Service.Environment.{
  IndicatorValue, Brief, add_value, add_values, warn_missing, found_indicators,
}

abbrev is_source : Option String → String → Bool
is_source none i = false
is_source (some s) i = s =ₛ i

any-append {ℓ} :
    {A : Type ℓ} (p : A → Bool) (xs ys : List A) → any p (xs ++ ys) ≡ (any p xs || any p ys)
any-append p [] ys = refl
any-append p (x ∷ xs) ys = ground (arith, any-append p xs ys)

or_last : (a b c : Bool) → (a || (b || (c || false))) ≡ ((a || b) || c)
or_last a b c = ground arith

or_assoc : (a b c : Bool) → ((a || b) || c) ≡ (a || (b || c))
or_assoc a b c = ground arith

or_between : (a b c : Bool) → ((a || (b || false)) || c) ≡ ((a || c) || b)
or_between a b c = ground arith

module _ (F V : Type 0) where
  -- The brief has a value of the indicator, or a warning about it.
  abbrev pub covers : Brief F V → String → Bool
  covers e i = any (λ v. v.indicator =ₛ i) e.payload || any (λ w. is_source w.source i) e.warnings

  warn-covers :
      (e : Brief F V) (code source message : String) (retryable : Bool) (i : String)
      → covers (warn e code source message retryable) i ≡ (covers e i || (source =ₛ i))
  unfolding warn
  warn-covers e code source message retryable i =
      let item : WarningItem = record {
        code = code;
        source = some source;
        message = message;
        retryable = retryable;
      } in
      rw (any-append (λ w. is_source w.source i) e.warnings (item ∷ [])) (
        or_last (any (λ v. v.indicator =ₛ i) e.payload) (any (λ w. is_source w.source i) e.warnings)
          (source =ₛ i))

  set_payload-covers :
      (e : Brief F V) (v : IndicatorValue V) (summary i : String)
      → covers (set_payload e (e.payload ++ v ∷ []) summary) i ≡ (covers e i || (v.indicator =ₛ i))
  unfolding set_payload
  set_payload-covers e v summary i = rw (any-append (λ w. w.indicator =ₛ i) e.payload (v ∷ [])) (
      or_between (any (λ w. w.indicator =ₛ i) e.payload) (v.indicator =ₛ i)
        (any (λ w. is_source w.source i) e.warnings))

  chosen-covers :
      (t u k q : Bool) (i : String) (e w x y : Brief F V)
      → covers w i ≡ (covers e i || q)
      → covers x i ≡ (covers e i || q)
      → covers y i ≡ (covers e i || q)
      → covers (if not t then e else if not u then w else if not k then x else y) i
        ≡ (covers e i || (t && q))
  chosen-covers false u k q i e w x y a b c = ground arith
  chosen-covers true false k q i e w x y a b c = a
  chosen-covers true true false q i e w x y a b c = b
  chosen-covers true true true q i e w x y a b c = c

  if-covers :
      (b : Bool) (e f : Brief F V) (i : String)
      → covers e i ≡ true
      → covers f i ≡ true
      → covers (if b then e else f) i ≡ true
  if-covers true e f i h k = h
  if-covers false e f i h k = k

  -- A value adds its indicator, where it is requested, to what is covered.
  add_value-covers :
      (requested : List String) (v : IndicatorValue V) (e : Brief F V) (i : String)
      → covers (add_value F V requested v e) i
        ≡ (covers e i || (any (λ s. s =ₛ v.indicator) requested && (v.indicator =ₛ i)))
  unfolding add_value
  add_value-covers requested v e i =
      chosen-covers (any (λ s. s =ₛ v.indicator) requested) v.supported (is_some v.value)
        (v.indicator =ₛ i) i e _ _ _ (warn-covers e _ _ _ _ i) (warn-covers e _ _ _ _ i)
        (set_payload-covers e v e.summary i)

  requested_name :
      (requested : List String) (n i : String)
      → any (λ s. s =ₛ i) requested ≡ true
      → (any (λ s. s =ₛ n) requested && (n =ₛ i)) ≡ (n =ₛ i)
  requested_name requested n i h = elim (Bool-cases (n =ₛ i)) [
    | inr f ↦ rw f (ground arith)
    | inl t ↦ rw ((eq_iff n i).0 t, h) refl
  ]

  -- The values that are seen cover the requested indicators that they name.
  add_values-covers :
      (requested : List String) (vs : List (IndicatorValue V)) (e : Brief F V) (i : String)
      → any (λ s. s =ₛ i) requested ≡ true
      → covers (add_values F V requested vs e) i ≡ (covers e i || any (λ v. v.indicator =ₛ i) vs)
  unfolding add_values
  add_values-covers requested [] e i h = ground arith
  add_values-covers requested (v ∷ vs) e i h =
      let a = add_value-covers requested v e i in
      let n = requested_name requested v.indicator i h in
      let rest = add_values-covers requested vs (add_value F V requested v e) i h in
      rest
      ∙ ap (λ b. b || any (λ w. w.indicator =ₛ i) vs) (a ∙ ap (λ b. covers e i || b) n)
      ∙ or_assoc (covers e i) (v.indicator =ₛ i) (any (λ w. w.indicator =ₛ i) vs)

  warn_if-covers :
      (b : Bool) (e : Brief F V) (code source message : String) (retryable : Bool) (i : String)
      → covers (warn_if b e code source message retryable) i ≡ (covers e i || (b && (source =ₛ i)))
  unfolding warn_if
  warn_if-covers true e code source message retryable i =
      warn-covers e code source message retryable i
  warn_if-covers false e code source message retryable i = ground arith

  -- An indicator of the list that no value names.
  abbrev is_missing : List (IndicatorValue V) → String → String → Bool
  is_missing vs i s = not (any (λ v. v.indicator =ₛ s) vs) && (s =ₛ i)

  warn_missing-covers :
      (names : List String) (vs : List (IndicatorValue V)) (e : Brief F V) (i : String)
      → covers (warn_missing F V names vs e) i ≡ (covers e i || any (is_missing vs i) names)
  unfolding warn_missing
  warn_missing-covers [] vs e i = ground arith
  warn_missing-covers (s ∷ names) vs e i =
      warn_missing-covers names vs _ i
      ∙ ap (λ b. b || any (is_missing vs i) names) (warn_if-covers _ e _ _ _ _ i)
      ∙ or_assoc (covers e i) (is_missing vs i s) (any (is_missing vs i) names)

  missing_found :
      (names : List String) (vs : List (IndicatorValue V)) (i : String)
      → any (λ s. s =ₛ i) names ≡ true
      → any (λ v. v.indicator =ₛ i) vs ≡ false
      → any (is_missing vs i) names ≡ true
  missing_found [] vs i h k = ground arith
  missing_found (s ∷ names) vs i h k = elim (Bool-cases (s =ₛ i)) [
    | inl t ↦ rw ((eq_iff s i).0 t, k, (eq_iff i i).1 refl) refl
    | inr f ↦ ground (arith, missing_found names vs i (ground arith) k)
  ]

  -- Where the provider answers, every indicator that was requested has a value in the data or a
  -- warning with its name as the source.
  pub found_indicators-covers :
      (now : Time) (requested : List String) (vs : List (IndicatorValue V)) (i : String)
      → any (λ s. s =ₛ i) requested ≡ true
      → covers (found_indicators F V now requested vs) i ≡ true
  unfolding found_indicators set_payload
  found_indicators-covers now requested vs i h =
      let e0 = new_envelope now "ok" "Environmental indicators are available." [] in
      let e1 = add_values F V requested vs e0 in
      let added = add_values-covers requested vs e0 i h in
      let warned = warn_missing-covers requested vs e1 i in
      let c : covers (warn_missing F V requested vs e1) i ≡ true =
        elim (Bool-cases (any (λ v. v.indicator =ₛ i) vs)) [
          | inl t ↦ ground (arith, added, warned, t)
          | inr f ↦ ground (arith, warned, missing_found requested vs i h f)
        ] in
      let e2 = warn_missing F V requested vs e1 in
      let e3 = set_payload e2 e2.payload "Found environmental indicators." in
      if-covers (is_nil e3.payload) (record e3 { status = "unavailable" }) e3 i c c
