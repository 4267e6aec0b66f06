-- ===== src/Audio/Resample/Values.antt =====
-- internal/audio/resample.go: the outputs at positions of a stream, and of a part of it.
use native.Mathlib.Nat.{add-mul-div_right, add-mul-mod_self_right, le-div_iff_mul-le}
use sip_relay.Prelude.{
  ℕ, zero, suc, ◌+◌, ◌-◌, ◌*◌, ◌/◌, ◌%◌, ◌≤◌, ◌≡◌, refl, sym, ap, ap₂, subst, ◌∙◌, ◌⊎◌, inl, inr,
  List, ◌∷◌, ◌++◌, arith, length, drop,
}
use sip_relay.Prelude.Int.{ℤ, pos}
use sip_relay.Audio.Float.{Float}
use sip_relay.Audio.Resample.{node_at, sample_at, interpolate}
use sip_relay.Audio.Resample.Positions.{
  IsExact, interpolate-window, sample-drop, sample-append, value, values, AllFit,
}

module _ {F : Type 0} (float : Float F) {ratio : F} (exact : IsExact float ratio) where
  open exact use {step, den, at}

  -- Outputs in a stream, and in what is left of it.
  value-drop :
      (d : ℕ) (stream : List ℤ) (j : ℕ)
      → (d ≡ 0) ⊎ (3 ≤ j / den)
      → value float exact (drop d stream) j ≡ value float exact stream (j + d * den)
  value-drop d stream j h =
      let q : (j + d * den) / den ≡ j / den + d = add-mul-div_right j d exact.some_den in
      let m : (j + d * den) % den ≡ j % den = add-mul-mod_self_right j d den in
      interpolate-window float _ _ (at (j % den)) (λ k less. sample-drop d stream (j / den) k h)
      ∙ ap₂ (λ b t. interpolate float (λ k. sample_at stream (node_at (pos b) k)) (at t)) (sym q)
          (sym m)

  further : (d j : ℕ) → (d ≡ 0) ⊎ (3 ≤ j / den) → (d ≡ 0) ⊎ (3 ≤ (j + step) / den)
  further d j (inl e) = inl e
  further d j (inr h) =
      let near : 3 * den ≤ j = (le-div_iff_mul-le exact.some_den).0 h in
      inr ((le-div_iff_mul-le exact.some_den).1 (omega arith))

  pub values-drop :
      (d : ℕ) (stream : List ℤ) (n j : ℕ)
      → (d ≡ 0) ⊎ (3 ≤ j / den)
      → values float exact (drop d stream) j n ≡ values float exact stream (j + d * den) n
  values-drop d stream zero j h = refl
  values-drop d stream (suc n) j h =
      let f : j + step + d * den ≡ j + d * den + step = omega arith in
      ap₂ (λ v vs. v ∷ vs) (value-drop d stream j h)
        (values-drop d stream n (j + step) (further d j h)
          ∙ ap (λ i. values float exact stream i n) f)

  pub values-more :
      (stream more : List ℤ) (n j : ℕ)
      → AllFit float exact (length stream) j n
      → values float exact (stream ++ more) j n ≡ values float exact stream j n
  values-more stream more zero j h = refl
  values-more stream more (suc n) j h =
      ap₂ (λ v vs. v ∷ vs)
        (interpolate-window float _ _ (at (j % den))
          (λ k less. sample-append stream more (j / den) k less h.0))
        (values-more stream more n (j + step) h.1)

  later : (j a : ℕ) → j + step + a * step ≡ j + suc a * step
  later j a = grind arith

  pub values-append :
      (stream : List ℤ) (a b j : ℕ)
      → values float exact stream j (a + b)
        ≡ values float exact stream j a ++ values float exact stream (j + a * step) b
  values-append stream zero b j =
      let e : 0 + b ≡ b = omega arith in let f : j + 0 * step ≡ j = omega arith in rw (e, f) refl
  values-append stream (suc a) b j =
      let e : suc a + b ≡ suc (a + b) = omega arith in
      rw e (
        ap (λ vs. value float exact stream j ∷ vs)
          (values-append stream a b (j + step)
            ∙ ap (λ i. values float exact stream (j + step) a ++ values float exact stream i b)
                (later j a)))

  pub AllFit-append :
      (len a b j : ℕ)
      → AllFit float exact len j a
      → AllFit float exact len (j + a * step) b
      → AllFit float exact len j (a + b)
  AllFit-append len zero b j h k =
      let e : 0 + b ≡ b = omega arith in
      let f : j + 0 * step ≡ j = omega arith in rw e (subst (λ i. AllFit float exact len i b) f k)
  AllFit-append len (suc a) b j h k =
      let e : suc a + b ≡ suc (a + b) = omega arith in
      rw e (
        h.0,
        AllFit-append len a b (j + step) h.1
            (subst (λ i. AllFit float exact len i b) (sym (later j a)) k),
      )

  pub AllFit-longer :
      (short long n j : ℕ)
      → short ≤ long
      → AllFit float exact short j n
      → AllFit float exact long j n
  AllFit-longer short long zero j h k = tt
  AllFit-longer short long (suc n) j h k =
      (omega (arith, k.0), AllFit-longer short long n (j + step) h k.1)

  pub AllFit-drop :
      (len d n j : ℕ)
      → d ≤ len
      → AllFit float exact (len - d) j n
      → AllFit float exact len (j + d * den) n
  AllFit-drop len d zero j h k = tt
  AllFit-drop len d (suc n) j h k =
      let e : (j + d * den) / den ≡ j / den + d = add-mul-div_right j d exact.some_den in
      let f : j + step + d * den ≡ j + d * den + step = omega arith in
      (
        omega (arith, k.0, e),
        subst (λ i. AllFit float exact len i n) f (AllFit-drop len d n (j + step) h k.1),
      )
