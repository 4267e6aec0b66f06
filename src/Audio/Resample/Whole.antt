-- ===== src/Audio/Resample/Whole.antt =====
-- internal/audio/resample.go: what the resampler keeps of a stream from one call to the next.
pub mod Run
use native.Mathlib.Nat.{add-mul, add-mul-div_right, le-div_iff_mul-le, mul-le-mul_right}
use sip_relay.Prelude.{
  ℕ, suc, ◌+◌, ◌-◌, ◌*◌, ◌/◌, ◌<◌, ◌≤◌, ◌≡◌, refl, sym, ap, ap₂, subst, ◌∙◌, ◌⊎◌, inl, inr, false,
  Option, none, some, List, [], ◌∷◌, ◌++◌, arith, ◌==◌, length, drop, min, length-append,
  length-drop, append_assoc, append-nil, drop-append, drop-drop,
}
use sip_relay.Prelude.Int.{ℤ, pos}
use sip_relay.Audio.Float.{Float}
use sip_relay.Audio.Lowpass.{Lowpass, process_lowpass}
use sip_relay.Audio.Lowpass.Chunked.{process_chunks}
use sip_relay.Audio.Resample.{
  Resampler, emit_outputs, retain, retained, process, and_then, process_all,
}
use sip_relay.Audio.Resample.Positions.{
  IsExact, values, AllFit, IsLooped, emit_outputs-IsLooped, le-cases,
}
use sip_relay.Audio.Resample.Values.{
  values-drop, values-more, values-append, AllFit-append, AllFit-longer, AllFit-drop,
}

module _ {F : Type 0} (float : Float F) {ratio : F} (exact : IsExact float ratio) where
  open exact use {step, den, at}

  -- The outputs of a whole stream: one at each multiple of the ratio that has samples enough behind it,
  -- and no more.
  pub record IsResampled (stream out : List ℤ) : Type 0 where
    pub count : ℕ
    pub outputs : out ≡ values float exact stream 0 count
    pub fit : AllFit float exact (length stream) 0 count
    pub unfit : length stream < count * step / den + 5

  -- What is not kept of a list of so many samples.
  abbrev dropped_of : ℕ → ℕ
  dropped_of len = len - min 7 len

  front-cases : (len p : ℕ) → len < p + dropped_of len + 5 → (dropped_of len ≡ 0) ⊎ (3 ≤ p)
  front-cases len p h = elim (le-cases len 7) [
    | inl short ↦ inl (omega arith)
    | inr long ↦ inr (omega arith)
  ]

  -- What two windows drop one after the other.
  dropped-dropped :
      (len more : ℕ)
      → let d = dropped_of len in d + dropped_of (len + more - d) ≡ dropped_of (len + more)
  dropped-dropped len more = omega arith

  -- The state of a resampler after a stream.
  pub record IsAt (stream : List ℤ) (r : Resampler F) (dst : List ℤ) : Type 0 where
    pub same_ratio : r.ratio ≡ ratio
    pub place : ℕ
    pub frac_at : r.frac ≡ at place
    pub history_at : r.history ≡ drop (dropped_of (length stream)) stream
    pub count : ℕ
    pub outputs : dst ≡ values float exact stream 0 count
    pub fit : AllFit float exact (length stream) 0 count
    pub whole_place : place + dropped_of (length stream) * den ≡ count * step
    pub unfit : length stream < count * step / den + 5

  module _ (stream : List ℤ) (r : Resampler F) (dst more : List ℤ) (v : IsAt stream r dst) where
    pub d : ℕ
    d = dropped_of (length stream)

    pub window : List ℤ
    window = r.history ++ more

    window-drop : window ≡ drop d (stream ++ more)
    unfolding window d
    window-drop =
        ap (λ h. h ++ more) v.history_at
        ∙ sym (drop-append (dropped_of (length stream)) stream more (omega arith))

    pub length-window : length window ≡ length (stream ++ more) - d
    length-window = ap length window-drop ∙ length-drop d (stream ++ more)

    -- The position in the window leaves room for the samples in front, if some were dropped.
    in_front : (d ≡ 0) ⊎ (3 ≤ v.place / den)
    unfolding d
    in_front =
        let e = add-mul-div_right v.place (dropped_of (length stream)) exact.some_den in
        let f = ap (λ n. n / den) v.whole_place in
        front-cases (length stream) (v.place / den) (omega (arith, v.unfit, e, f))

    module _ (lp : Option (Lowpass F)) (n : ℕ) (fit : AllFit float exact (length window) v.place n)
        (unfit : length window < (v.place + n * step) / den + 5) where
      dw : ℕ
      dw = dropped_of (length window)

      pub after : ℕ
      after = v.place + n * step

      d-dw : d + dw ≡ dropped_of (length (stream ++ more))
      unfolding d dw
      d-dw =
          ap (λ l. d + dropped_of l) length-window
          ∙ ap (λ l. d + dropped_of (l - d)) (length-append stream more)
          ∙ dropped-dropped (length stream) (length more)
          ∙ ap dropped_of (sym (length-append stream more))

      place_kept : after - dw * den + dw * den ≡ after
      unfolding after dw
      place_kept =
          let few : dropped_of (length window) ≤ (v.place + n * step) / den =
            omega (arith, unfit) in
          let le = (le-div_iff_mul-le exact.some_den).0 few in omega arith

      total : (v.count + n) * step ≡ after + d * den
      unfolding after d
      total = omega (arith, add-mul v.count n step, v.whole_place)

      next_place : v.place + d * den ≡ 0 + v.count * step
      unfolding d
      next_place = omega (arith, v.whole_place)

      kept_outputs :
          dst ++ values float exact window v.place n
          ≡ values float exact (stream ++ more) 0 (v.count + n)
      kept_outputs =
          let all = stream ++ more in
          let front = v.outputs ∙ sym (values-more float exact stream more v.count 0 v.fit) in
          let back =
            ap (λ w. values float exact w v.place n) window-drop
            ∙ values-drop float exact d all n v.place in_front
            ∙ ap (λ i. values float exact all i n) next_place in
          ap₂ (λ a b. a ++ b) front back ∙ sym (values-append float exact all v.count n 0)

      d-le : d ≤ length (stream ++ more)
      unfolding d
      d-le = omega (arith, length-append stream more)

      kept_fit : AllFit float exact (length (stream ++ more)) 0 (v.count + n)
      kept_fit =
          let len = length (stream ++ more) in
          let longer =
            AllFit-longer float exact (length stream) len v.count 0
              (omega (arith, length-append stream more)) v.fit in
          let inner = subst (λ l. AllFit float exact l v.place n) length-window fit in
          let moved = AllFit-drop float exact len d n v.place d-le inner in
          AllFit-append float exact len v.count n 0 longer
            (subst (λ i. AllFit float exact len i n) next_place moved)

      kept_unfit : length (stream ++ more) < (v.count + n) * step / den + 5
      unfolding after
      kept_unfit =
          let e = add-mul-div_right after d exact.some_den in
          let f = ap (λ p. p / den) total in omega (arith, unfit, length-window, d-le, e, f)

      kept_place :
          after - dw * den + dropped_of (length (stream ++ more)) * den ≡ (v.count + n) * step
      kept_place = omega (arith, add-mul d dw den, ap (λ e. e * den) d-dw, place_kept, total)

      kept_history : drop dw window ≡ drop (dropped_of (length (stream ++ more))) (stream ++ more)
      kept_history =
          ap (drop dw) window-drop
          ∙ drop-drop dw d (stream ++ more)
          ∙ ap (λ e. drop e (stream ++ more)) d-dw

      kept_frac : float.sub (at after) (float.of_int (pos dw)) ≡ at (after - dw * den)
      kept_frac =
          ap (λ p. float.sub (at p) (float.of_int (pos dw))) (sym place_kept)
          ∙ exact.back_at (after - dw * den) dw

      pub kept : Resampler F
      kept = (retain float r lp window (dst, at after)).0

      pub kept-IsAt : IsAt (stream ++ more) kept (dst ++ values float exact window v.place n)
      unfolding kept dw after
      kept-IsAt = record {
        same_ratio = v.same_ratio;
        place = after - dw * den;
        frac_at = kept_frac;
        history_at = kept_history;
        count = v.count + n;
        outputs = kept_outputs;
        fit = kept_fit;
        whole_place = kept_place;
        unfit = kept_unfit;
      }
