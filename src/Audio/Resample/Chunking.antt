-- ===== src/Audio/Resample/Chunking.antt =====
-- internal/audio/resample.go: two ways to cut a stream into chunks.
use sip_relay.Prelude.{
  ℕ, zero, suc, ◌+◌, ◌*◌, ◌/◌, ◌<◌, ◌≤◌, ◌≡◌, refl, sym, ap, subst, ◌∙◌, inl, inr, Option, none,
  some, List, [], ◌∷◌, ◌++◌, arith, length, concat,
}
use sip_relay.Prelude.Int.{ℤ}
use sip_relay.Audio.Float.{Float}
use sip_relay.Audio.Lowpass.{Lowpass, fir_from, process_lowpass}
use sip_relay.Audio.Lowpass.Chunked.{process_chunks, process_chunks-stream}
use sip_relay.Audio.Lowpass.Taps.{IsSizedOrNone, new_lowpass-IsSized}
use sip_relay.Audio.Resample.{Resampler, process_all, new_resampler}
use sip_relay.Audio.Resample.Positions.{IsExact, values, AllFit, le-cases}
use sip_relay.Audio.Resample.Whole.{IsResampled}
use sip_relay.Audio.Resample.Whole.Run.{IsFresh, process_all-IsResampled}

module _ {F : Type 0} (float : Float F) where
  -- A stream after the filter, as one.
  abbrev pub filtered_by : Option (Lowpass F) → List ℤ → List ℤ
  filtered_by none stream = stream
  filtered_by (some f) stream = fir_from float f.taps (f.delay ++ stream) (length stream) 0

  length-fir_from :
      (taps : List F) (ext : List ℤ) (n i : ℕ) → length (fir_from float taps ext n i) ≡ n
  unfolding fir_from
  length-fir_from taps ext zero i = refl
  length-fir_from taps ext (suc n) i = ap suc (length-fir_from taps ext n (suc i))

  length-filtered_by :
      (lp : Option (Lowpass F)) (stream : List ℤ) → length (filtered_by lp stream) ≡ length stream
  length-filtered_by none stream = refl
  length-filtered_by (some f) stream = length-fir_from f.taps (f.delay ++ stream) (length stream) 0

  unfiltered : (chunks : List (List ℤ)) → process_chunks float none chunks ≡ (none, concat chunks)
  unfolding process_lowpass
  unfiltered [] = refl
  unfiltered (c ∷ cs) = ap (λ (r : Option (Lowpass F) × List ℤ). (r.0, c ++ r.1)) (unfiltered cs)

  process_chunks-filtered_by :
      (lp : Option (Lowpass F)) (chunks : List (List ℤ))
      → IsSizedOrNone lp
      → (process_chunks float lp chunks).1 ≡ filtered_by lp (concat chunks)
  process_chunks-filtered_by none chunks v = ap (λ r. r.1) (unfiltered chunks)
  process_chunks-filtered_by (some f) chunks v =
      ap (λ r. r.1) (process_chunks-stream float f chunks v.delays)

  module _ {ratio : F} (exact : IsExact float ratio) where
    open exact use {step, den}

    AllFit-place :
        (len n j m : ℕ) → AllFit float exact len j n → m < n → (j + m * step) / den + 5 ≤ len
    AllFit-place len zero j m h less = absurd (omega arith)
    AllFit-place len (suc n) j zero h less =
        let e : j + 0 * step ≡ j = omega arith in subst (λ i. i / den + 5 ≤ len) (sym e) h.0
    AllFit-place len (suc n) j (suc m) h less =
        let e : j + step + m * step ≡ j + suc m * step = grind arith in
        subst (λ i. i / den + 5 ≤ len) e (AllFit-place len n (j + step) m h.1 (omega arith))

    -- A place that fits and one that does not.
    before-count :
        (stream : List ℤ) (n m : ℕ)
        → AllFit float exact (length stream) 0 n
        → length stream < m * step / den + 5
        → n ≤ m
    before-count stream n m fit unfit = elim (le-cases n m) [
      | inl le ↦ le
      | inr lt ↦
          let e : 0 + m * step ≡ m * step = omega arith in
          let room = AllFit-place (length stream) n 0 m fit lt in
          absurd (omega (arith, subst (λ i. i / den + 5 ≤ length stream) e room, unfit))
    ]

    -- A stream has no other outputs.
    IsResampled-unique :
        (stream out other : List ℤ)
        → IsResampled float exact stream out
        → IsResampled float exact stream other
        → out ≡ other
    IsResampled-unique stream out other v w =
        let up = before-count stream v.count w.count v.fit w.unfit in
        let down = before-count stream w.count v.count w.fit v.unfit in
        let same : v.count ≡ w.count = omega arith in
        v.outputs ∙ ap (values float exact stream 0) same ∙ sym w.outputs

  module _ (from_hz to_hz : ℤ) where
    resampler : Resampler F
    resampler = new_resampler float from_hz to_hz

    resampler-IsSized : IsSizedOrNone resampler.lp
    unfolding resampler new_resampler
    resampler-IsSized = (new_lowpass-IsSized float from_hz to_hz).0

    -- When the positions of a conversion are computed exactly, a new resampler, given a stream in any
    -- chunks, with fuel for the stream's length returns from every call, and what it gives in all are
    -- the outputs of the whole stream, filtered as one; another cut of the stream gives the same.
    pub IsResampled-whole :
        (exact : IsExact float (new_resampler float from_hz to_hz).ratio) (fuel : ℕ)
        (chunks others : List (List ℤ))
        → concat chunks ≡ concat others
        → length (concat chunks) * exact.den ≤ fuel
        → let r = new_resampler float from_hz to_hz in
          (t u : Resampler F) × (out : List ℤ) × (process_all float fuel r [] chunks
            ≡ some (t, out))
          × (process_all float fuel r [] others ≡ some (u, out))
          × IsResampled float exact (filtered_by r.lp (concat chunks)) out
    unfolding resampler new_resampler
    IsResampled-whole exact fuel chunks others same h =
        let r = new_resampler float from_hz to_hz in
        let lp = r.lp in
        let fresh : IsFresh float exact r = (refl, refl, refl) in
        let one = process_chunks-filtered_by lp chunks resampler-IsSized in
        let two =
          process_chunks-filtered_by lp others resampler-IsSized ∙ ap (filtered_by lp) (sym same) in
        let size = length-filtered_by lp (concat chunks) in
        let enough = subst (λ n. n * exact.den ≤ fuel) (sym size) h in
        let (t, out, result, v) =
          process_all-IsResampled float exact fuel chunks r fresh
            (subst (λ f. length f * exact.den ≤ fuel) (sym one) enough) in
        let (u, other, result', w) =
          process_all-IsResampled float exact fuel others r fresh
            (subst (λ f. length f * exact.den ≤ fuel) (sym two) enough) in
        let v' = subst (λ s. IsResampled float exact s out) one v in
        let w' = subst (λ s. IsResampled float exact s other) two w in
        let equal = IsResampled-unique exact (filtered_by lp (concat chunks)) other out w' v' in
        (t, u, out, result, result' ∙ ap (λ o. some (u, o)) equal, v')
