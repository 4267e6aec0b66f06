-- ===== src/Audio/Resample.antt =====
-- internal/audio/resample.go: the resampler by Lagrange interpolation over eight samples. The loop over
-- the outputs has fuel; it gives none when the fuel runs out.
pub mod Positions
pub mod Values
pub mod Whole
pub mod Chunking
use sip_relay.Prelude.{
  ℕ, zero, suc, ◌+◌, ◌-◌, ◌*◌, Bool, true, false, Option, none, some, List, [], ◌∷◌, ◌++◌, ltb, leb,
  ◌==◌, if◌then◌else◌, length, get_or, drop, min,
}
use sip_relay.Prelude.Int.{ℤ, pos, negsuc, sub_ℕ, leb_ℤ}
use sip_relay.Audio.Float.{Float}
use sip_relay.Audio.Lowpass.{Lowpass, clamp_to_int16, new_lowpass, process_lowpass, reset_lowpass}

abbrev pub interpolation_order : ℕ
interpolation_order = 4

-- A position moved by o - 3, where o counts the nodes from the first.
abbrev pub node_at : ℤ → ℕ → ℤ
node_at (pos b) o = sub_ℕ (b + o) (interpolation_order - 1)
node_at (negsuc b) o = sub_ℕ o (b + interpolation_order)

-- A sample of the window, 0 outside.
abbrev pub sample_at : List ℤ → ℤ → ℤ
sample_at window (pos i) = get_or window i (pos 0)
sample_at window (negsuc i) = pos 0

-- `Resampler`
pub record Resampler (F : Type 0) : Type 0 where
  pub ratio : F
  pub history : List ℤ
  pub frac : F
  pub lp : Option (Lowpass F)

module _ {F : Type 0} (float : Float F) where
  open float use {of_int, add, sub, mul, div, floor}

  -- The loop of `lagrangeWeight`, from node m on; nodes are counted from the first.
  unfoldable pub weight_from : ℕ → F → ℕ → ℕ → F → F
  weight_from k t zero m weight = weight
  weight_from k t (suc more) m weight =
      let factor = div (sub t (of_int (sub_ℕ m 3))) (of_int (sub_ℕ k m)) in
      weight_from k t more (suc m) (if m == k then weight else mul weight factor)

  -- `lagrangeWeight`
  unfoldable pub lagrange_weight : ℕ → F → F
  unfolding weight_from
  lagrange_weight k t = weight_from k t (2 * interpolation_order) 0 (of_int (pos 1))

  -- The inner loop of `Process`, from node k on: `x` has the samples of the nodes.
  unfoldable pub accumulate : (ℕ → ℤ) → F → ℕ → ℕ → F → F
  unfolding lagrange_weight
  accumulate x t zero k acc = acc
  accumulate x t (suc more) k acc =
      accumulate x t more (suc k) (add acc (mul (lagrange_weight k t) (of_int (x k))))

  unfoldable pub interpolate : (ℕ → ℤ) → F → ℤ
  unfolding accumulate clamp_to_int16
  interpolate x t =
      clamp_to_int16 float (accumulate x t (2 * interpolation_order) 0 (of_int (pos 0)))

  -- The output at a position of the window.
  unfoldable pub output_at : List ℤ → F → ℤ
  unfolding interpolate
  output_at window frac =
      let base = floor frac in
      interpolate (λ k. sample_at window (node_at base k)) (sub frac (of_int base))

  -- `int(math.Floor(r.frac)) <= lastValidBase`
  abbrev pub has_next : List ℤ → F → Bool
  has_next window frac = leb_ℤ (floor frac) (sub_ℕ (length window) (1 + interpolation_order))

  -- The loop of `Process` over the outputs.
  unfoldable pub emit_outputs : F → List ℤ → ℕ → List ℤ → F → Option (List ℤ × F)
  unfolding output_at
  emit_outputs ratio window zero dst frac = if has_next window frac then none else some (dst, frac)
  emit_outputs ratio window (suc fuel) dst frac =
      let rest =
        emit_outputs ratio window fuel (dst ++ (output_at window frac ∷ [])) (add frac ratio) in
      if has_next window frac then rest else some (dst, frac)

  -- What `Process` keeps of the window.
  abbrev pub keep_of : List ℤ → ℕ
  keep_of window = min (2 * interpolation_order - 1) (length window)

  abbrev pub retain : Resampler F → Option (Lowpass F) → List ℤ → List ℤ × F → Resampler F × List ℤ
  retain r lp window (dst, frac) =
      let dropped = length window - keep_of window in
      (
        record r { lp = lp; history = drop dropped window; frac = sub frac (of_int (pos dropped)) },
        dst,
      )

  abbrev pub retained :
      Resampler F
      → Option (Lowpass F)
      → List ℤ
      → Option (List ℤ × F)
      → Option (Resampler F × List ℤ)
  retained r lp window none = none
  retained r lp window (some out) = some (retain r lp window out)

  -- `Process`
  unfoldable pub process : ℕ → Resampler F → List ℤ → List ℤ → Option (Resampler F × List ℤ)
  unfolding emit_outputs process_lowpass
  process fuel r dst samples =
      if length samples == 0
      then some (r, dst)
      else let (lp, filtered) = process_lowpass float r.lp samples in
        let window = r.history ++ filtered in
        retained r lp window (emit_outputs r.ratio window fuel dst r.frac)

  abbrev pub and_then :
      (Resampler F → List ℤ → Option (Resampler F × List ℤ))
      → Option (Resampler F × List ℤ)
      → Option (Resampler F × List ℤ)
  and_then next none = none
  and_then next (some (r, dst)) = next r dst

  -- The chunks of a stream, one call of Process for each.
  abbrev pub process_all : ℕ → Resampler F → List ℤ → List (List ℤ) → Option (Resampler F × List ℤ)
  process_all fuel r dst [] = some (r, dst)
  process_all fuel r dst (c ∷ cs) = and_then (λ q d. process_all fuel q d cs) (process fuel r dst c)

  -- `NewResampler`, and the option `WithoutAntiAlias`
  unfoldable pub new_resampler : ℤ → ℤ → Resampler F
  unfolding new_lowpass
  new_resampler from_hz to_hz = record {
    ratio = div (of_int from_hz) (of_int to_hz);
    history = [];
    frac = of_int (pos 0);
    lp = new_lowpass float from_hz to_hz;
  }

  unfoldable pub without_anti_alias : Resampler F → Resampler F
  without_anti_alias r = record r { lp = none }

  -- `Reset`
  unfoldable pub reset_resampler : Resampler F → Resampler F
  unfolding reset_lowpass
  reset_resampler r = record r {
    history = [];
    frac = of_int (pos 0);
    lp = reset_lowpass float r.lp;
  }
