-- ===== src/Audio/Lowpass.antt =====
-- internal/audio/lowpass.go: the low-pass filter in front of decimation. The buffers that are kept for
-- reuse, `scratch` and `ext`, hold nothing from one call to the next.
pub mod Chunked
pub mod Taps
use sip_relay.Prelude.{
  ℕ, zero, suc, ◌+◌, ◌-◌, ◌/◌, ◌%◌, Bool, true, false, not, ◌||◌, Option, none, some, List, [], ◌∷◌,
  ◌++◌, map, ltb, leb, ◌==◌, if◌then◌else◌, length, get_or, drop, replicate,
}
use sip_relay.Prelude.Int.{ℤ, pos, negsuc, pos_part, leb_ℤ, ltb_ℤ}
use sip_relay.Audio.Float.{Float}

abbrev pub min_lowpass_taps : ℕ
min_lowpass_taps = 31

abbrev pub max_lowpass_taps : ℕ
max_lowpass_taps = 255

-- `lowpass`
pub record Lowpass (F : Type 0) : Type 0 where
  pub taps : List F
  pub delay : List ℤ

-- What newLowpass makes of the number of taps that the transition band asks for.
unfoldable pub clamp_taps : ℤ → ℕ
clamp_taps wanted =
    let low = if ltb_ℤ wanted (pos min_lowpass_taps) then min_lowpass_taps else pos_part wanted in
    let n = if ltb max_lowpass_taps low then max_lowpass_taps else low in
    if n % 2 == 0 then suc n else n

module _ {F : Type 0} (float : Float F) where
  open float use {of_int, decimal, add, sub, mul, div, less, equal, ceil, round, sin, cos, pi}

  -- `clampToInt16`
  unfoldable pub clamp_to_int16 : F → ℤ
  clamp_to_int16 v =
      if less (of_int (pos 32767)) v
      then pos 32767
      else if less v (of_int (negsuc 32767))
      then negsuc 32767
      else round v

  -- A coefficient before it is normalized.
  unfoldable pub raw_tap : ℕ → F → ℕ → F
  raw_tap n cutoff i =
      let two = of_int (pos 2) in
      let x = sub (of_int (pos i)) (div (of_int (pos (n - 1))) two) in
      let sinc =
        if equal x (of_int (pos 0))
        then mul two cutoff
        else div (sin (mul (mul (mul two pi) cutoff) x)) (mul pi x) in
      let angle = div (mul (mul two pi) (of_int (pos i))) (of_int (pos (n - 1))) in
      mul sinc (sub (decimal 54 100) (mul (decimal 46 100) (cos angle)))

  -- The first loop of `hammingSincTaps`, from coefficient i on.
  unfoldable pub raw_taps : ℕ → F → ℕ → ℕ → List F
  raw_taps n cutoff zero i = []
  raw_taps n cutoff (suc more) i = raw_tap n cutoff i ∷ raw_taps n cutoff more (suc i)

  abbrev pub sum_of : F → List F → F
  sum_of acc [] = acc
  sum_of acc (t ∷ ts) = sum_of (add acc t) ts

  -- `hammingSincTaps`
  unfoldable pub hamming_sinc_taps : ℕ → F → List F
  unfolding raw_taps
  hamming_sinc_taps n cutoff =
      let taps = raw_taps n cutoff n 0 in map (λ t. div t (sum_of (of_int (pos 0)) taps)) taps

  -- The number of taps for a conversion.
  unfoldable pub tap_count : ℤ → ℤ → ℕ
  unfolding clamp_taps
  tap_count from_hz to_hz =
      let width = div (mul (decimal 75 1000) (of_int to_hz)) (of_int from_hz) in
      clamp_taps (
        if less (of_int (pos 0)) width
        then ceil (div (decimal 33 10) width)
        else pos min_lowpass_taps)

  -- `newLowpass`
  unfoldable pub new_lowpass : ℤ → ℤ → Option (Lowpass F)
  unfolding hamming_sinc_taps tap_count
  new_lowpass from_hz to_hz =
      if leb_ℤ from_hz to_hz || leb_ℤ from_hz (pos 0) || leb_ℤ to_hz (pos 0)
      then none
      else let n = tap_count from_hz to_hz in
        let cutoff = div (mul (decimal 425 1000) (of_int to_hz)) (of_int from_hz) in
        some (record { taps = hamming_sinc_taps n cutoff; delay = replicate (n - 1) (pos 0) })

  -- The inner loop of `process`, from pair k on: `x` is the window of the output.
  unfoldable pub fir_pairs : List F → (ℕ → ℤ) → ℕ → ℕ → F → F
  fir_pairs taps x zero k acc = acc
  fir_pairs taps x (suc more) k acc =
      let pair = add (of_int (x (length taps - 1 - k))) (of_int (x k)) in
      fir_pairs taps x more (suc k) (add acc (mul (get_or taps k (of_int (pos 0))) pair))

  -- One output of `process`.
  unfoldable pub fir : List F → (ℕ → ℤ) → ℤ
  unfolding fir_pairs clamp_to_int16
  fir taps x =
      let half = (length taps - 1) / 2 in
      let acc = fir_pairs taps x half 0 (of_int (pos 0)) in
      clamp_to_int16 (add acc (mul (get_or taps half (of_int (pos 0))) (of_int (x half))))

  -- The outputs of `process` from output i on.
  unfoldable pub fir_from : List F → List ℤ → ℕ → ℕ → List ℤ
  unfolding fir
  fir_from taps ext zero i = []
  fir_from taps ext (suc more) i =
      fir taps (λ j. get_or ext (i + j) (pos 0)) ∷ fir_from taps ext more (suc i)

  -- `process`
  unfoldable pub process_lowpass : Option (Lowpass F) → List ℤ → Option (Lowpass F) × List ℤ
  unfolding fir_from
  process_lowpass none samples = (none, samples)
  process_lowpass (some f) samples =
      if length samples == 0
      then (some f, samples)
      else let ext = f.delay ++ samples in
        (
          some (record f { delay = drop (length ext - length f.delay) ext }),
          fir_from f.taps ext (length samples) 0,
        )

  -- `reset`
  unfoldable pub reset_lowpass : Option (Lowpass F) → Option (Lowpass F)
  reset_lowpass none = none
  reset_lowpass (some f) = some (record f { delay = replicate (length f.delay) (pos 0) })
