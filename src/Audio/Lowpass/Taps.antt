-- ===== src/Audio/Lowpass/Taps.antt =====
-- internal/audio/lowpass.go: the size of a filter.
use sip_relay.Prelude.{
  ℕ, zero, suc, ◌+◌, ◌-◌, ◌%◌, ◌≤◌, ◌≡◌, refl, ap, ◌∙◌, ◌↔◌, Bool, true, false, ◌||◌, Option, none,
  some, List, [], ◌∷◌, map, arith, if◌then◌else◌, length, length-replicate,
}
use sip_relay.Prelude.Int.{ℤ, pos, negsuc, leb_ℤ}
use sip_relay.Audio.Float.{Float}
use sip_relay.Audio.Lowpass.{
  Lowpass, clamp_taps, raw_taps, hamming_sinc_taps, tap_count, new_lowpass, min_lowpass_taps,
  max_lowpass_taps,
}

clamp_taps_lem :
    (wanted : ℤ)
    → (31 ≤ clamp_taps wanted) × (clamp_taps wanted ≤ 255) × (clamp_taps wanted % 2 ≡ 1)
unfolding clamp_taps
clamp_taps_lem (pos n) = ground arith
clamp_taps_lem (negsuc n) = ground arith

module _ {F : Type 0} (float : Float F) where
  length-raw_taps :
      (n : ℕ) (cutoff : F) (more i : ℕ) → length (raw_taps float n cutoff more i) ≡ more
  unfolding raw_taps
  length-raw_taps n cutoff zero i = refl
  length-raw_taps n cutoff (suc more) i = ap suc (length-raw_taps n cutoff more (suc i))

length-map : {A B : Type 0} (f : A → B) (xs : List A) → length (map f xs) ≡ length xs
length-map f [] = refl
length-map f (x ∷ xs) = ap suc (length-map f xs)

-- A filter of a size that the code allows.
pub record IsSized {F : Type 0} (f : Lowpass F) : Type 0 where
  pub at_least : min_lowpass_taps ≤ length f.taps
  pub at_most : length f.taps ≤ max_lowpass_taps
  pub odd : length f.taps % 2 ≡ 1
  pub delays : length f.delay + 1 ≡ length f.taps

abbrev pub IsSizedOrNone : {F : Type 0} → Option (Lowpass F) → Type 0
IsSizedOrNone none = Unit
IsSizedOrNone (some f) = IsSized f

IsSizedOrNone-if :
    {F : Type 0} (b : Bool) (f : Lowpass F)
    → IsSized f
    → IsSizedOrNone (if b then none else some f)
      × (((if b then none else some f) ≡ none) ↔ (b ≡ true))
IsSizedOrNone-if true f v = (tt, (λ e. refl, λ e. refl))
IsSizedOrNone-if false f v = (v, (λ e. cc, λ e. cc))

module _ {F : Type 0} (float : Float F) where
  length-taps : (n : ℕ) (cutoff : F) → length (hamming_sinc_taps float n cutoff) ≡ n
  unfolding hamming_sinc_taps
  length-taps n cutoff =
      length-map _ (raw_taps float n cutoff n 0) ∙ length-raw_taps float n cutoff n 0

  tap_count_lem :
      (from_hz to_hz : ℤ)
      → let n = tap_count float from_hz to_hz in (31 ≤ n) × (n ≤ 255) × (n % 2 ≡ 1)
  unfolding tap_count
  tap_count_lem from_hz to_hz =
      let width =
        float.div (float.mul (float.decimal 75 1000) (float.of_int to_hz)) (float.of_int from_hz) in
      clamp_taps_lem (
        if float.less (float.of_int (pos 0)) width
        then float.ceil (float.div (float.decimal 33 10) width)
        else pos min_lowpass_taps)

  -- Whatever the sample rates, and however rounding goes, a filter is made exactly for a conversion
  -- from a higher to a lower positive rate; it has an odd number of taps between 31 and 255, and a delay
  -- line of one sample less.
  pub new_lowpass-IsSized :
      (from_hz to_hz : ℤ)
      → IsSizedOrNone (new_lowpass float from_hz to_hz)
        × ((new_lowpass float from_hz to_hz ≡ none)
            ↔ ((leb_ℤ from_hz to_hz || leb_ℤ from_hz (pos 0) || leb_ℤ to_hz (pos 0)) ≡ true))
  unfolding new_lowpass
  new_lowpass-IsSized from_hz to_hz =
      let n = tap_count float from_hz to_hz in
      let cutoff =
        float.div (float.mul (float.decimal 425 1000) (float.of_int to_hz))
          (float.of_int from_hz) in
      let (low, high, odd) = tap_count_lem from_hz to_hz in
      let size = length-taps n cutoff in
      IsSizedOrNone-if (leb_ℤ from_hz to_hz || leb_ℤ from_hz (pos 0) || leb_ℤ to_hz (pos 0)) _
        (record {
          at_least = omega (arith, size, low);
          at_most = omega (arith, size, high);
          odd = ap (λ k. k % 2) size ∙ odd;
          delays = omega (arith, size, length-replicate (n - 1) (pos 0), low);
        })
