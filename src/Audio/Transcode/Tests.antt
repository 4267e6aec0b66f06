-- ===== src/Audio/Transcode/Tests.antt =====
-- A conversion from 24 kHz to 8 kHz over a small arithmetic in which positions are exact.
use sip_relay.Prelude.{
  ℕ, ◌+◌, ◌-◌, ◌*◌, ◌/◌, ◌≡◌, refl, ap, ◌↔◌, ◌||◌, true, none, some, List, [], ◌∷◌, arith, ltb,
  ◌==◌, replicate, concat,
}
use sip_relay.Prelude.Int.{ℤ, pos, negsuc, leb_ℤ}
use sip_relay.Audio.Float.{Float}
use sip_relay.Audio.Lowpass.{Lowpass, new_lowpass, fir_from}
use sip_relay.Audio.Lowpass.Taps.{IsSizedOrNone, new_lowpass-IsSized}
use sip_relay.Audio.Resample.{Resampler, new_resampler, process_all, emit_outputs}
use sip_relay.Audio.Resample.Positions.{IsExact, IsLooped, values, emit_outputs-IsLooped}
use sip_relay.Audio.Resample.Whole.{IsResampled}
use sip_relay.Audio.Resample.Chunking.{filtered_by, IsResampled-whole}

abbrev pub whole_part : ℤ → ℕ
whole_part (pos n) = n
whole_part (negsuc n) = 0

-- Numbers that are not negative, without fractions.
abbrev pub toy : Float ℕ
toy = record {
  of_int = whole_part;
  decimal = λ a b. a / b;
  add = λ a b. a + b;
  sub = λ a b. a - b;
  mul = λ a b. a * b;
  div = λ a b. a / b;
  less = ltb;
  equal = λ a b. a == b;
  floor = pos;
  ceil = pos;
  round = pos;
  sin = λ a. a;
  cos = λ a. a;
  pi = 3;
}

pub floor_toy : (j : ℕ) → pos j ≡ pos (j / 1)
floor_toy j = let e : j ≡ j / 1 = omega arith in ap pos e

pub back_toy : (j d : ℕ) → j + d * 1 - d ≡ j
back_toy j d = omega arith

abbrev pub exact_down : IsExact toy 3
exact_down = record {
  step = 3;
  den = 1;
  at = λ j. j;
  some_step = omega arith;
  some_den = omega arith;
  zero_at = refl;
  next_at = λ j. refl;
  floor_at = floor_toy;
  back_at = back_toy;
}

abbrev small : Lowpass ℕ
small = record { taps = 1 ∷ 2 ∷ 1 ∷ []; delay = pos 0 ∷ pos 0 ∷ [] }

abbrev pieces : List (List ℤ)
pieces = (pos 1 ∷ pos 2 ∷ []) ∷ [] ∷ (pos 3 ∷ []) ∷ []

filtered :
    fir_from toy small.taps (pos 0 ∷ pos 0 ∷ pos 1 ∷ pos 2 ∷ pos 3 ∷ []) 3 0
    ≡ pos 1 ∷ pos 4 ∷ pos 8 ∷ []
unfolding fir_from
filtered = refl

abbrev window : List ℤ
window = replicate 9 (pos 5)

emit_outputs-IsLooped_example :
    IsLooped toy exact_down window [] 0 (emit_outputs toy 3 window 9 [] 0)
emit_outputs-IsLooped_example = emit_outputs-IsLooped toy exact_down window 9 [] 0 (omega arith)

-- Two outputs, at 0 and at 3, and the next would be at 6.
two_outputs : emit_outputs toy 3 window 9 [] 0 ≡ some (values toy exact_down window 0 2, 6)
unfolding emit_outputs
two_outputs = refl

new_lowpass-IsSized_example :
    IsSizedOrNone (new_lowpass toy (pos 24000) (pos 8000))
    × ((new_lowpass toy (pos 24000) (pos 8000) ≡ none) ↔ (
        (leb_ℤ (pos 24000) (pos 8000) || leb_ℤ (pos 24000) (pos 0) || leb_ℤ (pos 8000) (pos 0))
        ≡ true))
new_lowpass-IsSized_example = new_lowpass-IsSized toy (pos 24000) (pos 8000)

abbrev pub down_exact : IsExact toy (new_resampler toy (pos 24000) (pos 8000)).ratio
unfolding new_resampler
down_exact = exact_down

IsResampled-whole_example :
    let r = new_resampler toy (pos 24000) (pos 8000) in
    (t u : Resampler ℕ) × (out : List ℤ) × (process_all toy 3 r [] pieces ≡ some (t, out))
    × (process_all toy 3 r [] (concat pieces ∷ []) ≡ some (u, out))
    × IsResampled toy down_exact (filtered_by toy r.lp (concat pieces)) out
unfolding new_resampler
IsResampled-whole_example =
    IsResampled-whole toy (pos 24000) (pos 8000) down_exact 3 pieces (concat pieces ∷ []) refl
      (omega arith)
