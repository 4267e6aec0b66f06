-- ===== src/Audio/Resample/Positions.antt =====
-- internal/audio/resample.go: the loop over the outputs of one window.
use native.Mathlib.Nat.{mod-add-div', div-lt_iff_lt-mul}
use sip_relay.Prelude.{
  ℕ, zero, suc, ◌+◌, ◌-◌, ◌*◌, ◌/◌, ◌%◌, ◌<◌, ◌≤◌, ◌≡◌, refl, sym, ap, ap₂, subst, ◌∙◌, ◌⊎◌, inl,
  inr, Option, some, List, [], ◌∷◌, ◌++◌, arith, leb, leb→le, length, get_or, drop, append_assoc,
  append-nil, get_or-drop, get_or-append_left, Bool-cases,
}
use sip_relay.Prelude.Int.{ℤ, pos, negsuc, sub_ℕ}
use sip_relay.Audio.Float.{Float}
use sip_relay.Audio.Resample.{
  node_at, sample_at, accumulate, interpolate, output_at, has_next, emit_outputs,
}

-- Positions are computed exactly: `at j` is the position j / den, and the ratio is step / den.
pub record IsExact {F : Type 0} (float : Float F) (ratio : F) : Type 0 where
  pub step : ℕ
  pub den : ℕ
  pub at : ℕ → F
  pub some_step : 0 < step
  pub some_den : 0 < den
  pub zero_at : float.of_int (pos 0) ≡ at 0
  pub next_at : (j : ℕ) → float.add (at j) ratio ≡ at (j + step)
  pub floor_at : (j : ℕ) → float.floor (at j) ≡ pos (j / den)
  pub back_at : (j d : ℕ) → float.sub (at (j + d * den)) (float.of_int (pos d)) ≡ at j

module _ {F : Type 0} (float : Float F) where
  module _ (x y : ℕ → ℤ) (t : F) (same : (k : ℕ) → k < 8 → x k ≡ y k) where
    accumulate-window :
        (more k : ℕ) (acc : F)
        → more + k ≤ 8
        → accumulate float x t more k acc ≡ accumulate float y t more k acc
    unfolding accumulate
    accumulate-window zero k acc h = refl
    accumulate-window (suc more) k acc h =
        rw (same k (omega arith)) (accumulate-window more (suc k) _ (omega arith))

    pub interpolate-window : interpolate float x t ≡ interpolate float y t
    unfolding interpolate
    interpolate-window = rw (accumulate-window 8 0 _ (omega arith)) refl

sub-pos : (n : ℕ) → 3 ≤ n → sub_ℕ n 3 ≡ pos (n - 3)
sub-pos n h = ground arith

sub-neg : (n : ℕ) → n < 3 → sub_ℕ n 3 ≡ negsuc (3 - n - 1)
sub-neg n h = ground arith

pub le-cases : (a b : ℕ) → (a ≤ b) ⊎ (b < a)
le-cases a b = ground arith

-- The samples around a position, in a stream and in what is left of it.
pub sample-drop :
    (d : ℕ) (stream : List ℤ) (b k : ℕ)
    → (d ≡ 0) ⊎ (3 ≤ b)
    → sample_at (drop d stream) (node_at (pos b) k) ≡ sample_at stream (node_at (pos (b + d)) k)
sample-drop d stream b k (inl h) =
    let e : b + d + k ≡ b + k = omega (arith, h) in
    rw e (ap (λ n. sample_at (drop n stream) (sub_ℕ (b + k) 3)) h)
sample-drop d stream b k (inr h) =
    let e : d + (b + k - 3) ≡ b + d + k - 3 = omega arith in
    ap (sample_at (drop d stream)) (sub-pos (b + k) (omega arith))
    ∙ get_or-drop d stream (b + k - 3) (pos 0)
    ∙ ap (λ i. get_or stream i (pos 0)) e
    ∙ ap (sample_at stream) (sym (sub-pos (b + d + k) (omega arith)))

pub sample-append :
    (stream more : List ℤ) (b k : ℕ)
    → k < 8
    → b + 5 ≤ length stream
    → sample_at (stream ++ more) (node_at (pos b) k) ≡ sample_at stream (node_at (pos b) k)
sample-append stream more b k h l = elim (le-cases 3 (b + k)) [
  | inl le ↦
      ap (sample_at (stream ++ more)) (sub-pos (b + k) le)
      ∙ get_or-append_left stream more (b + k - 3) (pos 0) (omega arith)
      ∙ ap (sample_at stream) (sym (sub-pos (b + k) le))
  | inr lt ↦
      ap (sample_at (stream ++ more)) (sub-neg (b + k) lt)
      ∙ ap (sample_at stream) (sym (sub-neg (b + k) lt))
]

module _ {F : Type 0} (float : Float F) {ratio : F} (exact : IsExact float ratio) where
  open exact use {step, den, at}

  -- The sample of the output at position j of a stream: the interpolation between the eight samples
  -- around it.
  abbrev pub value : List ℤ → ℕ → ℤ
  value stream j =
      interpolate float (λ k. sample_at stream (node_at (pos (j / den)) k)) (at (j % den))

  -- The outputs of a stream at n positions from j on.
  abbrev pub values : List ℤ → ℕ → ℕ → List ℤ
  values stream j zero = []
  values stream j (suc n) = value stream j ∷ values stream (j + step) n

  -- There are samples enough behind n positions from j on.
  abbrev pub AllFit : ℕ → ℕ → ℕ → Type 0
  AllFit len j zero = Unit
  AllFit len j (suc n) = (j / den + 5 ≤ len) × AllFit len (j + step) n

  output_at-value : (window : List ℤ) (j : ℕ) → output_at float window (at j) ≡ value window j
  unfolding output_at
  output_at-value window j =
      let whole : j % den + j / den * den ≡ j = mod-add-div' j den in
      let phase : float.sub (at j) (float.of_int (pos (j / den))) ≡ at (j % den) =
        ap (λ p. float.sub (at p) (float.of_int (pos (j / den)))) (sym whole)
        ∙ exact.back_at (j % den) (j / den) in
      rw (exact.floor_at j, phase) refl

  has_next_iff :
      (window : List ℤ) (j : ℕ) → has_next float window (at j) ≡ leb (j / den + 5) (length window)
  has_next_iff window j = rw (exact.floor_at j) (ground arith)

  -- What the loop over a window leaves: n more outputs, and the position after them, which does not fit.
  pub record IsLooped (window dst : List ℤ) (j : ℕ) (r : Option (List ℤ × F)) : Type 0 where
    pub count : ℕ
    pub result : r ≡ some (dst ++ values window j count, at (j + count * step))
    pub fit : AllFit (length window) j count
    pub unfit : length window < (j + count * step) / den + 5

  module _ (window dst : List ℤ) (j : ℕ) where
    stays :
        (r : Option (List ℤ × F))
        → length window < j / den + 5
        → r ≡ some (dst, at j)
        → IsLooped window dst j r
    stays r short e =
        let still : j ≡ j + 0 * step = omega arith in
        record {
          count = 0;
          result = e ∙ ap₂ (λ d i. some (d, at i)) (sym (append-nil dst)) still;
          fit = tt;
          unfit = subst (λ i. length window < i / den + 5) still short;
        }

    goes_on :
        (r : Option (List ℤ × F))
        → j / den + 5 ≤ length window
        → IsLooped window (dst ++ (value window j ∷ [])) (j + step) r
        → IsLooped window dst j r
    goes_on r room v =
        let count = v.count in
        let place : j + step + count * step ≡ j + suc count * step = grind arith in
        record {
          count = suc count;
          result =
              v.result
              ∙ ap₂ (λ d i. some (d, at i))
                  (append_assoc dst (value window j ∷ []) (values window (j + step) count)) place;
          fit = (room, v.fit);
          unfit = subst (λ i. length window < i / den + 5) place v.unfit;
        }

  -- When the positions of the conversion are computed exactly, then with fuel for every position of the
  -- window the loop of Process ends, and ends where no further position fits.
  pub emit_outputs-IsLooped :
      (window : List ℤ) (fuel : ℕ) (dst : List ℤ) (j : ℕ)
      → length window * den ≤ fuel + j
      → IsLooped window dst j (emit_outputs float ratio window fuel dst (at j))
  unfolding emit_outputs
  emit_outputs-IsLooped window zero dst j h =
      elim (Bool-cases (leb (j / den + 5) (length window))) [
        | inl e ↦
            let below : j < length window * den =
              (div-lt_iff_lt-mul exact.some_den).0 (omega (arith, leb→le _ _ e)) in
            absurd (omega arith)
        | inr e ↦ stays window dst j _ (ground (arith, e)) (rw (has_next_iff window j, e) refl)
      ]
  emit_outputs-IsLooped window (suc fuel) dst j h =
      elim (Bool-cases (leb (j / den + 5) (length window))) [
        | inl e ↦
            let some_step = exact.some_step in
            let rest =
              emit_outputs-IsLooped window fuel (dst ++ (value window j ∷ [])) (j + step)
                (omega arith) in
            goes_on window dst j _ (leb→le _ _ e) (
              subst (IsLooped window (dst ++ (value window j ∷ [])) (j + step))
                (rw (has_next_iff window j, e, output_at-value window j, exact.next_at j) refl)
                rest)
        | inr e ↦ stays window dst j _ (ground (arith, e)) (rw (has_next_iff window j, e) refl)
      ]
