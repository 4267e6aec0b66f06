-- ===== src/Audio/Lowpass/Chunked.antt =====
-- internal/audio/lowpass.go: the filter over a stream that comes in chunks.
use sip_relay.Prelude.{
  ℕ, zero, suc, ◌+◌, ◌-◌, ◌/◌, ◌<◌, ◌≤◌, ◌≡◌, refl, sym, ap, ap₂, ◌∙◌, false, Option, some, List,
  [], ◌∷◌, ◌++◌, arith, ◌==◌, length, get_or, drop, concat, length-append, length-drop,
  append_assoc, append-nil, get_or-drop, get_or-append_left, drop-append, drop-drop,
}
use sip_relay.Prelude.Int.{ℤ, pos}
use sip_relay.Audio.Float.{Float}
use sip_relay.Audio.Lowpass.{Lowpass, fir_pairs, fir, fir_from, process_lowpass}

module _ {F : Type 0} (float : Float F) where
  -- The chunks of a stream one after another, and all that comes out.
  abbrev pub process_chunks : Option (Lowpass F) → List (List ℤ) → Option (Lowpass F) × List ℤ
  process_chunks lp [] = (lp, [])
  process_chunks lp (c ∷ cs) =
      let (lp', out) = process_lowpass float lp c in
      let (lp'', outs) = process_chunks lp' cs in (lp'', out ++ outs)

  module _ (taps : List F) (x y : ℕ → ℤ) (same : (j : ℕ) → j < length taps → x j ≡ y j) where
    fir_pairs-window :
        (more k : ℕ) (acc : F)
        → more + k < length taps
        → fir_pairs float taps x more k acc ≡ fir_pairs float taps y more k acc
    unfolding fir_pairs
    fir_pairs-window zero k acc h = refl
    fir_pairs-window (suc more) k acc h =
        rw (same k (omega arith), same (length taps - 1 - k) (omega arith))
          (fir_pairs-window more (suc k) _ (omega arith))

    -- An output reads no more of the window than there are taps.
    fir-window : 0 < length taps → fir float taps x ≡ fir float taps y
    unfolding fir
    fir-window h =
        let half = (length taps - 1) / 2 in
        rw (fir_pairs-window half 0 _ (omega arith), same half (omega arith)) refl

  module _ (taps : List F) (ext : List ℤ) where
    fir_from-append :
        (a b i : ℕ)
        → fir_from float taps ext (a + b) i
          ≡ fir_from float taps ext a i ++ fir_from float taps ext b (i + a)
    unfolding fir_from
    fir_from-append zero b i =
        let e : 0 + b ≡ b = omega arith in let f : i + 0 ≡ i = omega arith in rw (e, f) refl
    fir_from-append (suc a) b i =
        let e : suc a + b ≡ suc (a + b) = omega arith in
        let f : i + suc a ≡ suc i + a = omega arith in
        rw (e, f)
          (ap (λ o. fir float taps (λ j. get_or ext (i + j) (pos 0)) ∷ o)
            (fir_from-append a b (suc i)))

    -- What comes later changes no output.
    fir_from-more :
        (more : List ℤ) (n i : ℕ)
        → 0 < length taps
        → i + n + length taps ≤ length ext + 1
        → fir_from float taps (ext ++ more) n i ≡ fir_from float taps ext n i
    unfolding fir_from
    fir_from-more more zero i h l = refl
    fir_from-more more (suc n) i h l =
        ap₂ (λ o os. o ∷ os)
          (fir-window taps _ _ (λ j less. get_or-append_left ext more (i + j) (pos 0) (omega arith))
            h)
          (fir_from-more more n (suc i) h (omega arith))

    fir_from-drop :
        (d n i : ℕ)
        → 0 < length taps
        → fir_from float taps (drop d ext) n i ≡ fir_from float taps ext n (d + i)
    unfolding fir_from
    fir_from-drop d zero i h = refl
    fir_from-drop d (suc n) i h =
        let e : suc (d + i) ≡ d + suc i = omega arith in
        let f : (j : ℕ) → d + (i + j) ≡ d + i + j = λ j. omega arith in
        rw e (
          ap₂ (λ o os. o ∷ os)
            (fir-window taps _ _
              (λ j less. get_or-drop d ext (i + j) (pos 0) ∙ ap (λ k. get_or ext k (pos 0)) (f j))
              h)
            (fir_from-drop d n (suc i) h))

  -- A filter whose delay line is one shorter than its taps.
  abbrev pub IsFilter : Lowpass F → Type 0
  IsFilter f = length f.delay + 1 ≡ length f.taps

  -- A call of `process`.
  process_once :
      (f : Lowpass F) (c : List ℤ)
      → process_lowpass float (some f) c ≡ (
        some (record f { delay = drop (length c) (f.delay ++ c) }),
        fir_from float f.taps (f.delay ++ c) (length c) 0,
      )
  unfolding process_lowpass fir_from
  process_once f [] = ap (λ d. (some (record f { delay = d }), [])) (sym (append-nil f.delay))
  process_once f (x ∷ c) =
      let some_left : (suc (length c) == 0) ≡ false = ground arith in
      let dropped : length (f.delay ++ (x ∷ c)) - length f.delay ≡ suc (length c) =
        omega (arith, length-append f.delay (x ∷ c)) in
      rw (some_left, dropped) refl

  module _ (f : Lowpass F) (c rest : List ℤ) (v : IsFilter f) where
    -- A chunk, and what follows it, in one stream.
    later_stream : drop (length c) (f.delay ++ c) ++ rest ≡ drop (length c) (f.delay ++ (c ++ rest))
    later_stream =
        sym (drop-append (length c) (f.delay ++ c) rest (omega (arith, length-append f.delay c)))
        ∙ ap (drop (length c)) (append_assoc f.delay c rest)

    delay_kept : IsFilter (record f { delay = drop (length c) (f.delay ++ c) })
    delay_kept = omega (arith, length-drop (length c) (f.delay ++ c), length-append f.delay c)

    chunk_delay :
        drop (length rest) (drop (length c) (f.delay ++ c) ++ rest)
        ≡ drop (length (c ++ rest)) (f.delay ++ (c ++ rest))
    chunk_delay =
        ap (drop (length rest)) later_stream
        ∙ drop-drop (length rest) (length c) (f.delay ++ (c ++ rest))
        ∙ ap (λ n. drop n (f.delay ++ (c ++ rest))) (sym (length-append c rest))

    chunk_outputs :
        fir_from float f.taps (f.delay ++ c) (length c) 0
          ++ fir_from float f.taps (drop (length c) (f.delay ++ c) ++ rest) (length rest) 0
        ≡ fir_from float f.taps (f.delay ++ (c ++ rest)) (length (c ++ rest)) 0
    chunk_outputs =
        let stream = f.delay ++ (c ++ rest) in
        let some_taps : 0 < length f.taps = omega (arith, v) in
        let zero_start : length c + 0 ≡ 0 + length c = omega arith in
        let front : fir_from float f.taps (f.delay ++ c) (length c) 0
            ≡ fir_from float f.taps stream (length c) 0 =
          sym (
            fir_from-more f.taps (f.delay ++ c) rest (length c) 0 some_taps
              (omega (arith, v, length-append f.delay c)))
          ∙ ap (λ e. fir_from float f.taps e (length c) 0) (append_assoc f.delay c rest) in
        let back : fir_from float f.taps (drop (length c) (f.delay ++ c) ++ rest) (length rest) 0
            ≡ fir_from float f.taps stream (length rest) (0 + length c) =
          ap (λ e. fir_from float f.taps e (length rest) 0) later_stream
          ∙ fir_from-drop f.taps stream (length c) (length rest) 0 some_taps
          ∙ ap (fir_from float f.taps stream (length rest)) zero_start in
        ap₂ (λ a b. a ++ b) front back
        ∙ sym (fir_from-append f.taps stream (length c) (length rest) 0)
        ∙ ap (λ n. fir_from float f.taps stream n 0) (sym (length-append c rest))

  -- However a stream is cut into chunks, and however rounding goes, `process` gives in all one output
  -- for each sample, each the sum over the window of the whole stream that ends in its sample, with the
  -- delay line in front; and at the end the delay line holds the last samples.
  pub process_chunks-stream :
      (f : Lowpass F) (chunks : List (List ℤ))
      → IsFilter f
      → let stream = f.delay ++ concat chunks in
        let n = length (concat chunks) in
        process_chunks (some f) chunks
        ≡ (some (record f { delay = drop n stream }), fir_from float f.taps stream n 0)
  unfolding fir_from
  process_chunks-stream f [] v =
      ap (λ d. (some (record f { delay = d }), [])) (sym (append-nil f.delay))
  process_chunks-stream f (c ∷ cs) v =
      let rest = concat cs in
      let f' = record f { delay = drop (length c) (f.delay ++ c) } in
      let out = fir_from float f.taps (f.delay ++ c) (length c) 0 in
      ap
        (λ (r : Option (Lowpass F) × List ℤ).
          ((process_chunks r.0 cs).0, r.1 ++ (process_chunks r.0 cs).1))
        (process_once f c)
      ∙ ap (λ (r : Option (Lowpass F) × List ℤ). (r.0, out ++ r.1))
          (process_chunks-stream f' cs (delay_kept f c rest v))
      ∙ ap₂ (λ d o. (some (record f { delay = d }), o)) (chunk_delay f c rest v)
          (chunk_outputs f c rest v)
