-- ===== src/Audio/Transcode/Each.antt =====
-- internal/audio: Process called with an empty slice for each chunk, as the transcoders do.
use sip_relay.Prelude.{
  ℕ, zero, suc, ◌≡◌, refl, sym, ap, ◌∙◌, inl, inr, Bool, true, false, Option, none, some, List, [],
  ◌∷◌, ◌++◌, arith, ◌==◌, if◌then◌else◌, length, append_assoc, append-nil, Option-cases,
}
use sip_relay.Prelude.Int.{ℤ}
use sip_relay.Audio.Float.{Float}
use sip_relay.Audio.Lowpass.{Lowpass, process_lowpass}
use sip_relay.Audio.Resample.{
  Resampler, output_at, has_next, emit_outputs, retained, process, and_then, process_all,
}

-- A result behind what was there.
abbrev pub prefixed : {S : Type 0} → List ℤ → Option (List ℤ × S) → Option (List ℤ × S)
prefixed dst none = none
prefixed dst (some (out, s)) = some (dst ++ out, s)

abbrev pub behind : {R : Type 0} → List ℤ → Option (R × List ℤ) → Option (R × List ℤ)
behind dst none = none
behind dst (some (r, out)) = some (r, dst ++ out)

module _ {F : Type 0} (float : Float F) where
  prefixed-if :
      (b : Bool) (dst : List ℤ) (o o' p p' : Option (List ℤ × F))
      → o ≡ prefixed dst o'
      → p ≡ prefixed dst p'
      → (if b then o else p) ≡ prefixed dst (if b then o' else p')
  prefixed-if true dst o o' p p' h k = h
  prefixed-if false dst o o' p p' h k = k

  emit_outputs-prefixed :
      (ratio : F) (window : List ℤ) (fuel : ℕ) (dst out : List ℤ) (frac : F)
      → emit_outputs float ratio window fuel (dst ++ out) frac
        ≡ prefixed dst (emit_outputs float ratio window fuel out frac)
  unfolding emit_outputs
  emit_outputs-prefixed ratio window zero dst out frac =
      prefixed-if (has_next float window frac) dst none none _ (some (out, frac)) refl refl
  emit_outputs-prefixed ratio window (suc fuel) dst out frac =
      let next = output_at float window frac ∷ [] in
      prefixed-if (has_next float window frac) dst _ _ _ (some (out, frac))
        (ap (λ d. emit_outputs float ratio window fuel d (float.add frac ratio))
            (append_assoc dst out next)
          ∙ emit_outputs-prefixed ratio window fuel dst (out ++ next) (float.add frac ratio))
        refl

  retained-behind :
      (r : Resampler F) (lp : Option (Lowpass F)) (window dst : List ℤ) (o : Option (List ℤ × F))
      → retained float r lp window (prefixed dst o) ≡ behind dst (retained float r lp window o)
  retained-behind r lp window dst none = refl
  retained-behind r lp window dst (some (out, frac)) = refl

  -- `Process` appends to the slice that it is given.
  pub process-behind :
      (fuel : ℕ) (r : Resampler F) (dst c : List ℤ)
      → process float fuel r dst c ≡ behind dst (process float fuel r [] c)
  unfolding process
  process-behind fuel r dst [] = ap (λ d. some (r, d)) (sym (append-nil dst))
  process-behind fuel r dst (x ∷ c) =
      let (lp, filtered) = process_lowpass float r.lp (x ∷ c) in
      let window = r.history ++ filtered in
      let some_left : (suc (length c) == 0) ≡ false = ground arith in
      rw some_left (
        ap (λ d. retained float r lp window (emit_outputs float r.ratio window fuel d r.frac))
          (sym (append-nil dst))
        ∙ ap (retained float r lp window) (emit_outputs-prefixed r.ratio window fuel dst [] r.frac)
        ∙ retained-behind r lp window dst (emit_outputs float r.ratio window fuel [] r.frac))

  -- The chunks of a stream, each to a slice of its own, which g turns into bytes.
  module _ (g : List ℤ → List ℕ) where
    abbrev pub joined : List ℕ → Option (Resampler F × List ℕ) → Option (Resampler F × List ℕ)
    joined bytes none = none
    joined bytes (some (r, rest)) = some (r, bytes ++ rest)

    abbrev pub then_join :
        (Resampler F → Option (Resampler F × List ℕ))
        → Option (Resampler F × List ℤ)
        → Option (Resampler F × List ℕ)
    then_join next none = none
    then_join next (some (r, out)) = joined (g out) (next r)

    abbrev pub process_each : ℕ → Resampler F → List (List ℤ) → Option (Resampler F × List ℕ)
    process_each fuel r [] = some (r, [])
    process_each fuel r (c ∷ cs) =
        then_join (λ q. process_each fuel q cs) (process float fuel r [] c)

    module _ (homomorphic : (xs ys : List ℤ) → g (xs ++ ys) ≡ g xs ++ g ys) where
      -- The same as one slice for all, turned into bytes in the end.
      pub process_each-process_all :
          (fuel : ℕ) (r : Resampler F) (dst : List ℤ) (chunks : List (List ℤ)) (t : Resampler F)
          (out : List ℤ)
          → process_all float fuel r dst chunks ≡ some (t, out)
          → (bytes : List ℕ) × (process_each fuel r chunks ≡ some (t, bytes))
            × (g out ≡ g dst ++ bytes)
      process_each-process_all fuel r dst [] t out h =
          let same_r : r ≡ t = cc in
          let same_out : dst ≡ out = cc in
          ([], ap (λ q. some (q, [])) same_r, ap g (sym same_out) ∙ sym (append-nil (g dst)))
      process_each-process_all fuel r dst (c ∷ cs) t out h =
          let once = process-behind fuel r dst c in
          elim (Option-cases (process float fuel r [] c)) [
            | inl e ↦
                let nothing : process_all float fuel r dst (c ∷ cs) ≡ none =
                  ap (and_then float (λ q d. process_all float fuel q d cs))
                    (once ∙ ap (behind dst) e) in
                cc
            | inr (a, e) ↦
                let step =
                  ap (and_then float (λ q d. process_all float fuel q d cs))
                    (once ∙ ap (behind dst) e) in
                let (bytes, result, equal) =
                  process_each-process_all fuel a.0 (dst ++ a.1) cs t out (sym step ∙ h) in
                (
                  g a.1 ++ bytes,
                  ap (then_join (λ q. process_each fuel q cs)) e ∙ ap (joined (g a.1)) result,
                  equal
                      ∙ ap (λ b. b ++ bytes) (homomorphic dst a.1)
                      ∙ append_assoc (g dst) (g a.1) bytes,
                )
          ]
