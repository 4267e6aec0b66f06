-- ===== src/Audio/Resample/Whole/Run.antt =====
-- internal/audio/resample.go: the resampler over a stream that comes in chunks.
use native.Mathlib.Nat.{mul-le-mul_right}
use sip_relay.Prelude.{
  ℕ, suc, ◌*◌, ◌≤◌, ◌≡◌, refl, sym, ap, ap₂, subst, ◌∙◌, false, Option, none, some, List, [], ◌∷◌,
  ◌++◌, arith, ◌==◌, length, length-append, append_assoc, append-nil,
}
use sip_relay.Prelude.Int.{ℤ, pos}
use sip_relay.Audio.Float.{Float}
use sip_relay.Audio.Lowpass.{Lowpass, process_lowpass}
use sip_relay.Audio.Lowpass.Chunked.{process_chunks}
use sip_relay.Audio.Resample.{Resampler, emit_outputs, retained, process, and_then, process_all}
use sip_relay.Audio.Resample.Positions.{IsExact, values, IsLooped, emit_outputs-IsLooped}
use sip_relay.Audio.Resample.Whole.{
  IsResampled, IsAt, length-window, window, after, kept, kept-IsAt,
}

module _ {F : Type 0} (float : Float F) {ratio : F} (exact : IsExact float ratio) where
  open exact use {step, den, at}

  -- What a call of Process leaves after a stream of which `more` is the filtered end.
  record IsProcessed (stream : List ℤ) (lp : Option (Lowpass F)) (p : Option (Resampler F × List ℤ))
      : Type 0 where
    resampler : Resampler F
    out : List ℤ
    result : p ≡ some (resampler, out)
    at_stream : IsAt float exact stream resampler out
    same_lp : resampler.lp ≡ lp

  process_lowpass-nil : (lp : Option (Lowpass F)) → process_lowpass float lp [] ≡ (lp, [])
  unfolding process_lowpass
  process_lowpass-nil none = refl
  process_lowpass-nil (some f) = refl

  module _ (stream : List ℤ) (r : Resampler F) (dst : List ℤ)
      (v : IsAt float exact stream r dst) where
    looped-IsProcessed :
        (lp : Option (Lowpass F)) (more : List ℤ) (o : Option (List ℤ × F))
        → IsLooped float exact (r.history ++ more) dst v.place o
        → IsProcessed (stream ++ more) lp (retained float r lp (r.history ++ more) o)
    unfolding window kept after
    looped-IsProcessed lp more o w = record {
      resampler = kept float exact stream r dst more v lp w.count w.fit w.unfit;
      out = dst ++ values float exact (r.history ++ more) v.place w.count;
      result = ap (retained float r lp (r.history ++ more)) w.result;
      at_stream = kept-IsAt float exact stream r dst more v lp w.count w.fit w.unfit;
      same_lp = refl;
    }

    process-IsProcessed :
        (fuel : ℕ) (c : List ℤ)
        → let (lp, more) = process_lowpass float r.lp c in
          length (stream ++ more) * den ≤ fuel
          → IsProcessed (stream ++ more) lp (process float fuel r dst c)
    unfolding process window
    process-IsProcessed fuel [] h =
        subst (λ (q : Option (Lowpass F) × List ℤ). IsProcessed (stream ++ q.1) q.0 (some (r, dst)))
          (sym (process_lowpass-nil r.lp))
          (record {
            resampler = r;
            out = dst;
            result = refl;
            at_stream = subst (λ s. IsAt float exact s r dst) (sym (append-nil stream)) v;
            same_lp = refl;
          })
    process-IsProcessed fuel (x ∷ c) h =
        let (lp, more) = process_lowpass float r.lp (x ∷ c) in
        let some_left : (suc (length c) == 0) ≡ false = ground arith in
        let size = length-window float exact stream r dst more v in
        let shorter : length (r.history ++ more) ≤ length (stream ++ more) = omega (arith, size) in
        let enough = mul-le-mul_right den shorter in
        let looped =
          emit_outputs-IsLooped float exact (r.history ++ more) fuel dst v.place (omega arith) in
        rw some_left (
          looped-IsProcessed lp more _ (
            subst (IsLooped float exact (r.history ++ more) dst v.place)
              (ap₂ (λ q p. emit_outputs float q (r.history ++ more) fuel dst p) (sym v.same_ratio)
                (sym v.frac_at))
              looped))

  -- What is left of the fuel's bound for a part of the stream.
  part-fits : (fuel : ℕ) (xs ys : List ℤ) → length (xs ++ ys) * den ≤ fuel → length xs * den ≤ fuel
  part-fits fuel xs ys h =
      let less : length xs ≤ length (xs ++ ys) = omega (arith, length-append xs ys) in
      omega (arith, mul-le-mul_right den less)

  process_all-IsAt :
      (fuel : ℕ) (chunks : List (List ℤ)) (stream : List ℤ) (r : Resampler F) (dst : List ℤ)
      → IsAt float exact stream r dst
      → let all = stream ++ (process_chunks float r.lp chunks).1 in
        length all * den ≤ fuel
        → (t : Resampler F) × (out : List ℤ) × (process_all float fuel r dst chunks ≡ some (t, out))
          × IsAt float exact all t out
  process_all-IsAt fuel [] stream r dst v h =
      (r, dst, refl, subst (λ s. IsAt float exact s r dst) (sym (append-nil stream)) v)
  process_all-IsAt fuel (c ∷ cs) stream r dst v h =
      let (lp, more) = process_lowpass float r.lp c in
      let rest = (process_chunks float lp cs).1 in
      let assoc = append_assoc stream more rest in
      let whole = subst (λ s. length s * den ≤ fuel) (sym assoc) h in
      let p =
        process-IsProcessed stream r dst v fuel c (part-fits fuel (stream ++ more) rest whole) in
      let out_of = λ (l : Option (Lowpass F)). stream ++ more ++ (process_chunks float l cs).1 in
      let (t, out, result, at_end) =
        process_all-IsAt fuel cs (stream ++ more) p.resampler p.out p.at_stream
          (subst (λ l. length (out_of l) * den ≤ fuel) (sym p.same_lp) whole) in
      (
        t,
        out,
        ap (and_then float (λ q d. process_all float fuel q d cs)) p.result ∙ result,
        subst (λ s. IsAt float exact s t out) assoc
            (subst (λ l. IsAt float exact (out_of l) t out) p.same_lp at_end),
      )

  -- A resampler as it is made or reset, with this ratio.
  abbrev pub IsFresh : Resampler F → Type 0
  IsFresh r = (r.ratio ≡ ratio) × (r.history ≡ []) × (r.frac ≡ float.of_int (pos 0))

  fresh-IsAt : (r : Resampler F) → IsFresh r → IsAt float exact [] r []
  fresh-IsAt r h = record {
    same_ratio = h.0;
    place = 0;
    frac_at = h.2 ∙ exact.zero_at;
    history_at = h.1;
    count = 0;
    outputs = refl;
    fit = tt;
    whole_place = omega arith;
    unfit = omega arith;
  }

  -- When positions are computed exactly, then however a stream is cut into chunks, with fuel for its
  -- length every call of Process on it returns, and the outputs together are those of the whole
  -- stream, filtered: one interpolated at each multiple of the ratio with enough samples behind it.
  pub process_all-IsResampled :
      (fuel : ℕ) (chunks : List (List ℤ)) (r : Resampler F)
      → IsFresh r
      → let filtered = (process_chunks float r.lp chunks).1 in
        length filtered * den ≤ fuel
        → (t : Resampler F) × (out : List ℤ) × (process_all float fuel r [] chunks ≡ some (t, out))
          × IsResampled float exact filtered out
  process_all-IsResampled fuel chunks r fresh h =
      let (t, out, result, v) = process_all-IsAt fuel chunks [] r [] (fresh-IsAt r fresh) h in
      (
        t,
        out,
        result,
        record { count = v.count; outputs = v.outputs; fit = v.fit; unfit = v.unfit },
      )
