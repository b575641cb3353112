-- ===== src/Runner/Extract/Ending.antt =====
-- The scan of `_extract_json_block` within a block.
use Prim.Native.Char.{Char}
use gp_portal.Base.{
  ◌≡◌, ◌∙◌, ap, refl, sym, ℕ, zero, suc, ◌+◌, true, false, some, [], ◌∷◌, ◌++◌, length, arith,
}
use gp_portal.Runner.Extract.{Text, Mark, mark_of, scan, slice}
use gp_portal.Runner.Extract.Grammar.{StringBody}
use gp_portal.Runner.Extract.Steps.{
  outside, scan-plain, scan-quote, scan-opening, scan-closing, scan-last, scan-escaped, scan-escape,
  scan-unquote, scan-letter,
}
use gp_portal.Runner.Extract.Nest.{
  Nest, Place, out, within, at_place, StringRest, Suffix, Nest-plain, Nest-quoted, Nest-nested,
  Nest-closing, plain, quote, opening, closing, Kind-of, ends, escapes, letter, LetterKind-of,
  escaped-StringBody,
}

module _ (cl : Text) where
  -- A part of what is left, from its beginning, ends the slice that was found.
  pub record Ending (S : Text → Type 0) (k i : ℕ) (rest found : Text) : Type 0 where
    pub body : Text
    pub tail : Text
    pub split : rest ≡ body ++ tail
    pub part : S body
    pub cut : found ≡ slice cl k (i + length body)

  Ending-step :
      (S S' : Text → Type 0) (k i : ℕ) (c : Char) (rest found : Text)
      → ((t : Text) → S t → S' (c ∷ t))
      → Ending S k (i + 1) rest found
      → Ending S' k i (c ∷ rest) found
  Ending-step S S' k i c rest found step h = record {
    body = c ∷ h.body;
    tail = h.tail;
    split = ap (λ r. c ∷ r) h.split;
    part = step h.body h.part;
    cut = h.cut ∙ ap (slice cl k) (omega arith);
  }

  Ending-last :
      (k i : ℕ) (c : Char) (rest found : Text)
      → mark_of c ≡ Mark.closing
      → some (slice cl k (i + 1)) ≡ some found
      → Ending (Suffix out 1) k i (c ∷ rest) found
  unfolding Suffix Nest
  Ending-last k i c rest found m e = record {
    body = c ∷ [];
    tail = rest;
    split = refl;
    part = Nest-closing 0 c [] m refl;
    cut = cc;
  }

  pub scan-Ending :
      (p : Place) (rest : Text) (i d k : ℕ) (found : Text)
      → scan cl i (at_place p (suc d) (some k)) rest ≡ some found
      → Ending (Suffix p (suc d)) k i rest found
  unfolding at_place Suffix StringRest scan
  scan-Ending out [] i d k found e = cc
  scan-Ending (within b) [] i d k found e = cc
  scan-Ending out (c ∷ rest) i d k found e = elim (Kind-of c) [
    | plain m ↦
        Ending-step (Suffix out (suc d)) (Suffix out (suc d)) k i c rest found
          (λ t. Nest-plain d c t m)
          (scan-Ending out rest (i + 1) d k found
            (sym (scan-plain cl i (suc d) (some k) c rest m) ∙ e))
    | quote m ↦
        Ending-step (Suffix (within false) (suc d)) (Suffix out (suc d)) k i c rest found
          (λ t. Nest-quoted d c t m)
          (scan-Ending (within false) rest (i + 1) d k found
            (sym (scan-quote cl i (suc d) (some k) c rest m) ∙ e))
    | opening m ↦
        Ending-step (Suffix out (suc (suc d))) (Suffix out (suc d)) k i c rest found
          (λ t. Nest-nested d c t m)
          (scan-Ending out rest (i + 1) (suc d) k found
            (sym (scan-opening cl i d (some k) c rest m) ∙ e))
    | closing m ↦
        elim d
            as (λ d'.
              scan cl i (outside (suc d') (some k)) (c ∷ rest) ≡ some found
              → Ending (Suffix out (suc d')) k i (c ∷ rest) found) [
                | zero ↦ λ e. Ending-last k i c rest found m (sym (scan-last cl i k c rest m) ∙ e)
                | suc d' ↦ λ e.
                    Ending-step (Suffix out (suc d')) (Suffix out (suc (suc d'))) k i c rest found
                      (λ t. Nest-closing (suc d') c t m)
                      (scan-Ending out rest (i + 1) d' k found
                        (sym (scan-closing cl i d' (some k) c rest m) ∙ e))
              ]
          e
  ]
  scan-Ending (within true) (c ∷ rest) i d k found e =
      Ending-step (Suffix (within false) (suc d)) (Suffix (within true) (suc d)) k i c rest found
        (λ t (str, behind, split, h, nest).
          (c ∷ str, behind, ap (λ r. c ∷ r) split, (c, str, refl, h), nest))
        (scan-Ending (within false) rest (i + 1) d k found
          (sym (scan-escaped cl i (suc d) (some k) c rest) ∙ e))
  scan-Ending (within false) (c ∷ rest) i d k found e = elim (LetterKind-of c) [
    | ends m ↦
        Ending-step (Suffix out (suc d)) (Suffix (within false) (suc d)) k i c rest found
          (λ t nest. (c ∷ [], t, refl, StringBody.close c m, nest))
          (scan-Ending out rest (i + 1) d k found
            (sym (scan-unquote cl i (suc d) (some k) c rest m) ∙ e))
    | escapes m ↦
        Ending-step (Suffix (within true) (suc d)) (Suffix (within false) (suc d)) k i c rest found
          (escaped-StringBody d c m)
          (scan-Ending (within true) rest (i + 1) d k found
            (sym (scan-escape cl i (suc d) (some k) c rest m) ∙ e))
    | letter q b ↦
        Ending-step (Suffix (within false) (suc d)) (Suffix (within false) (suc d)) k i c rest found
          (λ t (str, behind, split, h, nest).
            (c ∷ str, behind, ap (λ r. c ∷ r) split, StringBody.letter c str q b h, nest))
          (scan-Ending (within false) rest (i + 1) d k found
            (sym (scan-letter cl i (suc d) (some k) c rest q b) ∙ e))
  ]
