-- ===== src/Runner/Extract/First.antt =====
-- The search of `_extract_json_block` in a text that has a block.
use Prim.Native.Char.{Char}
use mathlib.Core.List.{append_assoc}
use gp_portal.Base.{
  drop, length-append, ◌≡◌, ◌∙◌, ap, refl, ℕ, ◌+◌, ◌-◌, none, some, [], ◌∷◌, ◌++◌, length, take,
  All, arith,
}
use gp_portal.Runner.Extract.{Text, scan, slice, extract_json_block, remove_fences}
use gp_portal.Runner.Extract.Grammar.{IsPlain, IsBlock}
use gp_portal.Runner.Extract.Steps.{outside, scan-plain, scan-first, scan-last, scan-Inner, move}

drop-front : (front t : Text) → drop (length front) (front ++ t) ≡ t
drop-front [] t = refl
drop-front (c ∷ front) t = drop-front front t

take-front : (b t : Text) → take (length b) (b ++ t) ≡ b
take-front [] t = refl
take-front (c ∷ b) t = ap (λ r. c ∷ r) (take-front b t)

sub_self : (m n : ℕ) → (m + n) - m ≡ n
sub_self m n = omega arith

-- The slice of a text at the place of one of its parts is that part.
pub slice-part :
    (front b back : Text)
    → slice (front ++ (b ++ back)) (length front) (length front + length b) ≡ b
slice-part front b back =
    rw (drop-front front (b ++ back), sub_self (length front) (length b)) (take-front b back)

pub zero_add : (n : ℕ) → 0 + n ≡ n
zero_add n = omega arith

block_end :
    (i : ℕ) (o c : Char) (inner : Text)
    → i + 1 + length inner + 1 ≡ i + length (o ∷ inner ++ c ∷ [])
block_end i o c inner = rw (length-append inner (c ∷ [])) (omega arith)

module _ (cl : Text) where
  scan-block :
      (i : ℕ) (b t : Text)
      → IsBlock b
      → scan cl i (outside 0 none) (b ++ t) ≡ some (slice cl i (i + length b))
  scan-block i b t h =
      rw (h.whole, append_assoc h.inner (h.closer ∷ []) t)
        (scan-first cl i none h.opener _ h.opens
          ∙ scan-Inner cl (i + 1) 0 (some i) h.inner _ h.balanced
          ∙ scan-last cl (i + 1 + length h.inner) i h.closer t h.closes
          ∙ ap (λ j. some (slice cl i j)) (block_end i h.opener h.closer h.inner))

  scan-prose :
      (i : ℕ) (front t : Text)
      → All IsPlain front
      → scan cl i (outside 0 none) (front ++ t) ≡ scan cl (i + length front) (outside 0 none) t
  scan-prose i [] t h = move cl _ t (omega arith)
  scan-prose i (c ∷ front) t h =
      scan-plain cl i 0 none c _ h.0 ∙ scan-prose (i + 1) front t h.1 ∙ move cl _ t (omega arith)

-- A text that holds, once its fences are removed, a block behind characters that are neither quotes nor
-- braces is searched with success: the block is what is found, whatever follows it.
pub extract_json_block-first :
    (t front b back : Text)
    → remove_fences t ≡ front ++ (b ++ back)
    → All IsPlain front
    → IsBlock b
    → extract_json_block t ≡ some b
unfolding extract_json_block
extract_json_block-first t front b back e plain h = rw e (
    scan-prose (front ++ (b ++ back)) 0 front (b ++ back) plain
    ∙ scan-block (front ++ (b ++ back)) (0 + length front) b back h
    ∙ ap some (
        ap (λ n. slice (front ++ (b ++ back)) n (n + length b)) (zero_add (length front))
        ∙ slice-part front b back))
