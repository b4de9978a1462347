-- ===== src/Log/Console/Splitting.antt =====
-- The reading of an output by its lines.
use adaptive_pi.Prelude.{
  ℕ, ◌≡◌, refl, sym, ap, ◌∙◌, false, List, [], ◌∷◌, ◌++◌, Bytes, append_assoc, ◌==◌, if◌then◌else◌,
  arith,
}
use mathlib.Core.Path.{subst}
use adaptive_pi.Log.Console.Lines.{IsLine, has_newline}

-- The lines of an output, each with its newline, and what follows the last of them.
attach : ℕ → List Bytes × Bytes → List Bytes × Bytes
attach c ([], rest) = ([], c ∷ rest)
attach c (l ∷ ls, rest) = ((c ∷ l) ∷ ls, rest)

unfoldable pub split_lines : Bytes → List Bytes × Bytes
unfolding attach
split_lines [] = ([], [])
split_lines (c ∷ s) =
    let r = split_lines s in if c == b'\n' then ((c ∷ []) ∷ r.0, r.1) else attach c r

split_lines-body :
    (body rest : Bytes)
    → has_newline body ≡ false
    → split_lines (body ++ b'\n' ∷ rest)
      ≡ ((body ++ b'\n' ∷ []) ∷ (split_lines rest).0, (split_lines rest).1)
unfolding split_lines
split_lines-body [] rest h = refl
split_lines-body (c ∷ body) rest h =
    let other : (c == b'\n') ≡ false = ground arith in
    let inner : has_newline body ≡ false = ground arith in
    rw (other, split_lines-body body rest inner)

abbrev pub joined_records : List Bytes → Bytes
joined_records [] = []
joined_records (r ∷ rs) = r ++ joined_records rs

abbrev pub AllLines : List Bytes → Type 0
AllLines [] = Unit
AllLines (r ∷ rs) = IsLine r × AllLines rs

split_lines-line :
    (r rest : Bytes)
    → IsLine r
    → split_lines (r ++ rest) ≡ (r ∷ (split_lines rest).0, (split_lines rest).1)
split_lines-line r rest l =
    subst (λ r. split_lines (r ++ rest) ≡ (r ∷ (split_lines rest).0, (split_lines rest).1))
      (sym l.whole)
      (ap split_lines (append_assoc l.body (b'\n' ∷ []) rest)
        ∙ split_lines-body l.body rest l.single)

-- Lines that are written one behind the other are read back as they were.
pub split_lines-joined_records :
    (rs : List Bytes) → AllLines rs → split_lines (joined_records rs) ≡ (rs, [])
unfolding split_lines
split_lines-joined_records [] h = refl
split_lines-joined_records (r ∷ rs) (l, h) =
    split_lines-line r (joined_records rs) l
    ∙ ap (λ q. (r ∷ q.0, q.1)) (split_lines-joined_records rs h)
