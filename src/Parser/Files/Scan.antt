-- ===== src/Parser/Files/Scan.antt =====
-- The line scanner gives back the lines that were written.
use make_mcp.Common.{◌≡◌, refl, false, not, List, [], ◌∷◌, ◌++◌, arith, ◌==◌, All}
use make_mcp.Common.Spans.{AllPass}
use make_mcp.Text.{Text, split_at}
use make_mcp.Parser.Files.{drop_cr, is_too_long, scan_pieces, scan_lines}

-- Every line followed by a newline.
abbrev pub unlines : List Text → Text
unlines [] = []
unlines (l ∷ ls) = l ++ 10 ∷ unlines ls

-- A line that the scanner keeps: no newline in it, no carriage return behind it, and short.
pub record IsLine (l : Text) : Type 0 where
  pub no_newline : AllPass (λ c. not (c == 10)) l
  pub no_return : drop_cr l ≡ l
  pub short : is_too_long l ≡ false

split_at-line :
    (l s : Text)
    → AllPass (λ c. not (c == 10)) l
    → split_at 10 (l ++ 10 ∷ s) ≡ (l, (split_at 10 s).0 ∷ (split_at 10 s).1)
unfolding split_at
split_at-line [] s h = refl
split_at-line (c ∷ l) s h = ground (arith, split_at-line l s)

-- Lines with no newline, no carriage return at the end and fewer than 65536 bytes, each written with
-- a newline behind it, are scanned back as they are, with no error.
pub scan_lines-unlines : (ls : List Text) → All IsLine ls → scan_lines (unlines ls) ≡ (ls, false)
unfolding scan_lines scan_pieces
scan_lines-unlines [] h = unfold split_at in refl
scan_lines-unlines (l ∷ ls) h =
    ground (arith, split_at-line l (unlines ls) h.0.no_newline, scan_lines-unlines ls)
