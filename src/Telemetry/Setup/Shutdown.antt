-- ===== src/Telemetry/Setup/Shutdown.antt =====
-- The shutdown function calls everything once, in reverse order.
use make_mcp.Common.{◌≡◌, refl, sym, ap, ◌∙◌, Option, none, some, List, [], ◌∷◌, ◌++◌}
use mathlib.Core.List.{reverse, reverse-cons}
use make_mcp.Telemetry.Setup.{Closer, keep_first, shutdown}

-- The first error in the order of the calls.
abbrev pub first_error {ℓ} : {E : Type ℓ} → (Closer → Option E) → List Closer → Option E
first_error close [] = none
first_error close (fn ∷ fns) = keep_first (close fn) (first_error close fns)

module _ {ℓ} {E : Type ℓ} where
  keep_first-none : (o : Option E) → keep_first o none ≡ o
  keep_first-none none = refl
  keep_first-none (some e) = refl

  keep_first_assoc :
      (a b c : Option E) → keep_first (keep_first a b) c ≡ keep_first a (keep_first b c)
  keep_first_assoc none b c = refl
  keep_first_assoc (some e) b c = refl

module _ {ℓ} {E : Type ℓ} (close : Closer → Option E) where
  first_error-snoc :
      (fns : List Closer) (fn : Closer)
      → first_error close (fns ++ fn ∷ []) ≡ keep_first (first_error close fns) (close fn)
  first_error-snoc [] fn = keep_first-none (close fn)
  first_error-snoc (x ∷ fns) fn =
      ap (keep_first (close x)) (first_error-snoc fns fn)
      ∙ sym (keep_first_assoc (close x) (first_error close fns) (close fn))

  -- The shutdown function calls each function once, in the reverse of the order in which they were added, also
  -- where some of them fail, and returns the error of the first call that failed.
  pub shutdown-reverse :
      (fns : List Closer) → shutdown close fns ≡ (reverse fns, first_error close (reverse fns))
  unfolding shutdown
  shutdown-reverse [] = refl
  shutdown-reverse (fn ∷ fns) =
      ap (λ r. (r.0 ++ fn ∷ [], keep_first r.1 (close fn))) (shutdown-reverse fns)
      ∙ ap (λ e. (reverse fns ++ fn ∷ [], e)) (sym (first_error-snoc (reverse fns) fn))
      ∙ ap (λ l. (l, first_error close l)) (sym (reverse-cons fn fns))
