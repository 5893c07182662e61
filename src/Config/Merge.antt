-- ===== src/Config/Merge.antt =====
-- `Merge` makes the configurations a monoid, so layering does not depend on how layers are grouped.
use make_mcp.Common.{zero, suc, ◌≡◌, refl, ap, Bool, true, false, List, [], ◌∷◌}
use make_mcp.Common.Outcome.{Outcome, ok, fail, ◌>>=◌}
use make_mcp.Text.{Text}
use make_mcp.Go.Strconv.{pos, negsuc}
use make_mcp.Config.{
  Config, ConfigFiles, ConfigError, Duration, override_list, override_bool, override_duration,
  merge, zero_config, default_config, load_config,
}

override_list_assoc {ℓ} :
    {A : Type ℓ} (a b c : List A)
    → override_list (override_list a b) c ≡ override_list a (override_list b c)
override_list_assoc a b [] = refl
override_list_assoc a b (x ∷ c) = refl

override_list-nil {ℓ} : {A : Type ℓ} (a : List A) → override_list [] a ≡ a
override_list-nil [] = refl
override_list-nil (x ∷ a) = refl

override_bool_assoc :
    (a b c : Bool) → override_bool (override_bool a b) c ≡ override_bool a (override_bool b c)
override_bool_assoc a b true = refl
override_bool_assoc a b false = refl

override_bool-false : (a : Bool) → override_bool false a ≡ a
override_bool-false true = refl
override_bool-false false = refl

override_duration_assoc :
    (a b c : Duration)
    → override_duration (override_duration a b) c ≡ override_duration a (override_duration b c)
override_duration_assoc a b (pos zero) = refl
override_duration_assoc a b (pos (suc n)) = refl
override_duration_assoc a b (negsuc n) = refl

override_duration-zero : (a : Duration) → override_duration (pos 0) a ≡ a
override_duration-zero (pos zero) = refl
override_duration-zero (pos (suc n)) = refl
override_duration-zero (negsuc n) = refl

-- Merging is associative, and the zero configuration is neutral on both sides: a chain of layers has
-- one meaning, in which each field is that of the last layer that sets it.
pub merge_monoid :
    (a b c : Config)
    → (merge (merge a b) c ≡ merge a (merge b c))
      × (merge a zero_config ≡ a)
      × (merge zero_config a ≡ a)
unfolding merge
merge_monoid a b c = (
  simp (override_list_assoc, override_bool_assoc, override_duration_assoc),
  refl,
  simp (override_list-nil, override_bool-false, override_duration-zero),
)

-- Loading the file with no flags and then merging the flags, as the reload does, is the same as
-- loading the file with the flags, as the start does; both fail alike where the file does.
pub load_config_reload :
    (files : ConfigFiles) (path : Text) (flags : Config)
    → (load_config files path zero_config >>= λ c. ok (merge c flags))
      ≡ load_config files path flags
unfolding load_config
load_config_reload files [] flags =
    ap (λ c. ok (merge c flags)) (merge_monoid default_config flags flags).1
load_config_reload files (c ∷ path) flags = go (files (c ∷ path))
  where
    go :
        (o : Outcome ConfigError Config)
        → ((o >>= λ f. ok (merge (merge default_config f) zero_config)) >>= λ c. ok (merge c flags))
          ≡ (o >>= λ f. ok (merge (merge default_config f) flags))
    go (ok f) = ap (λ c. ok (merge c flags)) (merge_monoid (merge default_config f) flags flags).1
    go (fail e) = refl
