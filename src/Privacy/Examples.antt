-- ===== src/Privacy/Examples.antt =====
-- Offers of a clipboard, and the theorems on them.
use panora.Prelude.{◌≡◌, ◌≢◌, refl, false, none, some, [], ◌∷◌, codes, map}
use panora.Privacy.{
  allow, reject_excluded_app, lowercase, new, set_private_mode, to_lower, evaluate, exclude, trim,
  trim_end, has_secret_flag, is_secret, has_prefix, has_part, len, with_excluded_titles,
  evaluate_title, title_fold,
}
use panora.Privacy.Gate.{evaluate-lowercase, evaluate-marked}
use panora.Privacy.Exclusions.{by_user, evaluate-new}

evaluate-marked_example :
    evaluate (new []) (codes "text/plain" ∷ codes " x-KDE-PasswordManagerHint" ∷ []) none ≢ allow
evaluate-marked_example =
    evaluate-marked (new []) (codes "text/plain" ∷ codes " x-KDE-PasswordManagerHint" ∷ []) none
      (codes " x-KDE-PasswordManagerHint") (codes "passwordmanagerhint") refl refl
      (record { before = codes " x-kde-"; after = []; whole = refl })

evaluate-new_example :
    evaluate
      (set_private_mode false (new (codes " MyBank " ∷ [])))
      (codes "text/plain" ∷ [])
      (some (codes "org.MYBANK.App"))
    ≢ allow
unfolding trim trim_end
evaluate-new_example =
    evaluate-new (codes " MyBank " ∷ []) (codes "text/plain" ∷ []) false (codes "org.MYBANK.App")
      (codes "mybank") (by_user (codes " MyBank ") refl refl)
      (record { before = codes "org."; after = codes ".app"; whole = refl })

test_allow :
    evaluate (new []) (codes "text/plain;charset=utf-8" ∷ []) (some (codes "firefox")) ≡ allow
unfolding evaluate new exclude has_secret_flag is_secret trim trim_end has_prefix has_part len
test_allow = refl

test_default :
    evaluate (new []) (codes "text/plain" ∷ []) (some (codes "1Password")) ≡ reject_excluded_app
unfolding evaluate new exclude has_secret_flag is_secret trim trim_end has_prefix has_part len
test_default = refl

evaluate-lowercase_example :
    evaluate
      (new [])
      (map lowercase (codes "Text/HTML" ∷ []))
      (some (lowercase (codes "Bitwarden")))
    ≡ evaluate (new []) (codes "Text/HTML" ∷ []) (some (codes "Bitwarden"))
evaluate-lowercase_example =
    evaluate-lowercase (new []) (codes "Text/HTML" ∷ []) (some (codes "Bitwarden"))

-- ASCII letters become lower case, but for I.
test_title :
    evaluate_title
      (λ c. to_lower c ∷ [])
      (with_excluded_titles (λ c. to_lower c ∷ []) (codes " Banking " ∷ []) (new []))
      (some (codes "My BANKING"))
    ≡ allow
unfolding evaluate_title with_excluded_titles title_fold trim trim_end has_prefix has_part
test_title = refl
