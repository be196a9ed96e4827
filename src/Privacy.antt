-- ===== src/Privacy.antt =====
-- crates/panora-core/src/privacy.rs: whether a copy may be read, judged on what is offered. Texts
-- are lists of code points here.
pub mod Gate
mod Examples
pub mod Exclusions
pub mod Letters
pub mod Parts
use panora.Prelude.{
  ℕ, ◌+◌, Bool, true, false, not, ◌&&◌, ◌||◌, Option, none, some, List, [], ◌∷◌, ◌++◌, codes,
  length, map, any, ◌==◌, nat_eq, list_eq, ltb, leb, if◌then◌else◌, contains, drop_while,
}
use panora.Rosters.Names.{is_whitespace}

abbrev pub Chars : Type 0
Chars = List ℕ

abbrev pub secret_flag_mimes : List Chars
secret_flag_mimes =
    codes "x-kde-passwordmanagerhint"
    ∷ codes "application/x-kde-passwordmanagerhint"
    ∷ codes "org.nspasteboard.concealedtype"
    ∷ codes "application/x-nspasteboard-concealed-type"
    ∷ codes "application/x-qt-windows-mime;value=\"clipboard viewer ignore\""
    ∷ []

abbrev pub secret_mime_markers : List Chars
secret_mime_markers =
    codes "passwordmanagerhint" ∷ codes "concealedtype" ∷ codes "clipboard viewer ignore" ∷ []

abbrev pub max_offered_mimes : ℕ
max_offered_mimes = 128

abbrev pub max_mime_len : ℕ
max_mime_len = 256

abbrev pub max_source_app_len : ℕ
max_source_app_len = 256

abbrev pub default_excluded_apps : List Chars
default_excluded_apps =
    codes "keepassxc"
    ∷ codes "bitwarden"
    ∷ codes "1password"
    ∷ codes "org.keepassxc"
    ∷ codes "com.bitwarden"
    ∷ codes "secrets"
    ∷ []

pub data Verdict : Type 0 where
  allow reject_secret_flag reject_excluded_app reject_window_title : Verdict
  reject_private_mode reject_malformed_metadata reject_filter reject_sensitive : Verdict

-- `char::len_utf8`, and `str::len`.
abbrev pub len_utf8 : ℕ → ℕ
len_utf8 c = if ltb c 128 then 1 else if ltb c 2048 then 2 else if ltb c 65536 then 3 else 4

unfoldable pub len : Chars → ℕ
len [] = 0
len (c ∷ cs) = len_utf8 c + len cs

abbrev pub to_lower : ℕ → ℕ
to_lower c = if leb 65 c && leb c 90 then c + 32 else c

-- `str::to_ascii_lowercase`.
abbrev pub lowercase : Chars → Chars
lowercase cs = map to_lower cs

abbrev pub is_empty : Chars → Bool
is_empty [] = true
is_empty (c ∷ cs) = false

-- `str::trim_end`, and `str::trim`.
unfoldable pub trim_end : Chars → Chars
trim_end [] = []
trim_end (c ∷ cs) =
    let rest = trim_end cs in if is_empty rest && is_whitespace c then [] else c ∷ rest

unfoldable pub trim : Chars → Chars
unfolding trim_end
trim cs = trim_end (drop_while is_whitespace cs)

-- `str::starts_with` and `str::contains`.
unfoldable pub has_prefix : Chars → Chars → Bool
has_prefix cs [] = true
has_prefix [] (p ∷ ps) = false
has_prefix (c ∷ cs) (p ∷ ps) = c == p && has_prefix cs ps

unfoldable pub has_part : Chars → Chars → Bool
unfolding has_prefix
has_part [] part = has_prefix [] part
has_part (c ∷ cs) part = has_prefix (c ∷ cs) part || has_part cs part

-- The lower case of a character is that of the standard library.
abbrev fold : (ℕ → Chars) → ℕ → Chars
fold to_lowercase c = if c == 73 then 305 ∷ [] else if c == 304 then 105 ∷ [] else to_lowercase c

unfoldable pub title_fold : (ℕ → Chars) → Chars → Chars
title_fold to_lowercase [] = []
title_fold to_lowercase (c ∷ cs) = fold to_lowercase c ++ title_fold to_lowercase cs

pub record PrivacyEngine : Type 0 where
  pub excluded_apps : List Chars
  pub private_mode : Bool
  pub excluded_titles : List Chars

-- The loop of `new` over the user's entries.
unfoldable pub exclude : List Chars → List Chars → List Chars
unfolding trim
exclude excluded [] = excluded
exclude excluded (app ∷ apps) =
    let a = lowercase (trim app) in
    let excluded' =
      if not (is_empty a) && not (contains excluded a) then excluded ++ a ∷ [] else excluded in
    exclude excluded' apps

unfoldable pub new : List Chars → PrivacyEngine
unfolding exclude
new user_excluded = record {
  excluded_apps = exclude (map lowercase default_excluded_apps) user_excluded;
  private_mode = false;
  excluded_titles = [];
}

abbrev folded : (ℕ → Chars) → List Chars → List Chars
folded to_lowercase [] = []
folded to_lowercase (t ∷ ts) =
    let rest = folded to_lowercase ts in
    let phrase = title_fold to_lowercase (trim t) in if is_empty phrase then rest else phrase ∷ rest

unfoldable pub with_excluded_titles : (ℕ → Chars) → List Chars → PrivacyEngine → PrivacyEngine
with_excluded_titles to_lowercase titles e = record e {
  excluded_titles = folded to_lowercase titles;
}

unfoldable pub evaluate_title : (ℕ → Chars) → PrivacyEngine → Option Chars → Verdict
unfolding title_fold has_part
evaluate_title to_lowercase e none = allow
evaluate_title to_lowercase e (some title) =
    if any (has_part (title_fold to_lowercase title)) e.excluded_titles
    then reject_window_title
    else allow

unfoldable pub set_private_mode : Bool → PrivacyEngine → PrivacyEngine
set_private_mode on e = record e { private_mode = on }

abbrev pub is_flag : Chars → Chars → Bool
is_flag normalized flag = normalized == flag || has_prefix normalized (flag ++ codes ";")

unfoldable pub is_secret : Chars → Bool
unfolding trim has_prefix has_part
is_secret mime =
    let normalized = lowercase (trim mime) in
    any (is_flag normalized) secret_flag_mimes || any (has_part normalized) secret_mime_markers

unfoldable pub has_secret_flag : List Chars → Bool
unfolding is_secret
has_secret_flag offered_mimes = any is_secret offered_mimes

abbrev pub is_long_app : Option Chars → Bool
is_long_app none = false
is_long_app (some app) = ltb max_source_app_len (length app)

abbrev pub is_excluded : PrivacyEngine → Option Chars → Bool
is_excluded e none = false
is_excluded e (some app) = any (has_part (lowercase app)) e.excluded_apps

-- Of the data, the offered MIME types and the source application are read.
unfoldable pub evaluate : PrivacyEngine → List Chars → Option Chars → Verdict
unfolding len has_secret_flag has_part
evaluate e offered_mimes source_app =
    if e.private_mode
    then reject_private_mode
    else if ltb max_offered_mimes (length offered_mimes)
        || any (λ mime. ltb max_mime_len (len mime)) offered_mimes
        || is_long_app source_app
    then reject_malformed_metadata
    else if has_secret_flag offered_mimes
    then reject_secret_flag
    else if is_excluded e source_app
    then reject_excluded_app
    else allow
