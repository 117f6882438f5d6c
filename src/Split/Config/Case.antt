-- ===== src/Split/Config/Case.antt =====
-- Matching of applications does not see the case of ASCII letters.
use jamm_vpn.Base.{ℕ, ◌≡◌, refl, ap, ◌∙◌, Option, none, some, [], ◌∷◌, arith}
use jamm_vpn.Base.Text.{Str, lower_byte, str_eq, to_ascii_lowercase, eq_ignore_ascii_case}
use jamm_vpn.Split.Config.{
  AppMatcher, ConnApp, is_separator, file_name_from, file_name, effective_name, is_some_like,
  matches,
}

lower_byte_idem : (c : ℕ) → lower_byte (lower_byte c) ≡ lower_byte c
unfolding lower_byte
lower_byte_idem c = ground arith

pub lowercase_idem : (s : Str) → to_ascii_lowercase (to_ascii_lowercase s) ≡ to_ascii_lowercase s
unfolding to_ascii_lowercase
lowercase_idem [] = refl
lowercase_idem (c ∷ s) = cc (lower_byte_idem c, lowercase_idem s)

separator-lower : (c : ℕ) → is_separator (lower_byte c) ≡ is_separator c
unfolding is_separator lower_byte
separator-lower c = ground arith

abbrev lower_option : Option Str → Option Str
lower_option none = none
lower_option (some s) = some (to_ascii_lowercase s)

file_name_from-lower :
    (s : Str) → file_name_from (to_ascii_lowercase s) ≡ lower_option (file_name_from s)
unfolding file_name_from to_ascii_lowercase
file_name_from-lower [] = refl
file_name_from-lower (c ∷ s) = ground (arith, file_name_from-lower s, separator-lower c)

file_name-lower : (s : Str) → file_name (to_ascii_lowercase s) ≡ to_ascii_lowercase (file_name s)
unfolding file_name
file_name-lower s = ground (arith, file_name_from-lower s)

-- The same process, its path and name written in lower case.
abbrev pub lower_app : ConnApp → ConnApp
lower_app app = record {
  exe_path = lower_option app.exe_path;
  process_name = lower_option app.process_name;
}

abbrev pub lower_matcher : AppMatcher → AppMatcher
lower_matcher (AppMatcher.exe_path p) = AppMatcher.exe_path (to_ascii_lowercase p)
lower_matcher (AppMatcher.process_name n) = AppMatcher.process_name (to_ascii_lowercase n)

eq_ignore-lower :
    (s t : Str) → eq_ignore_ascii_case (to_ascii_lowercase s) t ≡ eq_ignore_ascii_case s t
unfolding eq_ignore_ascii_case
eq_ignore-lower s t = ap (λ (u : Str). str_eq u (to_ascii_lowercase t)) (lowercase_idem s)

is_some_like-lower : (s : Str) (o : Option Str) → is_some_like s (lower_option o) ≡ is_some_like s o
unfolding is_some_like
is_some_like-lower s none = refl
is_some_like-lower s (some x) = eq_ignore-lower x s

effective_name-lower :
    (app : ConnApp) → effective_name (lower_app app) ≡ lower_option (effective_name app)
unfolding effective_name
effective_name-lower app = named app.process_name app.exe_path
  where
    named :
        (n p : Option Str)
        → effective_name (lower_app (record { exe_path = p; process_name = n }))
          ≡ lower_option (effective_name (record { exe_path = p; process_name = n }))
    named (some n) p = refl
    named none none = refl
    named none (some p) = ap some (file_name-lower p)

like-lower : (s : Str) (o : Option Str) → is_some_like (to_ascii_lowercase s) o ≡ is_some_like s o
unfolding is_some_like eq_ignore_ascii_case
like-lower s none = refl
like-lower s (some x) = ap (str_eq (to_ascii_lowercase x)) (lowercase_idem s)

-- Whatever the case in which the system spells a process's path and name, and in which the user
-- spells the matcher, the matcher gives the same answer.
pub matches-lower_app :
    (m : AppMatcher) (app : ConnApp)
    → (matches m (lower_app app) ≡ matches m app) × (matches (lower_matcher m) app ≡ matches m app)
unfolding matches
matches-lower_app (AppMatcher.exe_path p) app =
    (is_some_like-lower p app.exe_path, like-lower p app.exe_path)
matches-lower_app (AppMatcher.process_name n) app = (
  ap (is_some_like n) (effective_name-lower app) ∙ is_some_like-lower n (effective_name app),
  like-lower n (effective_name app),
)
