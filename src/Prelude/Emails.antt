-- ===== src/Prelude/Emails.antt =====
-- internal/infra/utils/email.go. The regular expression is `^[a-zA-Z0-9._%+-]+@[a-zA-Z0-9.-]+\.[a-zA-Z]{2,}$`;
-- `match_local` and `match_domain` try its continuations at each character, with `seen` telling
-- whether the repeated class has matched one already.
use Prim.Native.Nat.{ℕ}
use Prim.Native.Char.{Char, code}
use Prim.Native.String.{String, [], ◌∷◌}
use mathlib.Core.Path.{◌≡◌, refl}
use mathlib.Core.Bool.{Bool, true, false, ◌||◌, ◌&&◌}
use zensor_server.Prelude.Tests.{nat_beq, leb, ◌==◌, string_eq, if◌then◌else◌}
use zensor_server.Prelude.Errors.{
  Result, ok, err, wrap, sentinel, is_ok, email_cannot_be_empty, invalid_email_format,
}

abbrev within : ℕ → ℕ → ℕ → Bool
within low high n = leb low n && leb n high

-- `[a-zA-Z]`
abbrev pub is_letter : Char → Bool
is_letter c = let n = code c in within 97 122 n || within 65 90 n

-- `[a-zA-Z0-9.-]`
abbrev pub is_domain_char : Char → Bool
is_domain_char c = let n = code c in is_letter c || within 48 57 n || nat_beq n 46 || nat_beq n 45

-- `[a-zA-Z0-9._%+-]`
abbrev pub is_local_char : Char → Bool
is_local_char c = let n = code c in is_domain_char c || nat_beq n 95 || nat_beq n 37 || nat_beq n 43

abbrev pub all_letters : String → Bool
all_letters [] = true
all_letters (c ∷ s) = let rest = all_letters s in is_letter c && rest

-- `[a-zA-Z]{2,}$`
abbrev pub match_tld : String → Bool
match_tld [] = false
match_tld (c ∷ []) = false
match_tld (c ∷ d ∷ s) = is_letter c && is_letter d && all_letters s

abbrev pub match_domain : Bool → String → Bool
match_domain seen [] = false
match_domain seen (c ∷ s) =
    let rest = match_domain true s in
    (seen && nat_beq (code c) 46 && match_tld s) || (is_domain_char c && rest)

abbrev pub match_local : Bool → String → Bool
match_local seen [] = false
match_local seen (c ∷ s) =
    let rest = match_local true s in
    (seen && nat_beq (code c) 64 && match_domain false s) || (is_local_char c && rest)

unfoldable pub validate_email : String → Result (Unit {0})
validate_email email =
    if email == ""
    then err (sentinel email_cannot_be_empty)
    else if match_local false email
    then ok tt
    else err (wrap "invalid email format" (sentinel invalid_email_format))

abbrev pub is_valid_email : String → Bool
is_valid_email email = is_ok (validate_email email)

accepts : is_valid_email "ann.b+x@mail.example.com" ≡ true
unfolding validate_email
accepts = refl

refuses_no_dot : is_valid_email "ann@localhost" ≡ false
unfolding validate_email
refuses_no_dot = refl
