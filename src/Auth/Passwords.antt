-- ===== src/Auth/Passwords.antt =====
-- `validLogin` and `validPassword` of internal/auth/service.go.
use test.Common.{
  ℕ, ◌≡◌, ◌∙◌, String, Bool, false, not, ◌&&◌, ◌||◌, List, [], ◌∷◌, arith, leb, length, any,
}
use test.Common.Text.{codes}
use test.Auth.{
  Crypto, Seen, see_char, see_all, valid_password, is_lower_char, is_upper_char, is_digit_char,
}

module _ (x : Crypto) where
  -- Neither an ASCII letter or digit nor a letter or digit of Unicode.
  abbrev pub is_special_char : ℕ → Bool
  is_special_char c =
      not (is_lower_char c)
      && not (is_upper_char c)
      && not (is_digit_char c)
      && not (x.is_letter c)
      && not (x.is_digit c)

  see_all_lem :
      (s : List ℕ) (seen : Seen)
      → see_all x s seen ≡ record {
        lower = seen.lower || any is_lower_char s;
        upper = seen.upper || any is_upper_char s;
        digit = seen.digit || any is_digit_char s;
        special = seen.special || any is_special_char s;
      }
  unfolding see_all see_char
  see_all_lem [] seen = ground arith
  see_all_lem (c ∷ s) seen = see_all_lem s (see_char x c seen) ∙ ground arith

  -- A password is valid exactly when it has at least eight characters, among them a Latin lower
  -- case letter, a Latin upper case letter, a decimal digit, and a character that is neither one
  -- of these nor any letter or digit of Unicode.
  pub valid_password_lem :
      (password : String)
      → valid_password x password ≡ (
          leb 8 (length (codes password))
          && any is_lower_char (codes password)
          && any is_upper_char (codes password)
          && any is_digit_char (codes password)
          && any is_special_char (codes password))
  unfolding valid_password
  valid_password_lem password =
      let seen =
        see_all_lem (codes password)
          (record { lower = false; upper = false; digit = false; special = false }) in
      ground (arith, seen)
