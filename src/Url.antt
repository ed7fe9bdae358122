-- ===== src/Url.antt =====
-- The `url` crate, which the program calls and does not contain: its type, the operations that the
-- program uses, and the laws of its two setters that the redaction of credentials relies on.
use codex_no.Base.{ℕ, ◌≡◌, Option, none, []}
pub mod Sample
use codex_no.Base.Text.{Text}

pub record UrlLib : Type 1 where
  pub Url : Type 0
  pub parse : Text → Option Url
  pub as_str : Url → Text
  pub scheme : Url → Text
  pub host_str : Url → Option Text
  pub port_or_known_default : Url → Option ℕ
  pub username : Url → Text
  pub password : Url → Option Text
  pub path : Url → Text
  pub query : Url → Option Text
  -- A setter that fails leaves the URL as it was, and the program ignores the failure.
  pub set_username : Text → Url → Url
  pub set_password : Option Text → Url → Url

-- A later write of the user name or of the password replaces the earlier one, the two do not
-- disturb each other, a part that is absent may be written as absent, and no other part of the URL
-- is changed.
pub record SetterLaws (U : UrlLib) : Type 0 where
  pub username_twice :
      (n m : Text) (u : U.Url) → U.set_username n (U.set_username m u) ≡ U.set_username n u
  pub password_twice :
      (p q : Option Text) (u : U.Url) → U.set_password p (U.set_password q u) ≡ U.set_password p u
  pub setters_commute :
      (n : Text) (p : Option Text) (u : U.Url)
      → U.set_username n (U.set_password p u) ≡ U.set_password p (U.set_username n u)
  pub no_username : (u : U.Url) → U.username u ≡ [] → U.set_username [] u ≡ u
  pub no_password : (u : U.Url) → U.password u ≡ none → U.set_password none u ≡ u
  pub username_scheme : (n : Text) (u : U.Url) → U.scheme (U.set_username n u) ≡ U.scheme u
  pub username_host : (n : Text) (u : U.Url) → U.host_str (U.set_username n u) ≡ U.host_str u
  pub username_port :
      (n : Text) (u : U.Url)
      → U.port_or_known_default (U.set_username n u) ≡ U.port_or_known_default u
  pub password_scheme : (p : Option Text) (u : U.Url) → U.scheme (U.set_password p u) ≡ U.scheme u
  pub password_host : (p : Option Text) (u : U.Url) → U.host_str (U.set_password p u) ≡ U.host_str u
  pub password_port :
      (p : Option Text) (u : U.Url)
      → U.port_or_known_default (U.set_password p u) ≡ U.port_or_known_default u
