-- ===== src/Url/Sample.antt =====
-- A small stand-in for the `url` crate, to run the models on: `scheme://host:port`, with the user
-- name, the password, the path and the query as separate fields.
use codex_no.Base.{ℕ, refl, sym, ap, Option, none, some, [], ◌++◌, if◌then◌else◌, or_else}
use codex_no.Base.Text.{Text, codes, text_eq, split_once}
use codex_no.Url.{UrlLib, SetterLaws}
use codex_no.Proxy.Tunnel.{parse_u16}

pub record SampleUrl : Type 0 where
  pub scheme : Text
  pub user : Text
  pub secret : Option Text
  pub host : Text
  pub port : Option ℕ
  pub path : Text
  pub query : Option Text

abbrev pub plain : Text → Text → Option ℕ → SampleUrl
plain scheme host port = record {
  scheme = scheme;
  user = [];
  secret = none;
  host = host;
  port = port;
  path = codes "/";
  query = none;
}

abbrev pub with_port : Text → Option (Text × Text) → Text → SampleUrl
with_port scheme none rest = plain scheme rest none
with_port scheme (some (host, port)) rest = plain scheme host (parse_u16 port)

abbrev pub with_scheme : Option (Text × Text) → Option SampleUrl
with_scheme none = none
with_scheme (some (scheme, rest)) = some (with_port scheme (split_once (codes ":") rest) rest)

abbrev pub known_default : Text → Option ℕ
known_default scheme =
    if text_eq scheme (codes "http")
    then some 80
    else if text_eq scheme (codes "https")
    then some 443
    else none

abbrev pub port_of : SampleUrl → Option ℕ
port_of u = elim u.port [ some p ↦ some p | none ↦ known_default u.scheme ]

abbrev pub print_url : SampleUrl → Text
print_url u =
    u.scheme
    ++ (codes "://" ++ (u.user ++ (codes ":" ++ (or_else u.secret [] ++ (codes "@" ++ u.host)))))

abbrev pub sample_lib : UrlLib
sample_lib = record {
  Url = SampleUrl;
  parse = λ t. with_scheme (split_once (codes "://") t);
  as_str = print_url;
  scheme = λ u. u.scheme;
  host_str = λ u. some u.host;
  port_or_known_default = port_of;
  username = λ u. u.user;
  password = λ u. u.secret;
  path = λ u. u.path;
  query = λ u. u.query;
  set_username = λ n u. record u { user = n };
  set_password = λ p u. record u { secret = p };
}

pub sample_laws : SetterLaws sample_lib
sample_laws = record {
  username_twice = λ n m u. refl;
  password_twice = λ p q u. refl;
  setters_commute = λ n p u. refl;
  no_username = λ u e. ap (λ t. record u { user = t }) (sym e);
  no_password = λ u e. ap (λ t. record u { secret = t }) (sym e);
  username_scheme = λ n u. refl;
  username_host = λ n u. refl;
  username_port = λ n u. refl;
  password_scheme = λ p u. refl;
  password_host = λ p u. refl;
  password_port = λ p u. refl;
}
