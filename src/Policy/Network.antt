-- ===== src/Policy/Network.antt =====
-- `destination` and `target_within_scope` of src/traceguard/policy/network.py. What Python's URL,
-- IDNA and address libraries and the larger regular expressions answer is given by a `UrlLibrary`.
pub mod Scope
use Prim.Native.Char.{code}
use Prim.Native.String.{◌++◌}
use text.Mathlib.Text.{starts_with}
use trace_guard.Common.{
  ℕ, String, Bool, true, false, ◌&&◌, ◌||◌, not, Option, none, some, List, [], ◌∷◌, ◌==◌, any, leb,
  eqb, if◌then◌else◌, is_some, Result, ok, err, value_error,
}

-- The result of `urlsplit`.
pub record SplitUrl : Type 0 where
  pub scheme : String
  pub hostname : Option String
  pub port : Option ℕ
  pub username : Option String
  pub password : Option String
  pub path : String
  pub query : String
  pub fragment : String

pub record UrlLibrary : Type 0 where
  -- `none` where Python raises `ValueError`
  pub urlsplit : String → Option SplitUrl
  -- `host.encode("idna").decode("ascii").lower()`, `none` where it raises `UnicodeError`
  pub idna : String → Option String
  -- `ipaddress.IPv6Address(host)` does not raise
  pub is_ipv6 : String → Bool
  -- `[a-z0-9-]+(?:\.[a-z0-9-]+)*`
  pub is_hostname : String → Bool
  pub unquote : String → String

pub record Destination : Type 0 where
  pub scheme : String
  pub host : String
  pub port : ℕ
  pub path : String
  pub query : String

-- A text has a character with such a code.
abbrev pub has_code : (ℕ → Bool) → String → Bool
has_code p String.[] = false
has_code p (String.◌∷◌ c s) = p (code c) || has_code p s

-- `[\x00-\x20\x7f\\]`
abbrev pub is_forbidden : ℕ → Bool
is_forbidden c = leb c 32 || eqb c 127 || eqb c 92

abbrev pub ends_with : ℕ → String → Bool
ends_with n String.[] = false
ends_with n (String.◌∷◌ c s) = if s == "" then eqb (code c) n else ends_with n s

-- Puts a character at the front of the first segment.
abbrev attach : (String → String) → List String → List String
attach f [] = f "" ∷ []
attach f (s ∷ rest) = f s ∷ rest

-- `path.split("/")`
abbrev pub segments : String → List String
segments String.[] = "" ∷ []
segments (String.◌∷◌ c s) =
    let rest = segments s in
    if eqb (code c) b'/' then "" ∷ rest else attach (λ t. String.◌∷◌ c t) rest

-- `path.rstrip("/")`
abbrev pub strip_slashes : String → String
strip_slashes String.[] = ""
strip_slashes (String.◌∷◌ c s) =
    let rest = strip_slashes s in if eqb (code c) b'/' && rest == "" then "" else String.◌∷◌ c rest

abbrev pub is_dot_segment : String → Bool
is_dot_segment s = s == "." || s == ".."

-- `[0-9a-f]`, in any case
abbrev pub is_hex : ℕ → Bool
is_hex c = leb 48 c && leb c 57 || leb 65 c && leb c 70 || leb 97 c && leb c 102

-- `2e|2f|5c|25`, in any case
abbrev pub is_alias_pair : ℕ → ℕ → Bool
is_alias_pair a b =
    eqb a b'2' && (eqb b b'e' || eqb b b'E' || eqb b b'f' || eqb b b'F' || eqb b b'5')
    || eqb a b'5' && (eqb b b'c' || eqb b b'C')

-- What follows a percent sign is one of the pairs, or no two hexadecimal digits.
abbrev pub is_alias_rest : String → Bool
is_alias_rest (String.◌∷◌ a (String.◌∷◌ b s)) =
    is_alias_pair (code a) (code b) || not (is_hex (code a) && is_hex (code b))
is_alias_rest _ = true

-- `re.search(r"%(?:2e|2f|5c|25)|%(?![0-9a-f]{2})", path, re.I)`
abbrev pub has_encoded_alias : String → Bool
has_encoded_alias String.[] = false
has_encoded_alias (String.◌∷◌ c s) = eqb (code c) b'%' && is_alias_rest s || has_encoded_alias s

abbrev pub or_text : String → String → String
or_text s d = if s == "" then d else s

abbrev pub default_port : String → ℕ
default_port scheme = if scheme == "https" then 443 else 80

-- `port or (443 if … else 80)`; port zero has been refused.
abbrev pub port_of : Option ℕ → String → ℕ
port_of none scheme = default_port scheme
port_of (some p) scheme = if eqb p 0 then default_port scheme else p

abbrev pub is_port_zero : Option ℕ → Bool
is_port_zero none = false
is_port_zero (some p) = eqb p 0

abbrev unsafe {ℓ} : {A : Type ℓ} → String → Result A
unsafe message = err (value_error message)

-- The comparison of the scope's destination with the target's.
unfoldable pub covers : Destination → Destination → Bool
covers allowed proposed =
    allowed.scheme == proposed.scheme
    && allowed.host == proposed.host
    && eqb allowed.port proposed.port
    && (proposed.path == allowed.path
        || starts_with proposed.path (strip_slashes allowed.path ++ "/"))
    && proposed.query == allowed.query

abbrev pub both : Result Destination → Result Destination → Bool
both (ok allowed) (ok proposed) = covers allowed proposed
both _ _ = false

module _ (lib : UrlLibrary) where
  open lib use {urlsplit, idna, is_ipv6, is_hostname, unquote}

  -- The tests on the path, and the result.
  unfoldable pub build : SplitUrl → String → Result Destination
  build parsed host =
      let path = or_text parsed.path "/" in
      if has_encoded_alias path
      then unsafe "encoded path alias"
      else if any is_dot_segment (segments (unquote path))
      then unsafe "dot path segments"
      else ok (record {
        scheme = parsed.scheme;
        host = host;
        port = port_of parsed.port parsed.scheme;
        path = path;
        query = parsed.query;
      })

  -- The tests on the encoded host.
  unfoldable pub check_host : SplitUrl → String → Result Destination
  check_host parsed host =
      if has_code (λ c. eqb c b':') host
      then if is_ipv6 host then build parsed host else unsafe "invalid destination URL"
      else if is_hostname host
      then build parsed host
      else unsafe "invalid hostname"

  abbrev pub unsupported : SplitUrl → String → Bool
  unsupported parsed host =
      not (parsed.scheme == "http" || parsed.scheme == "https")
      || host == ""
      || is_some parsed.username
      || is_some parsed.password
      || not (parsed.fragment == "")
      || has_code (λ c. eqb c b'%') host
      || ends_with b'.' host

  unfoldable pub check_parts : SplitUrl → Result Destination
  check_parts parsed =
      if is_port_zero parsed.port
      then unsafe "port zero is not an executable destination"
      else elim parsed.hostname [
        | none ↦ unsafe "unsupported URL authority"
        | some host ↦
            if unsupported parsed host
            then unsafe "unsupported URL authority"
            else elim (idna host) [
              | none ↦ unsafe "invalid destination URL"
              | some encoded ↦ check_host parsed encoded
            ]
      ]

  -- `except (ValueError, UnicodeError)`, which an `UnsafeDestination` is too
  abbrev rewrap : Result Destination → Result Destination
  rewrap (ok d) = ok d
  rewrap (err e) = unsafe "invalid destination URL"

  unfoldable pub destination : String → Result Destination
  destination url =
      if has_code is_forbidden url then unsafe "invalid URL characters" else elim (urlsplit url) [
        | none ↦ unsafe "invalid destination URL"
        | some parsed ↦ rewrap (check_parts parsed)
      ]

  unfoldable pub target_within_scope : String → String → Bool
  target_within_scope scope target = both (destination scope) (destination target)
