-- ===== src/Policy/Network/Scope.antt =====
-- What a URL scope of src/traceguard/policy/network.py lets through.
use Prim.Native.String.{◌++◌}
use text.Mathlib.Text.{starts_with}
use text.Mathlib.TextBridge.{IsPrefix}
use text.Mathlib.TextEquality.{starts_with_iff}
use trace_guard.Common.{
  String, ◌≡◌, ◌≢◌, refl, Bool, true, false, ◌&&◌, ◌||◌, ◌==◌, any, eqb, Result, ok, err, arith,
  eq_iff, ◌⊎◌, inl, inr, Bool-cases, Option-cases, ==→eq, eqb→eq, sym,
}
use trace_guard.Policy.Network.{
  has_encoded_alias, UrlLibrary, SplitUrl, Destination, segments, is_dot_segment, strip_slashes,
  build, check_host, check_parts, destination, both, covers, target_within_scope, or_text,
}

-- The path of a destination has no alias of another path: no encoded separator or dot, and no dot
-- segment once it is decoded.
pub record IsPlain (lib : UrlLibrary) (d : Destination) : Type 0 where
  pub nonempty : d.path ≢ ""
  pub no_alias : has_encoded_alias d.path ≡ false
  pub no_dots : any is_dot_segment (segments (lib.unquote d.path)) ≡ false
  pub web : (d.scheme == "http" || d.scheme == "https") ≡ true

slash_ne : or_text "" "/" ≢ ""
slash_ne e = cc

==-ne : (s : String) → (s == "") ≡ false → s ≢ ""
==-ne s h e = ground (arith, eq_iff s "")

or_text-ne : (s : String) → or_text s "/" ≢ ""
or_text-ne s e = elim (Bool-cases (s == "")) [
  | inl empty ↦ slash_ne (rw empty at e)
  | inr full ↦ absurd (==-ne s full (rw full at e))
]

and_five :
    (p q r s t : Bool)
    → (p && q && r && s && t) ≡ true
    → (p ≡ true) × (q ≡ true) × (r ≡ true) × (s ≡ true) × (t ≡ true)
and_five p q r s t h = ground arith

or-cases : (p q : Bool) → (p || q) ≡ true → (p ≡ true) ⊎ (q ≡ true)
or-cases true q h = inl refl
or-cases false q h = inr h

path_below :
    (p q : String)
    → (q == p || starts_with q (strip_slashes p ++ "/")) ≡ true
    → (q ≡ p) ⊎ IsPrefix (strip_slashes p ++ "/") q
path_below p q h = elim (or-cases (q == p) (starts_with q (strip_slashes p ++ "/")) h) [
  | inl e ↦ inl (==→eq q p e)
  | inr e ↦ inr ((starts_with_iff q (strip_slashes p ++ "/")).0 e)
]

covers_parts :
    (a b : Destination)
    → covers a b ≡ true
    → (a.scheme ≡ b.scheme)
      × (a.host ≡ b.host)
      × (a.port ≡ b.port)
      × (a.query ≡ b.query)
      × ((b.path ≡ a.path) ⊎ IsPrefix (strip_slashes a.path ++ "/") b.path)
unfolding covers
covers_parts a b h =
    let (s, t, p, path, q) =
      and_five (a.scheme == b.scheme) (a.host == b.host) (eqb a.port b.port)
        (b.path == a.path || starts_with b.path (strip_slashes a.path ++ "/")) (b.query == a.query)
        h in
    (
      ==→eq a.scheme b.scheme s,
      ==→eq a.host b.host t,
      eqb→eq a.port b.port p,
      sym (==→eq b.query a.query q),
      path_below a.path b.path path,
    )

module _ (lib : UrlLibrary) where
  build-IsPlain :
      (parsed : SplitUrl) (host : String) (d : Destination)
      → (parsed.scheme == "http" || parsed.scheme == "https") ≡ true
      → build lib parsed host ≡ ok d
      → IsPlain lib d
  unfolding build
  build-IsPlain parsed host d w h =
      elim (Bool-cases (has_encoded_alias (or_text parsed.path "/"))) [
        | inl bad ↦ cc (rw bad at h)
        | inr a ↦
            elim (Bool-cases
              (any is_dot_segment (segments (lib.unquote (or_text parsed.path "/"))))) [
                | inl bad ↦ cc (rw (a, bad) at h)
                | inr n ↦
                    (let e = rw (a, n) at h in
                      let path : or_text parsed.path "/" ≡ d.path = cc e in
                      let scheme : parsed.scheme ≡ d.scheme = cc e in
                      record {
                        nonempty = rw (← path) (or_text-ne parsed.path);
                        no_alias = rw (← path) a;
                        no_dots = rw (← path) n;
                        web = rw (← scheme) w;
                      })
              ]
      ]

  check_host-IsPlain :
      (parsed : SplitUrl) (host : String) (d : Destination)
      → (parsed.scheme == "http" || parsed.scheme == "https") ≡ true
      → check_host lib parsed host ≡ ok d
      → IsPlain lib d
  unfolding check_host
  check_host-IsPlain parsed host d w h = ground (arith, build-IsPlain parsed host d w)

  check_parts-IsPlain :
      (parsed : SplitUrl) (d : Destination) → check_parts lib parsed ≡ ok d → IsPlain lib d
  unfolding check_parts
  check_parts-IsPlain parsed d h = elim (Option-cases parsed.hostname) [
    | inl missing ↦ ground arith
    | inr (host, e) ↦ elim (Option-cases (lib.idna host)) [
      | inl failed ↦ ground arith
      | inr (encoded, f) ↦ ground (arith, check_host-IsPlain parsed encoded d)
    ]
  ]

  destination-IsPlain :
      (url : String) (d : Destination) → destination lib url ≡ ok d → IsPlain lib d
  unfolding destination
  destination-IsPlain url d h = elim (Option-cases (lib.urlsplit url)) [
    | inl failed ↦ ground arith
    | inr (parsed, e) ↦ ground (arith, check_parts-IsPlain parsed d)
  ]

  -- A scope authorises a target only if both are destinations, they have one scheme, host, port and
  -- query, and the target's path is the scope's path or goes on below it after a slash. Both paths
  -- are free of encoded aliases and, decoded, of dot segments.
  pub scope_confines :
      (scope target : String)
      → target_within_scope lib scope target ≡ true
      → (a : Destination) × (b : Destination) × (destination lib scope ≡ ok a)
        × (destination lib target ≡ ok b)
        × IsPlain lib a
        × IsPlain lib b
        × (a.scheme ≡ b.scheme)
        × (a.host ≡ b.host)
        × (a.port ≡ b.port)
        × (a.query ≡ b.query)
        × ((b.path ≡ a.path) ⊎ IsPrefix (strip_slashes a.path ++ "/") b.path)
  unfolding target_within_scope
  scope_confines scope target h =
      by_results (destination lib scope) (destination lib target) refl refl h
    where
      by_results :
          (x y : Result Destination)
          → destination lib scope ≡ x
          → destination lib target ≡ y
          → both x y ≡ true
          → (a : Destination) × (b : Destination) × (destination lib scope ≡ ok a)
            × (destination lib target ≡ ok b)
            × IsPlain lib a
            × IsPlain lib b
            × (a.scheme ≡ b.scheme)
            × (a.host ≡ b.host)
            × (a.port ≡ b.port)
            × (a.query ≡ b.query)
            × ((b.path ≡ a.path) ⊎ IsPrefix (strip_slashes a.path ++ "/") b.path)
      by_results (ok a) (ok b) e f g =
          let (s, h, p, q, path) = covers_parts a b g in
          (
            a,
            b,
            e,
            f,
            destination-IsPlain scope a e,
            destination-IsPlain target b f,
            s,
            h,
            p,
            q,
            path,
          )
      by_results (err x) y e f g = cc
      by_results (ok a) (err x) e f g = cc
