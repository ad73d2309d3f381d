-- ===== src/Auth/Tokens/Memory.antt =====
-- An instance of `Jws`: a token is the text of its parts, each ended by a unit of its own.
use negare_api.Base.{
  ℕ, ◌+◌, ◌-◌, ◌<◌, ◌≡◌, refl, ap, ◌∙◌, Bool, true, false, ◌&&◌, ◌||◌, not, List, [], ◌∷◌, map,
  Option, none, some, String, same, same_refl, if◌then◌else◌, ltb, ◌==◌, arith, all,
}
use negare_api.Base.Text.{Text, codes, to_string, is_space, onto_first}
use negare_api.Base.Chars.{to_string-codes}
use negare_api.Auth.Tokens.{Jws, Claims, RoleClaim, SignOptions, VerifyOptions, meets, is_plain}

-- A part, shifted above all other units.
unfoldable shift : Text → Text → Text
shift [] rest = 1 ∷ rest
shift (c ∷ t) rest = (70_000 + c) ∷ shift t rest

unfoldable frame : List Text → Text
frame [] = []
frame (t ∷ ts) = shift t (frame ts)

unfoldable unframe : Text → List Text
unframe [] = []
unframe (c ∷ t) = let rest = unframe t in if c == 1 then [] ∷ rest else onto_first (c - 70_000) rest

unframe-shift : (t rest : Text) → unframe (shift t rest) ≡ t ∷ unframe rest
unfolding shift unframe
unframe-shift [] rest = refl
unframe-shift (c ∷ t) rest =
    let high : (70_000 + c == 1) ≡ false = ground arith in
    let back : 70_000 + c - 70_000 ≡ c = omega arith in rw (high, unframe-shift t rest, back) refl

unframe-frame : (ts : List Text) → unframe (frame ts) ≡ ts
unfolding frame unframe
unframe-frame [] = refl
unframe-frame (t ∷ ts) = unframe-shift t (frame ts) ∙ rw (unframe-frame ts) refl

record Signed : Type 0 where
  secret : String
  expires_at : ℕ
  issuer : Option String
  audience : Option String
  claims : Claims

abbrev write_option : Option String → Text
write_option none = []
write_option (some s) = 0 ∷ codes s

abbrev read_option : Text → Option String
read_option [] = none
read_option (c ∷ t) = some (to_string t)

read-write_option : (o : Option String) → read_option (write_option o) ≡ o
read-write_option none = refl
read-write_option (some s) = ap some (to_string-codes s)

abbrev write_role : RoleClaim → Text
write_role (RoleClaim.name r) = 0 ∷ codes r
write_role (RoleClaim.other s) = 1 ∷ codes s

abbrev read_role : Text → RoleClaim
read_role [] = RoleClaim.other ""
read_role (c ∷ t) = if c == 0 then RoleClaim.name (to_string t) else RoleClaim.other (to_string t)

read-write_role : (r : RoleClaim) → read_role (write_role r) ≡ r
read-write_role (RoleClaim.name r) = ap RoleClaim.name (to_string-codes r)
read-write_role (RoleClaim.other s) = ap RoleClaim.other (to_string-codes s)

abbrev write_roles : Option (List RoleClaim) → List Text
write_roles none = []
write_roles (some rs) = [] ∷ map write_role rs

abbrev read_roles : List Text → Option (List RoleClaim)
read_roles [] = none
read_roles (t ∷ ts) = some (map read_role ts)

read-write_names : (rs : List RoleClaim) → map read_role (map write_role rs) ≡ rs
read-write_names [] = refl
read-write_names (r ∷ rs) = rw (read-write_role r, read-write_names rs) refl

read-write_roles : (o : Option (List RoleClaim)) → read_roles (write_roles o) ≡ o
read-write_roles none = refl
read-write_roles (some rs) = ap some (read-write_names rs)

abbrev write : Signed → List Text
write s =
    codes s.secret
    ∷ (s.expires_at ∷ [])
    ∷ write_option s.issuer
    ∷ write_option s.audience
    ∷ codes s.claims.sub
    ∷ codes s.claims.sid
    ∷ codes s.claims.jti
    ∷ codes s.claims.typ
    ∷ write_option s.claims.username
    ∷ write_roles s.claims.roles

abbrev read : List Text → Option Signed
read (secret ∷ (e ∷ []) ∷ i ∷ a ∷ sub ∷ sid ∷ jti ∷ typ ∷ u ∷ roles) = some (record {
  secret = to_string secret;
  expires_at = e;
  issuer = read_option i;
  audience = read_option a;
  claims = record {
    sub = to_string sub;
    sid = to_string sid;
    jti = to_string jti;
    typ = to_string typ;
    username = read_option u;
    roles = read_roles roles;
  };
})
read _ = none

read-write : (s : Signed) → read (write s) ≡ some s
read-write s =
    rw
      (
        to_string-codes s.secret,
        to_string-codes s.claims.sub,
        to_string-codes s.claims.sid,
        to_string-codes s.claims.jti,
        to_string-codes s.claims.typ,
        read-write_option s.issuer,
        read-write_option s.audience,
        read-write_option s.claims.username,
        read-write_roles s.claims.roles,
      )
      refl

high_letter : (c : ℕ) → is_space (70_000 + c) ≡ false
high_letter c = ground arith

shift_plain :
    (t rest : Text)
    → all (λ d. not (is_space d)) rest ≡ true
    → all (λ d. not (is_space d)) (shift t rest) ≡ true
unfolding shift
shift_plain [] rest h = h
shift_plain (c ∷ t) rest h = rw (high_letter c) (shift_plain t rest h)

frame_plain : (ts : List Text) → all (λ d. not (is_space d)) (frame ts) ≡ true
unfolding frame
frame_plain [] = refl
frame_plain (t ∷ ts) = shift_plain t (frame ts) (frame_plain ts)

shift_filled :
    (t rest : Text)
    → all (λ d. not (is_space d)) (shift t rest) ≡ true
    → is_plain (shift t rest) ≡ true
unfolding shift
shift_filled [] rest h = h
shift_filled (c ∷ t) rest h = h

frame_filled :
    (t : Text) (ts : List Text)
    → all (λ d. not (is_space d)) (frame (t ∷ ts)) ≡ true
    → is_plain (frame (t ∷ ts)) ≡ true
unfolding frame
frame_filled t ts h = shift_filled t (frame ts) h

abbrev sign : (now : ℕ) → (secret : String) → SignOptions → Claims → Signed
sign now secret s c = record {
  secret = secret;
  expires_at = now + s.expires_in;
  issuer = s.issuer;
  audience = s.audience;
  claims = c;
}

abbrev good : (now : ℕ) → (secret : String) → VerifyOptions → Signed → Bool
good now secret o s =
    same secret s.secret
    && (o.ignore_expiration || ltb now (s.expires_at + o.clock_tolerance))
    && (meets o.issuer s.issuer && meets o.audience s.audience)

abbrev opened : (now : ℕ) → (secret : String) → VerifyOptions → Option Signed → Option Claims
opened now secret o none = none
opened now secret o (some s) = if good now secret o s then some s.claims else none

good_signed :
    (now later : ℕ) (secret : String) (s : SignOptions) (o : VerifyOptions) (c : Claims)
    → later < now + s.expires_in + o.clock_tolerance
    → (meets o.issuer s.issuer && meets o.audience s.audience) ≡ true
    → good later secret o (sign now secret s c) ≡ true
good_signed now later secret s o c alive met =
    let early : ltb later (now + s.expires_in + o.clock_tolerance) ≡ true = ground arith in
    rw (same_refl secret, early, met) (any_way o.ignore_expiration)
  where
    any_way : (b : Bool) → ((b || true) && true) ≡ true
    any_way true = refl
    any_way false = refl

pub jws : Jws
jws = record {
  sign = λ now secret s c. frame (write (sign now secret s c));
  verify = λ now secret o token. opened now secret o (read (unframe token));
  verify-sign = λ now later secret s o c alive met.
      let signed = sign now secret s c in
      ap (opened later secret o) (ap read (unframe-frame (write signed)) ∙ read-write signed)
      ∙ rw (good_signed now later secret s o c alive met) refl;
  sign_plain = λ now secret s c.
      let made = write (sign now secret s c) in frame_filled (codes secret) _ (frame_plain made);
}
