-- ===== src/SignIn/Gate/Sound.antt =====
-- Who is let through to the pages: `_auth_check` of app/server.py.
use cert_generator.Prelude.{
  ◌≡◌, refl, subst, ◌∙◌, true, false, not, ◌&&◌, ◌⊎◌, inl, inr, Option, none, some, Text, arith,
  Bool-cases, if◌then◌else◌,
}
use cert_generator.Accounts.{User, get_user, session_user, verify_trusted_device}
use cert_generator.SignIn.{Library, Cookie, cleared, World, Moment, start_session, session_of}
use cert_generator.SignIn.Trust.{hash_token, auto_login_from_trust_cookie}
use cert_generator.SignIn.Gate.{
  Request, goes_on, is_public, is_safe_method, session_user_or_clear, has_user, signed_in_user,
  auth_check, verdict_of,
}

module _ (lib : Library) (now : Moment) (r : Request) (w : World) (c : Cookie) where
  -- the session is the user's, and no later than the last change that ends sessions
  pub record IsSession (user : User) (c' : Cookie) : Type 0 where
    pub name : Text
    pub named : c.user ≡ some name
    pub known : get_user name w.accounts ≡ some user
    pub current : user.session_version ≡ c.sv
    pub same : c' ≡ c

  -- the browser holds the token of a trusted device of a user who does not always want the password;
  -- the new session has not been confirmed by a password
  pub record IsTrusted (user : User) (c' : Cookie) : Type 0 where
    pub token : Text
    pub owner : User
    pub held : r.trust_token ≡ some token
    pub trusted : verify_trusted_device now.utc (hash_token lib token) w.accounts ≡ some owner
    pub wanted : owner.require_password ≡ false
    pub known : get_user owner.username w.accounts ≡ some user
    pub started : c' ≡ start_session user false now.time

  session_user-IsSession :
      (user : User) → session_user (session_of c) w.accounts ≡ some user → IsSession user c
  unfolding session_user
  session_user-IsSession user h = named_as c.user refl
    where
      known_as :
          (name : Text)
          → c.user ≡ some name
          → (o : Option User) → get_user name w.accounts ≡ o
          → IsSession user c
      known_as name e none k = ground (arith, h, e, k)
      known_as name e (some found) k = record {
        name = name;
        named = e;
        known = k ∙ ground (arith, h, e, k);
        current = ground (arith, h, e, k);
        same = refl;
      }

      named_as : (o : Option Text) → c.user ≡ o → IsSession user c
      named_as none e = ground (arith, h, e)
      named_as (some name) e = known_as name e (get_user name w.accounts) refl

  auto_login-IsTrusted :
      (c0 c' : Cookie) (user : User)
      → auto_login_from_trust_cookie lib now r.trust_token w c0 ≡ (some user, c')
      → IsTrusted user c'
  unfolding auto_login_from_trust_cookie
  auto_login-IsTrusted c0 c' user h = held_as r.trust_token refl
    where
      known_as :
          (token : Text) (owner : User)
          → r.trust_token ≡ some token
          → verify_trusted_device now.utc (hash_token lib token) w.accounts ≡ some owner
          → (o : Option User) → get_user owner.username w.accounts ≡ o
          → IsTrusted user c'
      known_as token owner e v none k = ground (arith, h, e, v, k)
      known_as token owner e v (some found) k = record {
        token = token;
        owner = owner;
        held = e;
        trusted = v;
        wanted = ground (arith, h, e, v, k);
        known = k ∙ ground (arith, h, e, v, k);
        started = ground (arith, h, e, v, k);
      }

      trusted_as :
          (token : Text)
          → r.trust_token ≡ some token
          → (o : Option User) → verify_trusted_device now.utc (hash_token lib token) w.accounts ≡ o
          → IsTrusted user c'
      trusted_as token e none v = ground (arith, h, e, v)
      trusted_as token e (some owner) v =
          known_as token owner e v (get_user owner.username w.accounts) refl

      held_as : (o : Option Text) → r.trust_token ≡ o → IsTrusted user c'
      held_as none e = ground (arith, h, e)
      held_as (some token) e =
          trusted_as token e (verify_trusted_device now.utc (hash_token lib token) w.accounts) refl

  signed_in_user-IsAdmitted :
      (user : User) (c' : Cookie)
      → signed_in_user lib now r w c ≡ (some user, c')
      → IsSession user c' ⊎ IsTrusted user c'
  unfolding signed_in_user session_user_or_clear
  signed_in_user-IsAdmitted user c' h = session_as (session_user (session_of c) w.accounts) refl
    where
      session_as :
          (o : Option User)
          → session_user (session_of c) w.accounts ≡ o
          → IsSession user c' ⊎ IsTrusted user c'
      session_as (some found) e =
          let same_user : found ≡ user = ground (arith, h, e) in
          let same_cookie : c ≡ c' = ground (arith, h, e) in
          inl (
            subst (IsSession user) same_cookie
              (subst (λ u. IsSession u c) same_user (session_user-IsSession found e)))
      session_as none e =
          inr (
            auto_login-IsTrusted (if has_user c then cleared else c) c' user (ground (arith, h, e)))

  -- who `g.user` may be
  abbrev pub IsAdmitted : Option User → Cookie → Type 0
  IsAdmitted none c' = is_public r.path ≡ true
  IsAdmitted (some user) c' = IsSession user c' ⊎ IsTrusted user c'

  verdict_of-IsAdmitted :
      (found : Option User × Cookie) (current : Option User) (c' : Cookie)
      → signed_in_user lib now r w c ≡ found
      → verdict_of lib r.path found ≡ (goes_on current, c')
      → IsAdmitted current c'
  verdict_of-IsAdmitted (none, c1) current c' e h = ground (arith, h)
  verdict_of-IsAdmitted (some user, c1) none c' e h = ground (arith, h)
  verdict_of-IsAdmitted (some user, c1) (some u) c' e h =
      signed_in_user-IsAdmitted u c' (e ∙ ground (arith, h))

  -- A request that goes on to the pages is not a change asked for by another site's page. It is for
  -- a public path and has no user, or its user has a session of the current version, or the browser
  -- holds the token of a trusted device of a user that does not always want the password.
  pub auth_check-IsAdmitted :
      (current : Option User) (c' : Cookie)
      → auth_check lib now r w c ≡ (goes_on current, c')
      → ((is_safe_method r.method ≡ true) ⊎ (r.cross_site ≡ false)) × IsAdmitted current c'
  unfolding auth_check
  auth_check-IsAdmitted current c' h =
      elim (Bool-cases (not (is_safe_method r.method) && r.cross_site)) [
        | inl foreign ↦ ground (arith, h, foreign)
        | inr own ↦ (own_site own, admitted own)
      ]
    where
      own_site :
          (not (is_safe_method r.method) && r.cross_site) ≡ false
          → (is_safe_method r.method ≡ true) ⊎ (r.cross_site ≡ false)
      own_site own = elim (Bool-cases (is_safe_method r.method)) [
        | inl safe ↦ inl safe
        | inr unsafe ↦ inr (ground (arith, own, unsafe))
      ]

      admitted : (not (is_safe_method r.method) && r.cross_site) ≡ false → IsAdmitted current c'
      admitted own = elim (Bool-cases (is_public r.path)) [
        | inl public ↦
            let nobody : none ≡ current = ground (arith, h, own, public) in
            subst (λ (o : Option User). IsAdmitted o c') nobody public
        | inr private ↦
            verdict_of-IsAdmitted (signed_in_user lib now r w c) current c' refl
              (ground (arith, h, own, private))
      ]
