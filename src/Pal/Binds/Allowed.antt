-- ===== src/Pal/Binds/Allowed.antt =====
-- What `create_binds` of app/routes/pal.py stores.
use cert_generator.Certificates.Tree.{has_member}
use cert_generator.Prelude.{
  text_eq, text_eq_iff, ◌&&◌, ℕ, ◌<◌, ◌≡◌, ◌⊎◌, inl, inr, refl, subst, Bool, true, false, not, ◌||◌,
  Option, none, some, List, [], ◌∷◌, ◌++◌, find, delete_where, leb, is_empty, Text, codes, ok,
  refuse_if, or_raise, bind-ok, All, All-append, arith, Bool-cases, Option-cases,
}
use cert_generator.Pal.Json.{null, Fields, get_or}
use cert_generator.Pal.Tables.{Status, is_pending, Device, Bind}
use cert_generator.Pal.Store.{Store}
use cert_generator.Pal.Store.Binds.{
  NewBind, bind_row, is_decided, is_waiting, insert_bind, create_pal_bind,
}
use cert_generator.Pal.Policy.{Mode, off, auto, approve, is_off, Policy}
use cert_generator.Pal.Reported.{Library, parse_binds, request_note, normalize_serial, windows_user}
use cert_generator.Pal.Held.{Held}
use cert_generator.Certificates.{Registry}
use cert_generator.Pal.Binds.{
  bind_mode, tree_of, is_issued, get_pal_cert_by_serial, is_bindable, refused, bind_status,
  new_bind, store_binds, report_ok, certificate_of, usable, or_empty_text, create_binds, not_usable,
  wrong_kind, not_allowed, unknown_device,
}

module _ (Q : Bind → Type 0) where
  All-delete_where : (p : Bind → Bool) (rows : List Bind) → All Q rows → All Q (delete_where p rows)
  All-delete_where p [] h = tt
  All-delete_where p (b ∷ rows) h = elim (Bool-cases (p b)) [
    | inl e ↦ rw e (All-delete_where p rows h.1)
    | inr e ↦ rw e (h.0, All-delete_where p rows h.1)
  ]

  insert_bind-All :
      (at : ℕ) (b : NewBind) (s s' : Store) (id : ℕ)
      → All Q s.binds
      → Q (bind_row at s.bind_seq b)
      → insert_bind at b s ≡ some (s', id)
      → All Q s'.binds
  unfolding insert_bind
  insert_bind-All at b s s' id h new e =
      let kept = delete_where (is_decided b.device_id b.serial b.target) s.binds in
      let same : kept ++ bind_row at s.bind_seq b ∷ [] ≡ s'.binds = ground (arith, e) in
      rw (← same) (
        All-append Q kept (bind_row at s.bind_seq b ∷ [])
          (All-delete_where (is_decided b.device_id b.serial b.target) s.binds h) (new, tt))

  create_pal_bind-All :
      (at : ℕ) (b : NewBind) (s s' : Store) (id : ℕ)
      → All Q s.binds
      → Q (bind_row at s.bind_seq b)
      → create_pal_bind at b s ≡ some (s', id)
      → All Q s'.binds
  unfolding create_pal_bind
  create_pal_bind-All at b s s' id h new e = elim (Bool-cases (is_pending b.status)) [
    | inr p ↦ insert_bind-All at b s s' id h new (ground (arith, e, p))
    | inl p ↦ elim (Option-cases (find (is_waiting b.device_id b.serial b.target) s.binds)) [
      | inl f ↦ insert_bind-All at b s s' id h new (ground (arith, e, p, f))
      | inr (row, f) ↦ let same : s ≡ s' = ground (arith, e, p, f) in rw (← same) h
    ]
  ]

  store_binds-All :
      (at : ℕ) (bind_for : Text × Text → NewBind) (wanted : List (Text × Text)) (s s' : Store)
      (ids : List ℕ)
      → All Q s.binds
      → All (λ w. (id : ℕ) → Q (bind_row at id (bind_for w))) wanted
      → store_binds at bind_for wanted s ≡ some (s', ids)
      → All Q s'.binds
  unfolding store_binds
  store_binds-All at bind_for [] s s' ids h new e =
      let same : s ≡ s' = ground (arith, e) in rw (← same) h
  store_binds-All at bind_for (w ∷ wanted) s s' ids h new e =
      elim (Option-cases (create_pal_bind at (bind_for w) s)) [
        | inl c ↦ absurd (ground (arith, e, c))
        | inr (stored, c) ↦ elim (Option-cases (store_binds at bind_for wanted stored.0)) [
          | inl d ↦ absurd (ground (arith, e, c, d))
          | inr (rest, d) ↦
              let same : rest.0 ≡ s' = ground (arith, e, c, d) in
              let first =
                create_pal_bind-All at (bind_for w) s stored.0 stored.1 h (new.0 s.bind_seq) c in
              rw (← same) (store_binds-All at bind_for wanted stored.0 rest.0 rest.1 first new.1 d)
        ]
      ]

-- a bind that the policy allows: at once, or if the admin approves it
abbrev pub IsAsked : Policy → Device → Text → Held → Bind → Type 0
IsAsked policy device serial cert b =
    (b.device_id ≡ device.id)
    × (b.serial ≡ serial)
    × (b.cert_name ≡ cert.common_name)
    × (((bind_mode b.target policy.binds ≡ auto) × (b.status ≡ Status.approved))
        ⊎ ((bind_mode b.target policy.binds ≡ approve) × (b.status ≡ Status.pending)))

bind_status-lem :
    (mode : Mode)
    → is_off mode ≡ false
    → ((mode ≡ auto) × (bind_status mode ≡ Status.approved))
      ⊎ ((mode ≡ approve) × (bind_status mode ≡ Status.pending))
bind_status-lem off h = ground (arith, h)
bind_status-lem auto h = inl (refl, refl)
bind_status-lem approve h = inr (refl, refl)

new_bind-IsAsked :
    (policy : Policy) (device : Device) (serial : Text) (cert : Held)
    (account written : Option Text) (at id : ℕ) (w : Text × Text)
    → is_off (bind_mode w.0 policy.binds) ≡ false
    → IsAsked policy device serial cert
        (bind_row at id (new_bind policy device serial cert.common_name account written w))
unfolding bind_row
new_bind-IsAsked policy device serial cert account written at id (target, detail) h =
    (refl, refl, refl, bind_status-lem (bind_mode target policy.binds) h)

none_refused :
    (policy : Policy) (wanted : List (Text × Text))
    → is_empty (refused policy wanted) ≡ true
    → All (λ w. is_off (bind_mode w.0 policy.binds) ≡ false) wanted
unfolding refused
none_refused policy [] h = tt
none_refused policy (w ∷ wanted) h = elim (Bool-cases (is_off (bind_mode w.0 policy.binds))) [
  | inl e ↦ absurd (ground (arith, h, e))
  | inr e ↦ (e, none_refused policy wanted (ground (arith, h, e)))
]

-- a certificate that may be bound
abbrev pub IsUsable : ℕ → Held → Type 0
IsUsable now cert = (cert.revoked ≡ false) × (now < cert.not_after) × (is_bindable cert ≡ true)

bindable-template :
    (c : Held)
    → is_bindable c ≡ true
    → (c.template ≡ codes "web-server") ⊎ (c.template ≡ codes "computer")
bindable-template c h = elim (Bool-cases (text_eq c.template (codes "web-server"))) [
  | inl e ↦ inl ((text_eq_iff c.template (codes "web-server")).0 e)
  | inr e ↦ inr ((text_eq_iff c.template (codes "computer")).0 (ground (arith, h, e)))
]

usable-IsUsable :
    (now : ℕ) (policy : Policy) (wanted : List (Text × Text)) (found : Option Held) (cert : Held)
    → usable now policy wanted found ≡ ok cert
    → (found ≡ some cert) × IsUsable now cert × (is_empty (refused policy wanted) ≡ true)
unfolding usable
usable-IsUsable now policy wanted none cert h = absurd (ground (arith, h))
usable-IsUsable now policy wanted (some c) cert h =
    let (u1, h1, k1) = bind-ok (refuse_if (c.revoked || leb c.not_after now) not_usable) _ cert h in
    let (u2, h2, k2) = bind-ok (refuse_if (not (is_bindable c)) wrong_kind) _ cert k1 in
    let (u3, h3, k3) =
      bind-ok (refuse_if (not (is_empty (refused policy wanted))) not_allowed) _ cert k2 in
    let same : c ≡ cert = ground (arith, k3) in
    rw (← same)
      (refl, (ground (arith, h1), ground (arith, h1), ground (arith, h2)), ground (arith, h3))

-- the certificate is the first one of a CA in the PC's tree, with the serial
certificate_of-find :
    (tree : List ℕ) (serial : Option Text) (rows : List Held) (cert : Held)
    → certificate_of tree serial rows ≡ some cert
    → (s : Text) × (serial ≡ some s) × (find (is_issued tree s) rows ≡ some cert)
unfolding get_pal_cert_by_serial
certificate_of-find tree none rows cert h = absurd (ground (arith, h))
certificate_of-find tree (some s) rows cert h = (s, refl, h)

All-imp :
    {A : Type 0} (P Q : A → Type 0) (f : (a : A) → P a → Q a) (xs : List A) → All P xs → All Q xs
All-imp P Q f [] h = tt
All-imp P Q f (x ∷ xs) h = (f x h.0, All-imp P Q f xs h.1)

stored-IsAsked :
    (Before : Bind → Type 0) (policy : Policy) (device : Device) (serial : Text) (cert : Held)
    (account written sent_serial : Option Text) (at : ℕ) (wanted : List (Text × Text))
    (s s' : Store) (ids : List ℕ)
    → All Before s.binds
    → sent_serial ≡ some serial
    → is_empty (refused policy wanted) ≡ true
    → or_raise unknown_device (
        store_binds at
          (new_bind policy device (or_empty_text sent_serial) cert.common_name account written)
          wanted
          s)
      ≡ ok (s', ids)
    → All (λ b. Before b ⊎ IsAsked policy device serial cert b) s'.binds
stored-IsAsked Before policy device serial cert account written sent_serial at wanted s s' ids h k
      free e =
    let bind_for = new_bind policy device serial cert.common_name account written in
    let given =
      subst
        (λ o.
          or_raise unknown_device (
            store_binds at
              (new_bind policy device (or_empty_text o) cert.common_name account written) wanted s)
          ≡ ok (s', ids))
        k e in
    store_binds-All (λ b. Before b ⊎ IsAsked policy device serial cert b) at bind_for wanted s s'
      ids
      (All-imp Before (λ b. Before b ⊎ IsAsked policy device serial cert b) (λ b x. inl x) s.binds
        h)
      (All-imp (λ w. is_off (bind_mode w.0 policy.binds) ≡ false)
        (λ w.
          (id : ℕ)
          → Before (bind_row at id (bind_for w))
            ⊎ IsAsked policy device serial cert (bind_row at id (bind_for w)))
        (λ w x id. inr (new_bind-IsAsked policy device serial cert account written at id w x))
        wanted (none_refused policy wanted free))
      (ground (arith, given))

module _ (lib : Library) where
  -- If `create_binds` stores binds, then the text that the call names as the serial is one, the
  -- first certificate with this serial that a CA in the tree of the PC's CA issued is not revoked,
  -- has not expired and can serve TLS, and each bind in the table is one that was there before (so it
  -- has whatever `Before` says of all of those), or a bind of the PC for this certificate to a role
  -- that its policy does not refuse: approved if the policy allows the role at once, and pending if
  -- it needs approval.
  pub create_binds-IsAsked :
      (Before : Bind → Type 0) (now at : ℕ) (policy : Policy) (device : Device) (sent : Fields)
      (r : Registry) (rows : List Held) (s s' : Store) (ids : List ℕ)
      → All Before s.binds
      → create_binds lib now at policy device sent r rows s ≡ ok (s', ids)
      → (cert : Held) × (serial : Text) × (normalize_serial lib (get_or (codes "serial") null sent)
          ≡ some serial)
        × (find
              (λ (c : Held). has_member c.ca_id (tree_of device.ca_id r) && text_eq c.serial serial)
              rows
            ≡ some cert)
        × (cert.revoked ≡ false)
        × (now < cert.not_after)
        × ((cert.template ≡ codes "web-server") ⊎ (cert.template ≡ codes "computer"))
        × All (λ b. Before b ⊎ IsAsked policy device serial cert b) s'.binds
  unfolding create_binds
  create_binds-IsAsked Before now at policy device sent r rows s s' ids h e =
      let raw = get_or (codes "serial") null sent in
      let (wanted, _, e1) =
        bind-ok (report_ok (parse_binds lib (get_or (codes "binds") null sent))) _ (s', ids) e in
      let (written, _, e2) =
        bind-ok (report_ok (request_note lib (get_or (codes "note") null sent))) _ (s', ids) e1 in
      let found = certificate_of (tree_of device.ca_id r) (normalize_serial lib raw) rows in
      let (cert, is_usable, e3) = bind-ok (usable now policy wanted found) _ (s', ids) e2 in
      let (is_found, fit, free) = usable-IsUsable now policy wanted found cert is_usable in
      let (serial, named, issued) =
        certificate_of-find (tree_of device.ca_id r) (normalize_serial lib raw) rows cert
          is_found in
      (
        cert,
        serial,
        named,
        issued,
        fit.0,
        fit.1,
        bindable-template cert fit.2,
        stored-IsAsked Before policy device serial cert
            (windows_user (get_or (codes "windows_user") null sent)) written
            (normalize_serial lib raw) at wanted s s' ids h named free e3,
      )
