-- ===== src/Relay/Dispatch/Guarded.antt =====
-- `relay_dispatch` of app/routes/pal.py: what reaches the device API through the relay.
use cert_generator.Prelude.{
  ◌⊎◌, ◌∙◌, Option-cases, ℕ, ◌*◌, ◌≤◌, ◌≡◌, ◌≢◌, refl, subst, true, Option, none, some, [], Text,
  codes, Result, ok, refuse, arith, inl, inr, Bool-cases, ap, bind-ok,
}
use cert_generator.Pal.Json.{no_fields, Fields, text, object, get}
use cert_generator.Pal.Tables.{Device}
use cert_generator.Pal.Store.{Store, get_pal_device}
use cert_generator.Pal.Signed.{skew_seconds}
use cert_generator.Relay.{Library}
use cert_generator.Relay.Envelope.{
  Request, parse_request, open_request, b64url_decode, verify_request,
}
use cert_generator.Relay.Dispatch.{
  Inner, Response, Decision, unanswered, refusal, forward, raise, time_off, check_inner,
  get_or_else, get_or_null, open_inner, decide_opened, decide_signed, decide, relay_dispatch,
  load_private_key,
}
use cert_generator.Relay.Dispatch.Inside.{
  NamesDevice, IsDevicePath, IsChecked, check_inner-IsChecked,
}

module _ (lib : Library) (tick now : ℕ) where
  decide_opened-forward :
      (req req' : Request) (device : Device) (key : Text) (inner : Inner) (k_rep : Text)
      → decide_opened lib tick now req device key ≡ forward req' inner k_rep
      → (req' ≡ req)
        × (device.revoked_at ≡ none)
        × (device.remote_allowed ≡ true)
        × (time_off tick now req.timestamp ≤ skew_seconds * tick)
        × (open_inner lib req key ≡ ok (inner, k_rep))
  unfolding decide_opened
  decide_opened-forward req req' device key inner k_rep h = ground arith

  -- the inner request is the one inside the envelope
  abbrev pub IsInside : Request → Text → Inner → Type 0
  IsInside req key inner =
      (sent : Fields) × (k_rep : Text) × (open_request lib req key ≡ ok (sent, k_rep))
      × (get (codes "method") sent ≡ some (text inner.method))
      × (get (codes "path") sent ≡ some (text inner.path))
      × (b64url_decode lib (get_or_else (codes "body") (text []) sent) ≡ ok inner.body)

  get_or_null-text :
      (name : Text) (fs : Fields) (t : Text)
      → get_or_null name fs ≡ text t
      → get name fs ≡ some (text t)
  get_or_null-text name fs t h = elim (Option-cases (get name fs)) [
    | inl n ↦ ground (arith, h, n)
    | inr (j, e) ↦ ground (arith, h, e)
  ]

  open_inner-IsInside :
      (req : Request) (key : Text) (inner : Inner) (k_rep : Text)
      → open_inner lib req key ≡ ok (inner, k_rep)
      → IsInside req key inner
        × ((inner.method ≡ codes "GET") ⊎ (inner.method ≡ codes "POST"))
        × IsDevicePath inner.path
        × NamesDevice req inner
  unfolding open_inner
  open_inner-IsInside req key inner k_rep h =
      let (opened, is_opened, rest) = bind-ok (open_request lib req key) _ (inner, k_rep) h in
      let (body, is_body, rest') =
        bind-ok (b64url_decode lib (get_or_else (codes "body") (text []) opened.0)) _ (inner, k_rep)
          rest in
      let (made, checked, last) =
        bind-ok
          (check_inner req (get_or_null (codes "method") opened.0)
            (get_or_null (codes "path") opened.0)
            (get_or_else (codes "headers") (object no_fields) opened.0) body)
          _ (inner, k_rep) rest' in
      let same : made ≡ inner = ground (arith, last) in
      let (m, p, b, asks, relayed, own) =
        subst
          (IsChecked req (get_or_null (codes "method") opened.0)
            (get_or_null (codes "path") opened.0) body)
          same (check_inner-IsChecked req _ _ _ body made checked) in
      (
        (
          opened.0,
          opened.1,
          is_opened,
          get_or_null-text (codes "method") opened.0 inner.method m,
          get_or_null-text (codes "path") opened.0 inner.path p,
          is_body ∙ ap ok b,
        ),
        asks,
        relayed,
        own,
      )

  -- what an envelope has shown when its request reaches the device API
  pub record IsGuarded (relay_key : Result Text (Option Text)) (envelope : Text) (s : Store)
      (req : Request) (device : Device) (inner : Inner) : Type 0 where
    pub key : Text
    pub has_key : relay_key ≡ ok (some key)
    pub parsed : parse_request lib envelope ≡ ok req
    pub known : get_pal_device req.device_id s ≡ some device
    pub signed : verify_request lib req device.public_key ≡ true
    pub connected : device.revoked_at ≡ none
    pub allowed : device.remote_allowed ≡ true
    pub on_time : time_off tick now req.timestamp ≤ skew_seconds * tick
    pub inside : IsInside req key inner
    pub asks : (inner.method ≡ codes "GET") ⊎ (inner.method ≡ codes "POST")
    pub relayed : IsDevicePath inner.path
    pub own : NamesDevice req inner

  decide_signed-forward :
      (relay_key : Result Text (Option Text)) (req req' : Request) (device : Device) (inner : Inner)
      (k_rep : Text)
      → decide_signed lib tick now relay_key req device ≡ forward req' inner k_rep
      → (key : Text) × (relay_key ≡ ok (some key))
        × (decide_opened lib tick now req device key ≡ forward req' inner k_rep)
  unfolding decide_signed load_private_key
  decide_signed-forward (refuse error) req req' device inner k_rep h = ground (arith, h)
  decide_signed-forward (ok none) req req' device inner k_rep h = ground (arith, h)
  decide_signed-forward (ok (some der)) req req' device inner k_rep h = (
    der,
    refl,
    elim (Bool-cases (lib.is_p256_key der)) [
      | inl good ↦ ground (arith, h, good)
      | inr bad ↦ ground (arith, h, bad)
    ],
  )

  pub decide-IsGuarded :
      (relay_key : Result Text (Option Text)) (envelope : Text) (s : Store) (req : Request)
      (inner : Inner) (k_rep : Text)
      → decide lib tick now relay_key envelope s ≡ forward req inner k_rep
      → (device : Device) × IsGuarded relay_key envelope s req device inner
  unfolding decide
  decide-IsGuarded relay_key envelope s req inner k_rep h =
      parsed_as (parse_request lib envelope) refl
    where
      known_as :
          (found : Request)
          → parse_request lib envelope ≡ ok found
          → (o : Option Device) → get_pal_device found.device_id s ≡ o
          → (device : Device) × IsGuarded relay_key envelope s req device inner
      known_as found p none e = ground (arith, h, p, e)
      known_as found p (some device) e =
          elim (Bool-cases (verify_request lib found device.public_key)) [
            | inr unsigned ↦ ground (arith, h, p, e, unsigned)
            | inl signed ↦
                let (key, has_key, at_key) =
                  decide_signed-forward relay_key found req device inner k_rep
                    (ground (arith, h, p, e, signed)) in
                let (same, connected, allowed, on_time, opened) =
                  decide_opened-forward found req device key inner k_rep at_key in
                let (inside, asks, relayed, own) =
                  open_inner-IsInside found key inner k_rep opened in
                rw same (
                  device,
                  record {
                    key = key;
                    has_key = has_key;
                    parsed = p;
                    known = e;
                    signed = signed;
                    connected = connected;
                    allowed = allowed;
                    on_time = on_time;
                    inside = inside;
                    asks = asks;
                    relayed = relayed;
                    own = own;
                  },
                )
          ]

      parsed_as :
          (r : Result Text Request)
          → parse_request lib envelope ≡ r
          → (device : Device) × IsGuarded relay_key envelope s req device inner
      parsed_as (refuse message) e = ground (arith, h, e)
      parsed_as (ok found) e = known_as found e (get_pal_device found.device_id s) refl

  -- If an envelope changes the tables, then they are what the device API makes of them for the one
  -- request that is inside the envelope, opened with the server's relay key: its method, path and
  -- body. The envelope is signed by the key of a PC that is known, connected, and allowed to use the
  -- relay, its time is at most five minutes off, the method is GET or POST, the path is one of the
  -- device API other than enroll, without a query or "..", and the first header that is sent on names
  -- that same PC.
  pub relay_dispatch-IsGuarded :
      (api : Inner → Store → Store × Response) (relay_key : Result Text (Option Text))
      (iv envelope : Text) (s : Store)
      → (relay_dispatch lib api tick now relay_key iv envelope s).0 ≢ s
      → (req : Request) × (device : Device) × (inner : Inner) × ((relay_dispatch lib api tick now
            relay_key iv envelope s).0
          ≡ (api inner s).0)
        × IsGuarded relay_key envelope s req device inner
  unfolding relay_dispatch
  relay_dispatch-IsGuarded api relay_key iv envelope s changed =
      decided_as (decide lib tick now relay_key envelope s) refl
    where
      decided_as :
          (d : Decision)
          → decide lib tick now relay_key envelope s ≡ d
          → (req : Request) × (device : Device) × (inner : Inner) × ((relay_dispatch lib api tick
                now relay_key iv envelope s).0
              ≡ (api inner s).0)
            × IsGuarded relay_key envelope s req device inner
      decided_as unanswered e = absurd (changed (rw (relay_dispatch, e) refl))
      decided_as (raise message) e = absurd (changed (rw (relay_dispatch, e) refl))
      decided_as (refusal req key status message) e = absurd (changed (rw (relay_dispatch, e) refl))
      decided_as (forward req inner k_rep) e =
          let (device, guarded) = decide-IsGuarded relay_key envelope s req inner k_rep e in
          (req, device, inner, rw (relay_dispatch, e) refl, guarded)
