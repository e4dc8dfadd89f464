-- ===== src/Relay/Dispatch/Inside.antt =====
-- What `relay_dispatch` of app/routes/pal.py asks of the request inside an envelope.
use cert_generator.Prelude.{
  ◌++◌, ◌⊎◌, contains, contains_text, starts_with, starts_with_iff, ◌&&◌, text_eq, ◌∙◌, ◌≡◌, ◌≢◌,
  refl, Bool, true, false, Option, none, some, List, ◌∷◌, take, Text, codes, ok, arith, inl, inr,
  Bool-cases, ap, text_eq_iff, drop, refuse_if, ◌>>◌, not, ◌||◌,
}
use cert_generator.Pal.Json.{Json, Fields, text, object, get}
use cert_generator.Relay.Envelope.{Request, is_text}
use cert_generator.Relay.Dispatch.{
  device_prefix, Inner, is_relayed, is_method, relay_headers, sent_headers, check_inner,
}

-- the header of the device that the inner request is sent with
abbrev pub NamesDevice : Request → Inner → Type 0
NamesDevice req inner =
    (rest : List (Text × Text)) × (inner.headers
      ≡ (codes "X-Pal-Device", take 512 req.device_id) ∷ rest)

-- a path of the device API that the relay may serve: no other part of the server, and not the
-- pairing of a new PC
abbrev pub IsDevicePath : Text → Type 0
IsDevicePath path =
    ((rest : Text) × (path ≡ codes "/api/pal/v1/" ++ rest) × (rest ≢ codes "enroll"))
    × (contains b'?' path ≡ false)
    × (contains_text (codes "..") path ≡ false)

-- an inner request that passes the checks, made of the method, the path and the body that were sent
abbrev pub IsChecked : Request → Json → Json → Text → Inner → Type 0
IsChecked req method path body inner =
    (method ≡ text inner.method)
    × (path ≡ text inner.path)
    × (body ≡ inner.body)
    × ((inner.method ≡ codes "GET") ⊎ (inner.method ≡ codes "POST"))
    × IsDevicePath inner.path
    × NamesDevice req inner

four_hold :
    (a b c d : Bool)
    → (a && not b && not c && not d) ≡ true
    → (a ≡ true) × (b ≡ false) × (c ≡ false) × (d ≡ false)
four_hold true false false false h = (refl, refl, refl, refl)
four_hold false b c d h = ground (arith, h)
four_hold true true c d h = ground (arith, h)
four_hold true false true d h = ground (arith, h)
four_hold true false false true h = ground (arith, h)

text_eq-neq : (s t : Text) → text_eq s t ≡ false → s ≢ t
text_eq-neq s t other same = let yes = (text_eq_iff s t).1 same in ground (arith, other, yes)

is_relayed-IsDevicePath : (path : Text) → is_relayed path ≡ true → IsDevicePath path
is_relayed-IsDevicePath path h =
    let (starts, other, query, dots) =
      four_hold (starts_with path device_prefix) (text_eq path (device_prefix ++ codes "enroll"))
        (contains b'?' path) (contains_text (codes "..") path) h in
    let (rest, e) = (starts_with_iff path device_prefix).0 starts in
    (
      (
        rest,
        e,
        λ enroll.
            text_eq-neq path (device_prefix ++ codes "enroll") other
              (e ∙ ap (λ r. device_prefix ++ r) enroll),
      ),
      query,
      dots,
    )

is_method-eq : (m : Text) → is_method m ≡ true → (m ≡ codes "GET") ⊎ (m ≡ codes "POST")
is_method-eq m h = elim (Bool-cases (text_eq m (codes "GET"))) [
  | inl e ↦ inl ((text_eq_iff m (codes "GET")).0 e)
  | inr e ↦ inr ((text_eq_iff m (codes "POST")).0 (ground (arith, h, e)))
]

is_text-eq : (s : Text) (o : Option Json) → is_text s o ≡ true → o ≡ some (text s)
is_text-eq s none h = cc
is_text-eq s (some (text r)) h = ap (λ x. some (text x)) ((text_eq_iff r s).0 h)
is_text-eq s (some _) h = cc

sent_headers-device :
    (device_id : Text) (headers : Fields)
    → get (codes "X-Pal-Device") headers ≡ some (text device_id)
    → (rest : List (Text × Text)) × (sent_headers relay_headers headers
        ≡ (codes "X-Pal-Device", take 512 device_id) ∷ rest)
unfolding sent_headers
sent_headers-device device_id headers e =
    (sent_headers (drop 1 relay_headers) headers, rw (sent_headers, e) refl)

-- the two tests of the inner request
check_steps :
    (method relayed named : Bool) (made inner : Inner)
    → (refuse_if (not method || not relayed) (codes "Not a device API request")
        >> (refuse_if (not named) (codes "The inner request is from another PC") >> ok made))
      ≡ ok inner
    → (method ≡ true) × (relayed ≡ true) × (named ≡ true) × (made ≡ inner)
check_steps true true true made inner h = (refl, refl, refl, ground (arith, h))
check_steps false relayed named made inner h = ground (arith, h)
check_steps true false named made inner h = ground (arith, h)
check_steps true true false made inner h = ground (arith, h)

check_fields-IsChecked :
    (req : Request) (m p : Text) (fs : Fields) (body : Text) (inner : Inner)
    → check_inner req (text m) (text p) (object fs) body ≡ ok inner
    → (is_method m ≡ true)
      × (is_relayed p ≡ true)
      × (is_text req.device_id (get (codes "X-Pal-Device") fs) ≡ true)
      × (record { method = m; path = p; headers = sent_headers relay_headers fs; body = body }
          ≡ inner)
unfolding check_inner
check_fields-IsChecked req m p fs body inner h =
    check_steps (is_method m) (is_relayed p) (is_text req.device_id (get (codes "X-Pal-Device") fs))
      _ inner h

pub check_inner-IsChecked :
    (req : Request) (method path headers : Json) (body : Text) (inner : Inner)
    → check_inner req method path headers body ≡ ok inner
    → IsChecked req method path body inner
unfolding check_inner
check_inner-IsChecked req (text m) (text p) (object fs) body inner h =
    let (asks, relayed, named, same) = check_fields-IsChecked req m p fs body inner h in
    let device = is_text-eq req.device_id (get (codes "X-Pal-Device") fs) named in
    rw (← same) (
      refl,
      refl,
      refl,
      is_method-eq m asks,
      is_relayed-IsDevicePath p relayed,
      sent_headers-device req.device_id fs device,
    )
check_inner-IsChecked req (text m) (text p) _ body inner h = ground arith
check_inner-IsChecked req (text m) _ fs body inner h = ground arith
check_inner-IsChecked req _ p fs body inner h = ground arith
