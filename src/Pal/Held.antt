-- ===== src/Pal/Held.antt =====
-- The certificates of a PC, as app/routes/pal.py reads and revokes them: `_live_certs`,
-- `_revoke_superseded` and the revocations of `revoke_own_certs` and `_disconnect`.
-- A time is a number of microseconds. The calls of `crl_publisher` are left out.
pub mod Changes
pub mod Superseded
pub mod Own
pub mod Disconnected
use cert_generator.Prelude.{
  ℕ, Bool, true, false, not, ◌&&◌, ◌||◌, Option, none, some, List, [], ◌∷◌, map, any, select,
  update_where, ltb, ◌==◌, if◌then◌else◌, is_empty, length, Text, codes, text_eq,
}
use cert_generator.Pal.Store.{Store}
use cert_generator.Pal.Store.Ends.{revoke_pal_device}
use cert_generator.Pal.Policy.{UseCase, web_server, computer, user, code_signing}

-- the columns of `certificates` that these functions read
pub record Held : Type 0 where
  pub id : ℕ
  pub ca_id : ℕ
  pub common_name : Text
  pub san_domains : Text
  pub template : Text
  pub serial : Text
  pub not_before : ℕ
  pub not_after : ℕ
  pub revoked : Bool
  pub revoked_at : Option ℕ
  pub crl_dp_url : Option Text
  pub pal_device_id : Option Text
  pub pal_present : Option Bool
  pub pal_checked_at : Option ℕ
  pub pal_user : Option Text
  pub pal_key_storage : Option Text
  pub pal_binds : Option (List Text)  -- a JSON list

-- `USE_CASES[use_case]`
abbrev pub template_of : UseCase → Text
template_of web_server = codes "web-server"
template_of computer = codes "computer"
template_of user = codes "user"
template_of code_signing = codes "code-signing"

-- `pal_device_id = ?`
abbrev pub is_of : Text → Held → Bool
is_of device c = elim c.pal_device_id [ none ↦ false | some id ↦ text_eq id device ]

-- The rows in the order of the table: the order of the answer (by `created_at`, the newest first) is
-- not modelled.
unfoldable pub list_pal_device_certs : Text → List Held → List Held
list_pal_device_certs device rows = select (is_of device) rows

abbrev pub has_held_id : ℕ → Held → Bool
has_held_id id c = c.id == id

-- `bool(cert.get("crl_dp_url"))`
abbrev pub revocable : Held → Bool
revocable c = elim c.crl_dp_url [ none ↦ false | some url ↦ not (is_empty url) ]

-- `c["pal_present"] != 0`
abbrev pub is_present : Held → Bool
is_present c = elim c.pal_present [ none ↦ true | some b ↦ b ]

abbrev pub is_live : ℕ → UseCase → Text → Held → Bool
is_live now use_case name c =
    text_eq c.template (template_of use_case)
    && text_eq c.common_name name
    && not c.revoked
    && ltb now c.not_after

unfoldable pub live_certs : ℕ → Text → UseCase → Text → List Held → List Held
unfolding list_pal_device_certs
live_certs now device use_case name rows =
    select (is_live now use_case name) (list_pal_device_certs device rows)

-- the UPDATE of `db.revoke_cert`
abbrev pub revoke : ℕ → ℕ → List Held → List Held
revoke now id rows =
    update_where (λ (c : Held). has_held_id id c && not c.revoked)
      (λ (c : Held). record c { revoked = true; revoked_at = some now }) rows

-- `for cert in certs: db.revoke_cert(cert["id"])`
unfoldable pub revoke_all : ℕ → List Held → List Held → List Held
revoke_all now [] rows = rows
revoke_all now (c ∷ cs) rows = revoke_all now cs (revoke now c.id rows)

-- the condition of the comprehension `gone`
abbrev pub is_gone : ℕ → Held → Bool
is_gone new_id c = not (c.id == new_id) && not (is_present c) && revocable c

unfoldable pub revoke_superseded : ℕ → Text → UseCase → Text → ℕ → List Held → List Held
unfolding live_certs revoke_all
revoke_superseded now device use_case name new_id rows =
    revoke_all now (select (is_gone new_id) (live_certs now device use_case name rows)) rows

-- `db.mark_pal_removed`
unfoldable pub mark_pal_removed : ℕ → List ℕ → List Held → List Held
mark_pal_removed now [] rows = rows
mark_pal_removed now (id ∷ ids) rows = mark_pal_removed now ids (
    update_where (has_held_id id)
      (λ (c : Held). record c { pal_present = some false; pal_checked_at = some now }) rows)

-- the condition of the comprehension `removed`
abbrev pub is_wanted : List Text → Held → Bool
is_wanted wanted c = any (text_eq c.serial) wanted && not c.revoked

-- what the vault and `db.get_ca_summary` say
pub record Publishing : Type 0 where
  pub locked : Bool
  pub is_published : ℕ → Bool  -- `crl_public` or `cf_worker` of the CA

-- `revoke_own_certs` for the normalized serials of the call, with the serials that it answers;
-- `none` is `DatabaseLocked`
unfoldable pub revoke_own_certs :
    Publishing → ℕ → Text → List Text → List Held → Option (List Held × List Text)
unfolding list_pal_device_certs revoke_all mark_pal_removed
revoke_own_certs state now device wanted rows =
    let removed = select (is_wanted wanted) (list_pal_device_certs device rows) in
    let certs = select revocable removed in
    if any (λ (c : Held). state.is_published c.ca_id) certs && state.locked
    then none
    else (some (
      mark_pal_removed now (map (λ (c : Held). c.id) removed) (revoke_all now certs rows),
      map (λ (c : Held). c.serial) certs,
    ))

abbrev pub is_open : Held → Bool
is_open c = not c.revoked && revocable c

-- `_disconnect`, with how many were revoked; `none` is `DatabaseLocked`. `at_device` is the clock
-- in the seconds of the pal_* tables.
unfoldable pub disconnect :
    Bool → ℕ → ℕ → Text → Bool → Store → List Held → Option (Store × List Held × ℕ)
unfolding list_pal_device_certs revoke_all
disconnect locked at_device now device revoke_certs s rows =
    let certs = if revoke_certs then select is_open (list_pal_device_certs device rows) else [] in
    if not (is_empty certs) && locked
    then none
    else (some ((revoke_pal_device at_device device s).0, revoke_all now certs rows, length certs))
