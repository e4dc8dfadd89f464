-- ===== src/Lib.antt =====
-- A model of the Cert Generator server: a certificate authority for a home or office network, with a
-- web interface for its admin and an interface (pal/api) for the PCs that it has connected.
--
-- Parts and files
--   Security    app/security.py: the lockout after failed sign-ins (AttemptLimiter), the quota of
--               requests (RateLimiter), one-time codes (Totp) and the refusal of cross-site forms
--               (CrossSite). Both limiters hold a dict in insertion order, here an association list.
--   Pal         The PCs. Pal.Tables and Pal.Store are the pal_* tables of app/db.py as lists of rows
--               and the functions on them, one transaction each; Pal.Store.Calls is any sequence of
--               them. Pal.Patterns and Pal.Signed are app/pal.py and _signed_device of
--               app/routes/pal.py: which PC signed a request. Pal.Issue is _issue of
--               app/routes/pal.py, split where other threads may run between. Pal.CodeState is the
--               state that the admin's page shows of a code.
--               Pal.Requests and Pal.Requests.Create are create_request of app/routes/pal.py with the
--               functions that refuse a request, Pal.Held the certificates of a PC and the handlers
--               that revoke them, Pal.Presence what a PC's store audit records of them, Pal.Status is
--               cert_status, Pal.Binds is create_binds, Pal.Csr is load_csr of app/crypto_engine.py, and
--               Pal.Reported what app/pal.py reads in a call.
--               Pal.Policy and Pal.Names are the checks of app/pal.py on what an admin allows a PC and
--               on the names that a PC asks for; Pal.Json is what json.loads gives to them.
--   Certificates
--               The certificates of app/db.py, their revocation and deletion, and the chains of
--               CAs. Certificates.Calls is any sequence of the calls that change them. The loops up a
--               chain (also in Certificates.Roots) recurse on the steps that max_depth (16) leaves;
--               Certificates.Tree, the CAs below one, on as many rounds as there are CAs.
--   Accounts    The users of the web interface, their trusted devices and sessions: the functions of
--               app/db.py on the two tables, and _session_user of app/server.py. Accounts.Calls is any
--               sequence of them, with the restore of a backup's users.
--   Vault       Encryption at rest: Vault and Vault.Keys are the column functions and the keys of
--               app/crypto_engine.py and app/db.py, Vault.Changes the operations of app/db.py that
--               switch encryption on and off and replace passwords and recovery keys.
--   Relay       The remote relay. Relay.Envelope is app/relay.py (Relay.Bytes its two forms of a
--               signature, Relay.Encoded what its encodings read back), Relay.Dispatch is relay_dispatch of app/routes/pal.py, and Relay.Collector
--               is run_once and the loop of app/relay_collector.py; an exception that a run does not
--               catch is a value.
--   SignIn      Signing in to the web interface: SignIn and SignIn.Trust are the sessions of app/web.py
--               and the trust cookies of app/routes/auth.py, SignIn.Login and SignIn.Mfa its pages,
--               SignIn.Account is app/routes/account.py, and SignIn.Gate the check before every
--               request of app/server.py. A handler runs as one step on World: the tables of
--               Accounts, the Vault, and the limiter that the pages share.
--   Examples    Concrete runs.
--   Prelude     Lists, tables, dictionaries and texts (a text is a list of code points).
--
-- A request of a PC passes the quota (RateLimiter), is checked by Pal.Signed against the tables of
-- Pal.Store, and asks for a certificate, which Pal.Issue signs; the sign-in pages use AttemptLimiter
-- and Totp.
--
-- Bounds and parameters
--   Numbers are natural numbers. Times are whole units of a clock: seconds, ticks in Pal.Signed,
--   microseconds in Pal.Held and Pal.Requests. Python integers are unbounded, so nothing wraps. Every
--   definition is structurally recursive, and the only fuel is max_depth, which the code has too, and
--   the rounds of Certificates.Tree. Random values are numbered by the order in which they are drawn.
--   Code outside the repository (hashes, ciphers, signatures, bcrypt, base64, ipaddress, str.isdigit,
--   pyotp, urlsplit) is a parameter of the definitions that use it. A database function that raises
--   leaves the tables as they were, and SQLite's keys are written out as guards.
--
-- Not modelled
--   The HTML, the JSON text of policies, the PC's own program (pal/, C#), the relay
--   worker (JavaScript), the calls of the cryptography package, and of app/ the parts that are listed
--   neither above nor in a file's first lines: certificate building, CRL publishing,
--   backups, the handlers of the certificate pages, and of the PCs' handlers enroll and the admin's.
pub mod Prelude
pub mod Security
pub mod Accounts
pub mod Certificates
pub mod Pal
pub mod Vault
pub mod Relay
pub mod SignIn
pub mod Examples
