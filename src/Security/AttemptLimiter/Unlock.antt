-- ===== src/Security/AttemptLimiter/Unlock.antt =====
-- `success` forgets a key's failures, and only that key's, in any state the limiter can be in.
use cert_generator.Prelude.{
  ℕ, ◌-◌, ◌≤◌, String, ◌≡◌, List, [], ◌∷◌, arith, take, length, if◌then◌else◌, lookup, insert,
  erase, str_eq, select, occurs, keys_of, occurs-erase, occurs-insert, lookup-erase, IsUnique,
}
use cert_generator.Security.AttemptLimiter.{
  Config, Limiter, retry_after, next_entry, erase_all, sort_by_last, is_stale, drop_overflow, prune,
  failure, success, reset,
}

pub data Call : Type 0 where
  fail : ℕ → String → Call
  succeed : String → Call
  clear : Call

unfoldable pub apply : Config → Call → Limiter → Limiter
apply c (fail now key) st = failure c now key st
apply c (succeed key) st = success key st
apply c clear st = reset st

-- the calls, the first one first
unfoldable pub run : Config → List Call → Limiter → Limiter
run c [] st = st
run c (call ∷ calls) st = run c calls (apply c call st)

occurs-erase_all-le :
    (keys : List String) (j : String) (st : Limiter)
    → occurs j (keys_of (erase_all keys st)) ≤ occurs j (keys_of st)
unfolding erase_all
occurs-erase_all-le [] j st = omega arith
occurs-erase_all-le (k ∷ keys) j st =
    omega (arith, occurs-erase_all-le keys j (erase k st), occurs-erase k j st)

occurs-drop_overflow-le :
    (c : Config) (j : String) (st : Limiter)
    → occurs j (keys_of (drop_overflow c st)) ≤ occurs j (keys_of st)
unfolding drop_overflow
occurs-drop_overflow-le c j st =
    ground
      (arith, occurs-erase_all-le (take (length st - c.max_keys) (keys_of (sort_by_last st))) j st)

occurs-prune-le :
    (c : Config) (now : ℕ) (j : String) (st : Limiter)
    → occurs j (keys_of (prune c now st)) ≤ occurs j (keys_of st)
unfolding prune
occurs-prune-le c now j st =
    let stale = keys_of (select (is_stale c now) st) in
    omega (arith, occurs-drop_overflow-le c j (erase_all stale st), occurs-erase_all-le stale j st)

failure-IsUnique :
    (c : Config) (now : ℕ) (key : String) {st : Limiter}
    → IsUnique st
    → IsUnique (failure c now key st)
unfolding failure
failure-IsUnique c now key {st} h = record {
  once = λ k.
      let st' = insert key (next_entry c now (lookup key st)) st in
      ground (
        arith,
        h.once k,
        occurs-insert key k (next_entry c now (lookup key st)) st,
        occurs-prune-le c now k st',
      );
}

apply-IsUnique :
    (c : Config) (call : Call) {st : Limiter} → IsUnique st → IsUnique (apply c call st)
unfolding apply success reset
apply-IsUnique c (fail now key) h = failure-IsUnique c now key h
apply-IsUnique c (succeed key) {st} h = record {
  once = λ k. omega (arith, h.once k, occurs-erase key k st);
}
apply-IsUnique c clear h = record { once = λ k. omega arith }

run-IsUnique :
    (c : Config) (calls : List Call) {st : Limiter} → IsUnique st → IsUnique (run c calls st)
unfolding run
run-IsUnique c [] h = h
run-IsUnique c (call ∷ calls) h = run-IsUnique c calls (apply-IsUnique c call h)

-- After any calls on a new limiter, a success leaves its key no wait and every other key the
-- wait that it had.
pub retry_after-success :
    (c : Config) (calls : List Call) (now : ℕ) (key j : String)
    → let st = run c calls [] in
      retry_after now j (success key st) ≡ (if str_eq key j then 0 else retry_after now j st)
unfolding retry_after success
retry_after-success c calls now key j =
    let unique : IsUnique (run c calls []) =
      run-IsUnique c calls (record { once = λ k. omega arith }) in
    ground (arith, lookup-erase key j (run c calls []) (unique.once key))
