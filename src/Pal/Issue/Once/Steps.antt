-- ===== src/Pal/Issue/Once/Steps.antt =====
-- However the threads of `_issue` (app/routes/pal.py) interleave, a request is signed at most once.
use cert_generator.Prelude.{
  ℕ, ◌≤◌, ◌≡◌, refl, true, false, not, ◌&&◌, ◌||◌, Option, none, some, List, [], ◌∷◌, arith,
  count_where, ◌==◌, count_mono, count-none, count-or-le, Bool-cases, inl, inr, ==_iff, ◌∙◌,
}
use cert_generator.Pal.Tables.{Status, Request}
use cert_generator.Pal.Store.{Store}
use cert_generator.Pal.Store.Rows.{in_status, transition_pal_request}
use cert_generator.Pal.Store.Calls.{Call, apply}
use cert_generator.Pal.Issue.{
  System, start, begin_issue, fail_issue, finish_issue, times, remove_first, IsOther, Step, begin,
  sign, fail, finish, other, Reach, here, next,
}
use cert_generator.Pal.Issue.Once.{IsOnce, times-remove_first, count-transition}
use cert_generator.Pal.Issue.Once.Quiet.{apply-IsQuiet}

-- A transition of one request leaves the counts of every other id.
transition-other :
    (now id j : ℕ) (from to status : Status) (cert : Option ℕ) (s : Store)
    → (id == j) ≡ false
    → count_where (in_status j status) (transition_pal_request now id from to cert [] s).0.requests
      ≡ count_where (in_status j status) s.requests
transition-other now id j from to status cert s differ =
    count-transition now id from to cert [] s j (in_status j status) status (λ r. ground arith)

-- Such a transition keeps the invariant of every other id.
other_id-IsOnce :
    (j now id : ℕ) (from to : Status) (cert : Option ℕ) (sys : System) (begun signed : List ℕ)
    → IsOnce j sys
    → (id == j) ≡ false
    → times j begun ≡ times j sys.begun
    → times j signed ≡ times j sys.signed
    → IsOnce j (record {
      store = (transition_pal_request now id from to cert [] sys.store).0;
      begun = begun;
      signed = signed;
    })
other_id-IsOnce j now id from to cert sys begun signed h differ same_begun same_signed = record {
  right =
      rw (same_begun, same_signed)
        (unfold transition_pal_request in
          rw (transition-other now id j from to Status.pending cert sys.store differ) h.right);
  held =
      rw (same_begun, same_signed)
        (rw (transition-other now id j from to Status.issuing cert sys.store differ) h.held);
}

module _ (now id : ℕ) (sys : System) (h : IsOnce id sys) where
  begin-own :
      (begin_issue now id sys.store).1 ≡ true
      → IsOnce id (record sys { store = (begin_issue now id sys.store).0; begun = id ∷ sys.begun })
  unfolding begin_issue transition_pal_request
  begin-own won =
      let waits = in_status id Status.pending in
      let busy = in_status id Status.issuing in
      let gone : count_where waits (begin_issue now id sys.store).0.requests ≡ 0 =
        count-transition now id Status.pending Status.issuing none [] sys.store id (λ r. false)
          Status.pending (λ r. ground arith)
        ∙ count-none (λ (r : Request). false) (λ r. refl) sys.store.requests in
      let moved =
        count-transition now id Status.pending Status.issuing none [] sys.store id
          (λ r. waits r || busy r) Status.issuing (λ r. ground arith) in
      let bound = count-or-le waits busy sys.store.requests in
      record {
        right = ground (arith, h.right, gone);
        held = ground (arith, h.right, h.held, moved, bound);
      }

  fail-own :
      1 ≤ times id sys.begun
      → IsOnce id
          (record sys { store = fail_issue now id sys.store; begun = remove_first id sys.begun })
  unfolding fail_issue transition_pal_request
  fail-own own =
      let waits = in_status id Status.pending in
      let busy = in_status id Status.issuing in
      let gone : count_where busy (fail_issue now id sys.store).requests ≡ 0 =
        count-transition now id Status.issuing Status.pending none [] sys.store id (λ r. false)
          Status.issuing (λ r. ground arith)
        ∙ count-none (λ (r : Request). false) (λ r. refl) sys.store.requests in
      let moved =
        count-transition now id Status.issuing Status.pending none [] sys.store id
          (λ r. waits r || busy r) Status.pending (λ r. ground arith) in
      let bound = count-or-le waits busy sys.store.requests in
      let left = times-remove_first id id sys.begun in
      record {
        right = ground (arith, h.right, h.held, moved, bound, left, own);
        held = ground (arith, gone);
      }

module _ (j now id : ℕ) (sys : System) (h : IsOnce j sys) where
  begin-IsOnce :
      (begin_issue now id sys.store).1 ≡ true
      → IsOnce j (record sys { store = (begin_issue now id sys.store).0; begun = id ∷ sys.begun })
  unfolding begin_issue
  begin-IsOnce won = elim (Bool-cases (id == j)) [
    | inr differ ↦
        other_id-IsOnce j now id Status.pending Status.issuing none sys (id ∷ sys.begun) sys.signed
          h differ (ground arith) refl
    | inl same ↦
        let e : id ≡ j = (==_iff id j).0 same in rw (← e) (begin-own now id sys (rw e h) won)
  ]

  fail-IsOnce :
      1 ≤ times id sys.begun
      → IsOnce j
          (record sys { store = fail_issue now id sys.store; begun = remove_first id sys.begun })
  unfolding fail_issue
  fail-IsOnce own = elim (Bool-cases (id == j)) [
    | inr differ ↦
        other_id-IsOnce j now id Status.issuing Status.pending none sys (remove_first id sys.begun)
          sys.signed h differ (ground (arith, times-remove_first id j sys.begun)) refl
    | inl same ↦
        let e : id ≡ j = (==_iff id j).0 same in rw (← e) (fail-own now id sys (rw e h) own)
  ]

  finish-IsOnce : (cert : ℕ) → IsOnce j (record sys { store = finish_issue now id cert sys.store })
  unfolding finish_issue transition_pal_request
  finish-IsOnce cert =
      let busy =
        λ (r : Request). in_status j Status.issuing r && not (in_status id Status.issuing r) in
      let kept =
        count-transition now id Status.issuing Status.issued (some cert) [] sys.store j
          (in_status j Status.pending) Status.pending (λ r. ground arith) in
      let moved =
        count-transition now id Status.issuing Status.issued (some cert) [] sys.store j busy
          Status.issuing (λ r. ground arith) in
      let bound =
        count_mono busy (in_status j Status.issuing) (λ r e. ground arith) sys.store.requests in
      record { right = ground (arith, h.right, kept); held = ground (arith, h.held, moved, bound) }

  sign-IsOnce :
      1 ≤ times id sys.begun
      → IsOnce j (record sys { begun = remove_first id sys.begun; signed = id ∷ sys.signed })
  sign-IsOnce own =
      let left = times-remove_first id j sys.begun in
      let e = ==_iff id j in
      record {
        right = ground (arith, h.right, left, own);
        held = ground (arith, h.held, left, own);
      }

  other-IsOnce :
      (call : Call) → IsOther call → IsOnce j (record sys { store = apply call sys.store })
  other-IsOnce call o =
      let quiet = apply-IsQuiet j sys.store call o in
      record {
        right = omega (arith, h.right, quiet.right);
        held = omega (arith, h.held, quiet.held);
      }

Step-IsOnce : (j : ℕ) {from to : System} → Step from to → IsOnce j from → IsOnce j to
Step-IsOnce j (begin sys now id won) h = begin-IsOnce j now id sys h won
Step-IsOnce j (sign sys id own) h = sign-IsOnce j 0 id sys h own
Step-IsOnce j (fail sys now id own) h = fail-IsOnce j now id sys h own
Step-IsOnce j (finish sys now id cert own) h = finish-IsOnce j now id sys h cert
Step-IsOnce j (other sys call o) h = other-IsOnce j 0 0 sys h call o

start-IsOnce : (j : ℕ) (cas : List ℕ) → IsOnce j (start cas)
start-IsOnce j cas = record { right = ground arith; held = omega arith }

Reach-IsOnce : (j : ℕ) (cas : List ℕ) {sys : System} → Reach (start cas) sys → IsOnce j sys
Reach-IsOnce j cas here = start-IsOnce j cas
Reach-IsOnce j cas (next r step) = Step-IsOnce j step (Reach-IsOnce j cas r)

-- In every state that the threads can reach from empty tables, in whatever order their steps and
-- the other calls come, each request was signed at most once.
pub signed-le :
    (cas : List ℕ) (sys : System) (id : ℕ) → Reach (start cas) sys → times id sys.signed ≤ 1
signed-le cas sys id r = let h = Reach-IsOnce id cas r in omega (arith, h.right)
