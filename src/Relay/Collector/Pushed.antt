-- ===== src/Relay/Collector/Pushed.antt =====
-- The loop of app/relay_collector.py: its waits, and the key list that the Worker has.
use cert_generator.Prelude.{
  ℕ, ◌≤◌, ◌≡◌, refl, sym, ap, ◌∙◌, Bool, true, false, Option, none, some, List, [], ◌∷◌, Text,
  text_eq, text_eq_iff, Result, ok, refuse, arith, Bool-cases, inl, inr, Holds,
}
use cert_generator.Pal.Json.{Fields}
use cert_generator.Relay.Collector.{
  Surroundings, Answers, Collector, Loop, Round, no_link, linked, Progress, going, failed, Reply,
  allowed_keys, post_replies, take_batch, run_once, after_run, round, rounds, is_pushed,
  handle_items, batch_of, with_batch,
}

module _ (around : Surroundings) where
  -- The collector knows what the Worker has: where it holds a digest, it is that of the key list on
  -- the Worker; and it never waits less than 5 or more than 300 seconds after a failure.
  pub record IsInStep (l : Loop) : Type 0 where
    pub known : Holds (λ h. around.digest l.collector.worker_keys ≡ h) l.pushed
    pub at_least : 5 ≤ l.backoff
    pub at_most : l.backoff ≤ 300

  post_replies-worker_keys :
      (a : Answers) (digest : Text) (c : Collector) (replies : List Reply)
      → (post_replies around a digest c replies).0.worker_keys ≡ c.worker_keys
  unfolding post_replies
  post_replies-worker_keys a digest c [] = refl
  post_replies-worker_keys a digest c (r ∷ replies) = ground arith

  post_replies-digest :
      (a : Answers) (digest h : Text) (c : Collector) (replies : List Reply)
      → (post_replies around a digest c replies).1 ≡ ok h
      → h ≡ digest
  unfolding post_replies
  post_replies-digest a digest h c [] e = ground (arith, e)
  post_replies-digest a digest h c (r ∷ replies) e = ground (arith, e)

  -- a result with the key list that the Worker had, and the digest that was handed on
  abbrev Keeps : Text → List (Text × Text) → Collector × Result Text Text → Type 0
  Keeps digest keys out = (out.0.worker_keys ≡ keys) × ((h : Text) → out.1 ≡ ok h → h ≡ digest)

  take_batch-Keeps :
      (a : Answers) (digest : Text) (c : Collector)
      → Keeps digest c.worker_keys (take_batch around a digest c)
  unfolding take_batch
  take_batch-Keeps a digest c = pulled_as a.pulled refl
    where
      progress_as :
          (items : List Fields)
          → a.pulled ≡ ok items
          → (p : Progress) → handle_items around 0 items (batch_of around c) ≡ p
          → Keeps digest c.worker_keys (take_batch around a digest c)
      progress_as items pulled (failed b error) e =
          rw (take_batch, pulled, e) (refl, λ h k. ground (arith, k))
      progress_as items pulled (going b) e =
          rw (take_batch, pulled, e)
            (
              post_replies-worker_keys a digest (with_batch around c b) b.replies,
              λ h k. post_replies-digest a digest h (with_batch around c b) b.replies k,
            )

      pulled_as :
          (r : Result Text (List Fields))
          → a.pulled ≡ r
          → Keeps digest c.worker_keys (take_batch around a digest c)
      pulled_as (refuse error) e = rw (take_batch, e) (refl, λ h k. ground (arith, k))
      pulled_as (ok items) e =
          progress_as items e (handle_items around 0 items (batch_of around c)) refl

  -- where `run_once` returns, the digest is that of the key list of the tables at its start, and
  -- that is the key list on the Worker, by its digest
  abbrev Returns : Collector → Collector × Result Text Text → Type 0
  Returns c out =
      (h : Text)
      → out.1 ≡ ok h
      → (h ≡ around.digest (allowed_keys around c.store)) × (around.digest out.0.worker_keys ≡ h)

  run_once-Returns :
      (a : Answers) (pushed : Option Text) (c : Collector)
      → Holds (λ h. around.digest c.worker_keys ≡ h) pushed
      → Returns c (run_once around a pushed c)
  unfolding run_once
  run_once-Returns a pushed c known = pushed_as pushed refl known
    where
      digest : Text
      digest = around.digest (allowed_keys around c.store)

      fresh : Collector
      fresh = record c { worker_keys = allowed_keys around c.store }

      sent_as :
          (r : Result Text (Unit {0}))
          → a.put ≡ r
          → is_pushed digest pushed ≡ false
          → Returns c (run_once around a pushed c)
      sent_as (refuse error) e differs = rw (run_once, differs, e) (λ h k. ground (arith, k))
      sent_as (ok _) e differs =
          let keeps = take_batch-Keeps a digest fresh in
          rw (run_once, differs, e)
            (λ h k. (keeps.1 h k, ap around.digest keeps.0 ∙ sym (keeps.1 h k)))

      pushed_as :
          (p : Option Text)
          → pushed ≡ p
          → Holds (λ h. around.digest c.worker_keys ≡ h) p
          → Returns c (run_once around a pushed c)
      pushed_as none e k = sent_as a.put refl (rw e refl)
      pushed_as (some old) e k = elim (Bool-cases (text_eq digest old)) [
        | inr differs ↦ sent_as a.put refl (rw e differs)
        | inl same ↦
            let keeps = take_batch-Keeps a digest c in
            let as_pushed : is_pushed digest pushed ≡ true = rw e same in
            rw (run_once, as_pushed)
              (λ h r. (
                keeps.1 h r,
                ap around.digest keeps.0
                    ∙ k
                    ∙ sym ((text_eq_iff digest old).0 same)
                    ∙ sym (keeps.1 h r),
              ))
      ]

  after_run-IsInStep :
      (c : Collector) (woken : Bool) (backoff : ℕ) (out : Collector × Result Text Text)
      → Returns c out
      → 5 ≤ backoff
      → backoff ≤ 300
      → IsInStep (after_run around woken backoff out)
  after_run-IsInStep c true backoff (c', ok h) r low high = record {
    known = tt;
    at_least = omega arith;
    at_most = omega arith;
  }
  after_run-IsInStep c false backoff (c', ok h) r low high = record {
    known = (r h refl).1;
    at_least = omega arith;
    at_most = omega arith;
  }
  after_run-IsInStep c woken backoff (c', refuse e) r low high = record {
    known = tt;
    at_least = omega arith;
    at_most = omega arith;
  }

  round-IsInStep : (r : Round) (l : Loop) → IsInStep l → IsInStep (round around r l)
  unfolding round
  round-IsInStep no_link l h = record { known = tt; at_least = h.at_least; at_most = h.at_most }
  round-IsInStep (linked a woken) l h =
      after_run-IsInStep l.collector woken l.backoff _
        (run_once-Returns a l.pushed l.collector h.known) h.at_least h.at_most

  -- After any rounds, whatever the Worker answers and wherever an exception ends a run: if the loop
  -- holds a digest, then it is that of the key list on the Worker, and the wait after a failure is
  -- between 5 and 300 seconds.
  pub rounds-IsInStep : (rs : List Round) (l : Loop) → IsInStep l → IsInStep (rounds around rs l)
  unfolding rounds
  rounds-IsInStep [] l h = h
  rounds-IsInStep (r ∷ rs) l h = rounds-IsInStep rs (round around r l) (round-IsInStep r l h)

  -- A run that returns leaves the Worker with the key list of the tables at its start, as far as
  -- the digest tells.
  pub run_once-in_step :
      (rs : List Round) (l : Loop)
      → IsInStep l
      → (a : Answers) (h : Text)
      → (run_once around a (rounds around rs l).pushed (rounds around rs l).collector).1 ≡ ok h
      → around.digest
          (run_once around a
            (rounds around rs l).pushed
            (rounds around rs l).collector).0.worker_keys
        ≡ around.digest (allowed_keys around (rounds around rs l).collector.store)
  run_once-in_step rs l h a digest e =
      let l' = rounds around rs l in
      let (same, on_worker) =
        run_once-Returns a l'.pushed l'.collector (rounds-IsInStep rs l h).known digest e in
      on_worker ∙ same
