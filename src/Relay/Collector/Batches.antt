-- ===== src/Relay/Collector/Batches.antt =====
-- One batch of app/relay_collector.py: every item is answered, counted as dropped, or not an envelope.
use cert_generator.Prelude.{
  ℕ, suc, ◌+◌, ◌≡◌, refl, ap, sym, ◌∙◌, none, some, Option, List, [], ◌∷◌, ◌++◌, arith, Bool-cases,
  inl, inr, count_where, is_none, Option-cases,
}
use mathlib.Core.List.{append-nil, append_assoc}
use cert_generator.Pal.Json.{Fields}
use cert_generator.Pal.Store.{Store}
use cert_generator.Security.RateLimiter.{allow}
use cert_generator.Relay.Dispatch.{Dispatched, dropped, replied, raised}
use cert_generator.Relay.Collector.{
  Surroundings, Batch, Progress, going, failed, Reply, Item, item_of, limiter, after_dispatch,
  handle_item, handle_items,
}

-- what became of an item: its reply, to its own device and nonce, or none, and then it is counted
abbrev IsOutcome : Item → Option Reply → Type 0
IsOutcome it none = Unit
IsOutcome it (some r) = (r.d ≡ it.device_id) × (r.n ≡ it.nonce)

-- one outcome for each item that is an envelope, in their order
pub data AreOutcomes : List Fields → List (Option Reply) → Type 0 where
  no_items : AreOutcomes [] []
  not_envelope :
      (item : Fields) (items : List Fields) (outcomes : List (Option Reply))
      → item_of item ≡ none
      → AreOutcomes items outcomes
      → AreOutcomes (item ∷ items) outcomes
  envelope :
      (item : Fields) (items : List Fields) (it : Item) (o : Option Reply)
      (outcomes : List (Option Reply))
      → item_of item ≡ some it
      → IsOutcome it o
      → AreOutcomes items outcomes
      → AreOutcomes (item ∷ items) (o ∷ outcomes)

abbrev pub replies_of : List (Option Reply) → List Reply
replies_of [] = []
replies_of (none ∷ outcomes) = replies_of outcomes
replies_of (some r ∷ outcomes) = r ∷ replies_of outcomes

-- what happened to some items
pub record IsAccounted (items : List Fields) (b b' : Batch) : Type 0 where
  pub outcomes : List (Option Reply)
  pub each : AreOutcomes items outcomes
  pub added : b'.replies ≡ b.replies ++ replies_of outcomes
  pub counted : b'.dropped_count ≡ b.dropped_count + count_where is_none outcomes

-- of one item, which has the parts `it`
record IsHandled (it : Item) (b b' : Batch) : Type 0 where
  pub outcome : Option Reply
  pub own : IsOutcome it outcome
  pub added : b'.replies ≡ b.replies ++ replies_of (outcome ∷ [])
  pub counted : b'.dropped_count ≡ b.dropped_count + count_where is_none (outcome ∷ [])

module _ (around : Surroundings) (it : Item) where
  after_dispatch-IsHandled :
      (b b' : Batch) (out : Store × Dispatched)
      → after_dispatch around it b out ≡ going b'
      → IsHandled it b b'
  after_dispatch-IsHandled b b' (s, dropped) h = record {
    outcome = none;
    own = tt;
    added = rw (append-nil) (ground (arith, h));
    counted = ground (arith, h);
  }
  after_dispatch-IsHandled b b' (s, raised message) h = ground (arith, h)
  after_dispatch-IsHandled b b' (s, replied sealed) h = record {
    outcome = some (record { n = it.nonce; d = it.device_id; reply = sealed });
    own = (refl, refl);
    added = ground (arith, h);
    counted = ground (arith, h);
  }

  handle_item-IsHandled :
      (i : ℕ) (b b' : Batch) → handle_item around i it b ≡ going b' → IsHandled it b b'
  unfolding handle_item
  handle_item-IsHandled i b b' h =
      let asked =
        allow (limiter around.tick) (around.clock i) (around.limit_key it.device_id) b.table in
      let b1 : Batch = record b { table = asked.0 } in
      elim (Bool-cases asked.1) [
        | inr refused ↦ record {
          outcome = none;
          own = tt;
          added = rw (append-nil) (ground (arith, h, refused));
          counted = ground (arith, h, refused);
        }
        | inl allowed ↦ elim (Option-cases (around.encode it.envelope)) [
          | inl bad ↦ ground (arith, h, allowed, bad)
          | inr (bytes, good) ↦
              let out = around.dispatch i bytes b1.store in
              let made : after_dispatch around it b1 out ≡ going b' =
                ground (arith, h, allowed, good) in
              let done = after_dispatch-IsHandled b1 b' out made in
              record {
                outcome = done.outcome;
                own = done.own;
                added = done.added;
                counted = done.counted;
              }
        ]
      ]

replies_of-cons :
    (o : Option Reply) (outcomes : List (Option Reply))
    → replies_of (o ∷ outcomes) ≡ replies_of (o ∷ []) ++ replies_of outcomes
replies_of-cons none outcomes = refl
replies_of-cons (some r) outcomes = refl

module _ (around : Surroundings) where
  -- one item, and the others
  IsAccounted-cons :
      (item : Fields) (items : List Fields) (it : Item) (b b1 b' : Batch)
      → item_of item ≡ some it
      → IsHandled it b b1
      → IsAccounted items b1 b'
      → IsAccounted (item ∷ items) b b'
  IsAccounted-cons item items it b b1 b' e one rest = record {
    outcomes = one.outcome ∷ rest.outcomes;
    each = envelope item items it one.outcome rest.outcomes e one.own rest.each;
    added =
        rest.added
        ∙ ap (λ (l : List Reply). l ++ replies_of rest.outcomes) one.added
        ∙ append_assoc b.replies (replies_of (one.outcome ∷ [])) (replies_of rest.outcomes)
        ∙ ap (λ (l : List Reply). b.replies ++ l) (sym (replies_of-cons one.outcome rest.outcomes));
    counted = ground (arith, one.counted, rest.counted);
  }

  IsAccounted-skip :
      (item : Fields) (items : List Fields) (b b' : Batch)
      → item_of item ≡ none
      → IsAccounted items b b'
      → IsAccounted (item ∷ items) b b'
  IsAccounted-skip item items b b' e rest = record {
    outcomes = rest.outcomes;
    each = not_envelope item items rest.outcomes e rest.each;
    added = rest.added;
    counted = rest.counted;
  }

  -- Of a batch that no exception ends, each item that is an envelope has one outcome: a reply to its
  -- own device and nonce, or none. The replies of the batch grow by just these replies, in the order
  -- of the items, and the count of those dropped by the number of the items without one.
  pub handle_items-IsAccounted :
      (i : ℕ) (items : List Fields) (b b' : Batch)
      → handle_items around i items b ≡ going b'
      → IsAccounted items b b'
  unfolding handle_items
  handle_items-IsAccounted i [] b b' h = record {
    outcomes = [];
    each = no_items;
    added = rw (append-nil) (ground (arith, h));
    counted = ground (arith, h);
  }
  handle_items-IsAccounted i (item ∷ items) b b' h =
      item_as (λ b1. handle_items-IsAccounted (suc i) items b1 b') (item_of item) refl
    where
      others : Batch → Type 0
      others b1 = IsAccounted items b1 b'

      step_as :
          ((b1 : Batch) → handle_items around (suc i) items b1 ≡ going b' → others b1)
          → (it : Item) → item_of item ≡ some it
          → (p : Progress) → handle_item around i it b ≡ p
          → IsAccounted (item ∷ items) b b'
      step_as ih it e (failed b1 message) k = ground (arith, h, e, k)
      step_as ih it e (going b1) k =
          IsAccounted-cons item items it b b1 b' e (handle_item-IsHandled around it i b b1 k)
            (ih b1 (ground (arith, h, e, k)))

      item_as :
          ((b1 : Batch) → handle_items around (suc i) items b1 ≡ going b' → others b1)
          → (o : Option Item) → item_of item ≡ o
          → IsAccounted (item ∷ items) b b'
      item_as ih none e = IsAccounted-skip item items b b' e (ih b (ground (arith, h, e)))
      item_as ih (some it) e = step_as ih it e (handle_item around i it b) refl
