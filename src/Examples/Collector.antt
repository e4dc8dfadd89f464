-- ===== src/Examples/Collector.antt =====
-- Runs of app/relay_collector.py.
use cert_generator.Prelude.{
  ◌≡◌, refl, some, none, false, List, [], ◌∷◌, String, Text, codes, ok, refuse, arith,
}
use cert_generator.Pal.Json.{Fields, text, whole, field, no_fields}
use cert_generator.Pal.Store.{list_pal_remote_keys}
use cert_generator.Security.RateLimiter.{allow}
use cert_generator.Relay.Dispatch.{replied}
use cert_generator.Relay.Collector.{
  Surroundings, Answers, Collector, Loop, Round, no_link, linked, Batch, going, Reply, allowed_keys,
  handle_item, handle_items, item_of, take_batch, post_replies, run_once, round, rounds,
}
use cert_generator.Relay.Collector.Pushed.{IsInStep, run_once-in_step}
use cert_generator.Relay.Collector.Batches.{IsAccounted, handle_items-IsAccounted}
use cert_generator.Examples.Dispatch.{tables}

-- every envelope is answered
abbrev around : Surroundings
around = record {
  b64encode = λ s. s;
  digest = λ keys. codes (if_any keys);
  encode = some;
  limit_key = λ s. "relay";
  tick = 1;
  clock = λ i. 0;
  dispatch = λ i envelope s. (s, replied (codes "sealed"));
}
  where
    if_any : List (Text × Text) → String
    if_any [] = "none"
    if_any (k ∷ ks) = "some"

abbrev item : Text → Fields
item d =
    field (codes "d") (text d)
      (field (codes "n") (text (codes "nonce")) (field (codes "env") (text (codes "{}")) no_fields))

-- an envelope, and an item without one
abbrev items : List Fields
items = item (codes "pc1") ∷ field (codes "d") (whole 3) no_fields ∷ []

abbrev before : Batch
before = record { store = tables; table = []; dropped_count = 2; replies = [] }

abbrev first_reply : Reply
first_reply = record { n = codes "nonce"; d = codes "pc1"; reply = codes "sealed" }

abbrev after : Batch
after = record before {
  table = ("relay", record { start = 0; count = 1 }) ∷ [];
  replies = first_reply ∷ [];
}

handled : handle_items around 0 items before ≡ going after
unfolding handle_items handle_item item_of allow
handled = refl

handle_items-IsAccounted_example : IsAccounted items before after
handle_items-IsAccounted_example = handle_items-IsAccounted around 0 items before after handled

abbrev answers : Answers
answers = record { put = ok tt; left = []; pulled = ok items; posted = ok tt; finished = 5 }

abbrev unreachable : Answers
unreachable = record answers {
  pulled = refuse (codes "Can't reach the relay (details in the server log)");
}

abbrev idle : Collector
idle = record {
  store = tables;
  table = [];
  handled = 0;
  dropped_count = 0;
  last_ok = none;
  last_error = none;
  worker_keys = [];
  sent = [];
}

abbrev started : Loop
started = record { collector = idle; pushed = none; backoff = 5 }

started-IsInStep : IsInStep around started
started-IsInStep = record { known = tt; at_least = omega arith; at_most = omega arith }

abbrev some_rounds : List Round
some_rounds = no_link ∷ linked unreachable false ∷ linked answers false ∷ []

returns :
    (run_once around answers
      (rounds around some_rounds started).pushed
      (rounds around some_rounds started).collector).1
    ≡ ok (codes "some")
unfolding run_once rounds round take_batch post_replies handle_items handle_item item_of allow
    allowed_keys list_pal_remote_keys
returns = refl

run_once-in_step_example :
    around.digest
      (run_once around answers
        (rounds around some_rounds started).pushed
        (rounds around some_rounds started).collector).0.worker_keys
    ≡ around.digest (allowed_keys around (rounds around some_rounds started).collector.store)
run_once-in_step_example =
    run_once-in_step around some_rounds started started-IsInStep answers (codes "some") returns
