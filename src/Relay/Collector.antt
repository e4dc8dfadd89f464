-- ===== src/Relay/Collector.antt =====
-- app/relay_collector.py: the thread that takes envelopes from the relay Worker and posts the replies.
pub mod Pushed
pub mod Batches
use cert_generator.Prelude.{
  ℕ, zero, suc, ◌+◌, ◌*◌, min, Bool, true, false, not, Option, none, some, List, [], ◌∷◌, ◌++◌, map,
  length, is_empty, if◌then◌else◌, String, Text, codes, text_eq, Result, ok, refuse, is_some,
}
use cert_generator.Pal.Json.{Json, Fields, text, get}
use cert_generator.Pal.Store.{Store, list_pal_remote_keys}
use cert_generator.Security.RateLimiter.{Config, Table, allow}
use cert_generator.Relay.Dispatch.{Dispatched, dropped, replied, raised}

-- `_limiter`, in ticks of `tick` to a second
abbrev pub limiter : ℕ → Config
limiter tick = record { limit = 30; window = 60 * tick; max_keys = 10000 }

-- What is not of this module: base64, the digest of a key list as sorted JSON, `str.encode`, the
-- text of a limiter's key, and `relay_dispatch` for the item of this number, at its time.
pub record Surroundings : Type 0 where
  pub b64encode : Text → Text
  pub digest : List (Text × Text) → Text
  pub encode : Text → Option Text
  pub limit_key : Text → String
  pub tick : ℕ
  pub clock : ℕ → ℕ  -- `time.monotonic()` at the item of this number
  pub dispatch : ℕ → Text → Store → Store × Dispatched

pub record Reply : Type 0 where
  pub n : Text
  pub d : Text
  pub reply : Text

-- what the loop over a batch changes
pub record Batch : Type 0 where
  pub store : Store
  pub table : Table
  pub dropped_count : ℕ
  pub replies : List Reply

-- the batch so far, or the exception that ends it
pub data Progress : Type 0 where
  going : Batch → Progress
  failed : Batch → Text → Progress

-- the texts of an item: "d", "n" and "env"
pub record Item : Type 0 where
  pub device_id : Text
  pub nonce : Text
  pub envelope : Text

abbrev text_at : Text → Fields → Option Text
text_at key item = elim (get key item) [ some (text s) ↦ some s | _ ↦ none ]

unfoldable pub item_of : Fields → Option Item
item_of item = elim (text_at (codes "d") item) [
  | none ↦ none
  | some d ↦ elim (text_at (codes "n") item) [
    | none ↦ none
    | some n ↦ elim (text_at (codes "env") item) [
      | none ↦ none
      | some env ↦ some (record { device_id = d; nonce = n; envelope = env })
    ]
  ]
]

-- what the Worker answers in one run: to the key list, to the pull, and to the replies. A call
-- that raises may have reached the Worker: `left` are the keys that it then has.
pub record Answers : Type 0 where
  pub put : Result Text (Unit {0})
  pub left : List (Text × Text)
  pub pulled : Result Text (List Fields)
  pub posted : Result Text (Unit {0})
  pub finished : ℕ  -- `time.time()`

-- the collector: the tables and the limiter, its status, and what the Worker has
pub record Collector : Type 0 where
  pub store : Store
  pub table : Table
  pub handled : ℕ
  pub dropped_count : ℕ
  pub last_ok : Option ℕ
  pub last_error : Option Text
  pub worker_keys : List (Text × Text)
  pub sent : List Reply  -- the replies that were posted, in their order

pub record Loop : Type 0 where
  pub collector : Collector
  pub pushed : Option Text
  pub backoff : ℕ

-- one round: no link, or what the Worker answers and whether `_wake` is set at the end
pub data Round : Type 0 where
  no_link : Round
  linked : Answers → Bool → Round

-- `digest == pushed`
abbrev pub is_pushed : Text → Option Text → Bool
is_pushed digest none = false
is_pushed digest (some old) = text_eq digest old

module _ (around : Surroundings) where
  -- `_note(dropped=…)`
  abbrev count_dropped : Batch → Batch
  count_dropped b = record b { dropped_count = suc b.dropped_count }

  abbrev after_dispatch : Item → Batch → Store × Dispatched → Progress
  after_dispatch item b (s, dropped) = going (count_dropped (record b { store = s }))
  after_dispatch item b (s, raised message) = failed (record b { store = s }) message
  after_dispatch item b (s, replied sealed) = going (record b {
    store = s;
    replies = b.replies ++ record { n = item.nonce; d = item.device_id; reply = sealed } ∷ [];
  })

  -- one item that is well formed
  unfoldable pub handle_item : ℕ → Item → Batch → Progress
  handle_item i item b =
      let (table, allowed) =
        allow (limiter around.tick) (around.clock i) (around.limit_key item.device_id) b.table in
      let b' : Batch = record b { table = table } in
      if not allowed then going (count_dropped b') else elim (around.encode item.envelope) [
        | none ↦ failed b' (codes "UnicodeEncodeError")
        | some bytes ↦ after_dispatch item b' (around.dispatch i bytes b'.store)
      ]

  unfoldable pub handle_items : ℕ → List Fields → Batch → Progress
  handle_items i [] b = going b
  handle_items i (item ∷ items) b = elim (item_of item) [
    | none ↦ handle_items (suc i) items b
    | some it ↦ elim (handle_item i it b) [
      | failed b' message ↦ failed b' message
      | going b' ↦ handle_items (suc i) items b'
    ]
  ]

  unfoldable pub allowed_keys : Store → List (Text × Text)
  allowed_keys s = map (λ (p : Text × Text). (p.0, around.b64encode p.1)) (list_pal_remote_keys s)

  abbrev pub batch_of : Collector → Batch
  batch_of c = record {
    store = c.store;
    table = c.table;
    dropped_count = c.dropped_count;
    replies = [];
  }

  abbrev pub with_batch : Collector → Batch → Collector
  with_batch c b = record c { store = b.store; table = b.table; dropped_count = b.dropped_count }

  -- the end of `run_once`: the replies are posted
  unfoldable pub post_replies :
      Answers → Text → Collector → List Reply → Collector × Result Text Text
  post_replies a digest c [] =
      (record c { last_ok = some a.finished; last_error = none }, ok digest)
  post_replies a digest c (r ∷ replies) = elim a.posted [
    | refuse error ↦ (c, refuse error)
    | ok _ ↦ (
      record c {
        handled = c.handled + length (r ∷ replies);
        sent = c.sent ++ r ∷ replies;
        last_ok = some a.finished;
        last_error = none;
      },
      ok digest,
    )
  ]

  unfoldable pub take_batch : Answers → Text → Collector → Collector × Result Text Text
  take_batch a digest c = elim a.pulled [
    | refuse error ↦ (c, refuse error)
    | ok items ↦ elim (handle_items 0 items (batch_of c)) [
      | failed b error ↦ (with_batch c b, refuse error)
      | going b ↦ post_replies a digest (with_batch c b) b.replies
    ]
  ]

  unfoldable pub run_once : Answers → Option Text → Collector → Collector × Result Text Text
  run_once a pushed c =
      let keys = allowed_keys c.store in
      let digest = around.digest keys in
      if is_pushed digest pushed then take_batch a digest c else elim a.put [
        | refuse error ↦ (record c { worker_keys = a.left }, refuse error)
        | ok _ ↦ take_batch a digest (record c { worker_keys = keys })
      ]

  -- The loop of `start` -------------------------------------------------------------------------

  -- after `run_once`, or in the handler of its exception
  abbrev pub after_run : Bool → ℕ → Collector × Result Text Text → Loop
  after_run woken backoff (c, ok digest) = record {
    collector = c;
    pushed = if woken then none else some digest;
    backoff = 5;
  }
  after_run woken backoff (c, refuse error) = record {
    collector = record c { last_error = some error };
    pushed = none;
    backoff = min (backoff * 2) 300;
  }

  unfoldable pub round : Round → Loop → Loop
  round no_link l = record l { pushed = none }
  round (linked a woken) l = after_run woken l.backoff (run_once a l.pushed l.collector)

  unfoldable pub rounds : List Round → Loop → Loop
  unfolding round
  rounds [] l = l
  rounds (r ∷ rs) l = rounds rs (round r l)
