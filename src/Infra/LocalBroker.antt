-- ===== src/Infra/LocalBroker.antt =====
-- internal/infra/async/internal_broker.go. A subscriptor is shared by pointer between the topics and
-- the goroutines that publish, and stands in `subscriptors` under its uuid. Each goroutine of
-- `Publish` is a `Sender`, which goes on by one test or one send at a time; a send to a channel
-- without buffer ends when its receiver has taken the message. Only `Subscribe` stores under a topic,
-- so the type assertions hold.
pub mod Closing
pub mod Delivery
pub mod Races
mod Tests
use zensor_server.Prelude.{
  String, Bool, true, false, Option, none, some, or_else, List, [], ◌∷◌, ◌++◌, contains, string_eq,
  Dict, lookup, insert, if◌then◌else◌, Result, ok, err, sentinel, topic_not_found,
  subscriptor_not_found,
}

pub data Panic : Type 0 where
  send_on_closed close_of_closed : Panic

-- `subscriptor`: `once` tells whether `once.Do` has run, `closed` whether the channel is closed, and
-- `received` is what the receiver has taken from it.
pub record Subscriptor (M : Type 0) : Type 0 where
  pub once : Bool
  pub active : Bool
  pub closed : Bool
  pub received : List M

-- A goroutine of `publishToSubscriptors`: before the test of the next subscriptor, or in the send to one.
pub data Sender (M : Type 0) : Type 0 where
  looking : List String → M → Sender M
  sending : String → List String → M → Sender M

pub record Broker (M : Type 0) : Type 0 where
  pub topics : Dict String (List String)
  pub subscriptors : Dict String (Subscriptor M)
  pub senders : List (Sender M)
  pub panic : Option Panic

abbrev pub or_empty : Option (List String) → List String
or_empty none = []
or_empty (some ids) = ids

module _ {M : Type 0} where
  -- `NewLocalBroker`
  unfoldable pub new_broker : Broker M
  new_broker = record { topics = []; subscriptors = []; senders = []; panic = none }

  -- `Subscribe` up to its load.
  unfoldable pub load_subscriptors : String → Broker M → List String
  load_subscriptors topic b = or_empty (lookup topic b.topics)

  -- `Subscribe` from the load on.
  unfoldable pub store_subscriptor : String → String → List String → Broker M → Broker M
  store_subscriptor topic uuid loaded b = record b {
    topics = insert topic (loaded ++ uuid ∷ []) b.topics;
    subscriptors =
        insert uuid (record { once = false; active = true; closed = false; received = [] })
          b.subscriptors;
  }

  -- `Subscribe`, with the generated identifier.
  unfoldable pub subscribe : String → String → Broker M → Broker M
  subscribe topic uuid b = store_subscriptor topic uuid (load_subscriptors topic b) b

  -- `close(s.subscription.Receiver)`
  abbrev pub close : Subscriptor M → Option Panic × Subscriptor M
  close s = if s.closed then (some close_of_closed, s) else (none, record s { closed = true })

  -- `safeClose`
  unfoldable pub safe_close : Subscriptor M → Option Panic × Subscriptor M
  safe_close s = if s.once then (none, s) else close (record s { once = true; active = false })

  abbrev pub put_closed : String → Option Panic × Subscriptor M → Broker M → Broker M
  put_closed id (p, s) b = record b {
    subscriptors = insert id s b.subscriptors;
    panic = or_else b.panic p;
  }

  abbrev pub close_found : String → Option (Subscriptor M) → Broker M → Broker M
  close_found id none b = b
  close_found id (some s) b = put_closed id (safe_close s) b

  -- `safeClose` of the subscriptor behind a pointer.
  unfoldable pub close_at : String → Broker M → Broker M
  close_at id b = close_found id (lookup id b.subscriptors) b

  -- `Unsubscribe` once the topic has been loaded.
  abbrev pub unsubscribe_from :
      String → Option (List String) → Broker M → Result (Unit {0}) × Broker M
  unsubscribe_from id none b = (err (sentinel topic_not_found), b)
  unsubscribe_from id (some ids) b =
      if contains ids id then (ok tt, close_at id b) else (err (sentinel subscriptor_not_found), b)

  unfoldable pub unsubscribe : String → String → Broker M → Result (Unit {0}) × Broker M
  unsubscribe topic id b = unsubscribe_from id (lookup topic b.topics) b

  abbrev pub publish_to : Option (List String) → M → Broker M → Result (Unit {0}) × Broker M
  publish_to none msg b = (err (sentinel topic_not_found), b)
  publish_to (some ids) msg b = (ok tt, record b { senders = b.senders ++ looking ids msg ∷ [] })

  unfoldable pub publish : String → M → Broker M → Result (Unit {0}) × Broker M
  publish topic msg b = publish_to (lookup topic b.topics) msg b

  abbrev pub close_all : List String → Broker M → Broker M
  close_all [] b = b
  close_all (id ∷ ids) b = close_all ids (close_at id b)

  abbrev pub close_topics : Dict String (List String) → Broker M → Broker M
  close_topics [] b = b
  close_topics ((_, ids) ∷ topics) b = close_topics topics (close_all ids b)

  unfoldable pub stop : Broker M → Broker M
  stop b = close_topics b.topics b

  abbrev pub is_active : Option (Subscriptor M) → Bool
  is_active none = false
  is_active (some s) = s.active

  -- The receiver takes the message, unless the channel has been closed.
  abbrev pub take : String → List (Sender M) → M → Option (Subscriptor M) → Broker M → Broker M
  take id next msg none b = b
  take id next msg (some s) b =
      if s.closed then record b { panic = or_else b.panic (some send_on_closed) } else record b {
        subscriptors = insert id (record s { received = s.received ++ msg ∷ [] }) b.subscriptors;
        senders = next;
      }

  -- One step of a goroutine of `publishToSubscriptors`, which stands between the senders that were
  -- started before it and after it.
  unfoldable pub advance : List (Sender M) → Sender M → List (Sender M) → Broker M → Broker M
  advance earlier (looking [] msg) later b = record b { senders = earlier ++ later }
  advance earlier (looking (id ∷ ids) msg) later b = record b {
    senders =
        earlier
        ++ (if is_active (lookup id b.subscriptors) then sending id ids msg else looking ids msg)
          ∷ later;
  }
  advance earlier (sending id ids msg) later b =
      take id (earlier ++ looking ids msg ∷ later) msg (lookup id b.subscriptors) b
