-- ===== src/Infra/LocalBroker/Closing.antt =====
-- What holds in every broker that the methods and the goroutines reach: the channels and their
-- closing, and the subscriptors of a topic.
use zensor_server.Prelude.{
  String, true, false, not, ◌≡◌, refl, ◌≢◌, subst, ◌≤◌, count, contains-append, count-append,
  contains-count, inl, inr, Option, none, some, or_else, List, [], ◌∷◌, ◌++◌, contains,
  Option-cases, Bool-cases, if_cases, string_eq, ◌==◌, ==_iff, Dict, lookup, insert, lookup-insert,
  is_some, arith,
}
use zensor_server.Infra.LocalBroker.{
  Panic, send_on_closed, close_of_closed, Subscriptor, Sender, looking, sending, Broker, new_broker,
  or_empty, load_subscriptors, store_subscriptor, subscribe, close, safe_close, close_at,
  unsubscribe_from, unsubscribe, publish_to, publish, close_all, close_topics, stop, take, advance,
}

or_else-open :
    (p q : Option Panic)
    → p ≢ some close_of_closed
    → q ≢ some close_of_closed
    → or_else p q ≢ some close_of_closed
or_else-open none q hp hq = hq
or_else-open (some x) q hp hq = hp

module _ {M : Type 0} where
  -- `once` has run exactly if the channel is closed, and exactly then the subscriptor is inactive.
  pub record IsSettled (s : Subscriptor M) : Type 0 where
    pub once_closed : s.closed ≡ s.once
    pub once_active : s.active ≡ not s.once

  abbrev pub AllSettled : Dict String (Subscriptor M) → Type 0
  AllSettled d = (id : String) (s : Subscriptor M) → lookup id d ≡ some s → IsSettled s

  pub record IsSound (b : Broker M) : Type 0 where
    pub settled : AllSettled b.subscriptors
    pub known :
        (topic id : String)
        → contains (or_empty (lookup topic b.topics)) id ≡ true
        → is_some (lookup id b.subscriptors) ≡ true
    pub distinct : (topic id : String) → count id (or_empty (lookup topic b.topics)) ≤ 1
    pub closed_once : b.panic ≢ some close_of_closed

  -- The brokers that the methods and the steps of the goroutines build from a new one. The
  -- identifiers of `Subscribe` are new.
  pub data Reachable : Broker M → Type 0 where
    started : Reachable new_broker
    subscribed :
        (topic uuid : String) (b : Broker M)
        → lookup uuid b.subscriptors ≡ none
        → Reachable b
        → Reachable (subscribe topic uuid b)
    unsubscribed :
        (topic id : String) (b : Broker M) → Reachable b → Reachable (unsubscribe topic id b).1
    published :
        (topic : String) (msg : M) (b : Broker M) → Reachable b → Reachable (publish topic msg b).1
    stopped : (b : Broker M) → Reachable b → Reachable (stop b)
    advanced :
        (earlier : List (Sender M)) (s : Sender M) (later : List (Sender M)) (b : Broker M)
        → b.senders ≡ earlier ++ s ∷ later
        → Reachable b
        → Reachable (advance earlier s later b)

  new_broker-IsSound : IsSound new_broker
  unfolding new_broker lookup
  new_broker-IsSound = record {
    settled = λ id s h. cc;
    known = λ topic id h. cc;
    distinct = λ topic id. omega arith;
    closed_once = λ h. cc;
  }

  pub insert-AllSettled :
      (id : String) (s : Subscriptor M) (d : Dict String (Subscriptor M))
      → IsSettled s
      → AllSettled d
      → AllSettled (insert id s d)
  insert-AllSettled id s d new h other t e = elim (Bool-cases (id == other)) [
    | inl q ↦
        let same : s ≡ t = ground (arith, lookup-insert id other s d, q, e) in
        subst IsSettled same new
    | inr q ↦ h other t (ground (arith, lookup-insert id other s d, q, e))
  ]

  -- A listed subscriptor is replaced by a settled one.
  put-IsSound :
      (id : String) (old s : Subscriptor M) (p : Option Panic) (senders : List (Sender M))
      (b : Broker M)
      → lookup id b.subscriptors ≡ some old
      → IsSettled s
      → p ≢ some close_of_closed
      → IsSound b
      → IsSound
          (record b { subscriptors = insert id s b.subscriptors; panic = p; senders = senders })
  put-IsSound id old s p senders b e new q h = record {
    settled = insert-AllSettled id s b.subscriptors new h.settled;
    known = λ topic other c.
        ground (arith, h.known topic other c, lookup-insert id other s b.subscriptors);
    distinct = h.distinct;
    closed_once = q;
  }

  subscribe-IsSound :
      (topic uuid : String) (b : Broker M)
      → lookup uuid b.subscriptors ≡ none
      → IsSound b
      → IsSound (subscribe topic uuid b)
  unfolding subscribe store_subscriptor load_subscriptors
  subscribe-IsSound topic uuid b fresh h =
      let ids = or_empty (lookup topic b.topics) in
      let unlisted : contains ids uuid ≡ false = ground (arith, h.known topic uuid, fresh) in
      let s : Subscriptor M = record {
        once = false;
        active = true;
        closed = false;
        received = [];
      } in
      record {
        settled =
            insert-AllSettled uuid s b.subscriptors
              (record { once_closed = refl; once_active = refl }) h.settled;
        known = λ other id c. ground (
          arith,
          lookup-insert topic other (ids ++ uuid ∷ []) b.topics,
          lookup-insert uuid id s b.subscriptors,
          contains-append ids (uuid ∷ []) id,
          h.known topic id,
          h.known other id,
          c,
        );
        distinct = λ other id. ground (
          arith,
          lookup-insert topic other (ids ++ uuid ∷ []) b.topics,
          count-append id ids (uuid ∷ []),
          contains-count ids uuid unlisted,
          ==_iff uuid id,
          h.distinct topic id,
          h.distinct other id,
        );
        closed_once = h.closed_once;
      }

  abbrev ClosesWell : Option Panic × Subscriptor M → Type 0
  ClosesWell (p, s) = IsSettled s × (p ≡ none)

  safe_close-ClosesWell : (s : Subscriptor M) → IsSettled s → ClosesWell (safe_close s)
  unfolding safe_close
  safe_close-ClosesWell s h =
      let once_run : Subscriptor M = record s { once = true; active = false } in
      if_cases ClosesWell s.once (none, s) (close once_run) (λ e. (h, refl))
        (λ e.
          if_cases ClosesWell s.closed (some close_of_closed, once_run)
            (none, record once_run { closed = true })
            (λ c. absurd (ground (arith, h.once_closed, e, c)))
            (λ c. (record { once_closed = refl; once_active = refl }, refl)))

  close_at-IsSound : (id : String) (b : Broker M) → IsSound b → IsSound (close_at id b)
  unfolding close_at
  close_at-IsSound id b h = elim (Option-cases (lookup id b.subscriptors)) [
    | inl e ↦ rw e h
    | inr (s, e) ↦
        let (settled, no_panic) = safe_close-ClosesWell s (h.settled id s e) in
        rw e (
          put-IsSound id s (safe_close s).1 (or_else b.panic (safe_close s).0) b.senders b e settled
            (or_else-open b.panic (safe_close s).0 h.closed_once (λ x. ground (arith, no_panic, x)))
            h)
  ]

  unsubscribe_from-IsSound :
      (id : String) (found : Option (List String)) (b : Broker M)
      → IsSound b
      → IsSound (unsubscribe_from id found b).1
  unsubscribe_from-IsSound id none b h = h
  unsubscribe_from-IsSound id (some ids) b h = elim (Bool-cases (contains ids id)) [
    | inl e ↦ rw e (close_at-IsSound id b h)
    | inr e ↦ rw e h
  ]

  -- What the goroutines are about to do does not matter.
  senders-IsSound :
      (senders : List (Sender M)) (b : Broker M)
      → IsSound b
      → IsSound (record b { senders = senders })
  senders-IsSound senders b h = record {
    settled = h.settled;
    known = h.known;
    distinct = h.distinct;
    closed_once = h.closed_once;
  }

  publish_to-IsSound :
      (found : Option (List String)) (msg : M) (b : Broker M)
      → IsSound b
      → IsSound (publish_to found msg b).1
  publish_to-IsSound none msg b h = h
  publish_to-IsSound (some ids) msg b h = senders-IsSound (b.senders ++ looking ids msg ∷ []) b h

  close_all-IsSound : (ids : List String) (b : Broker M) → IsSound b → IsSound (close_all ids b)
  close_all-IsSound [] b h = h
  close_all-IsSound (id ∷ ids) b h = close_all-IsSound ids (close_at id b) (close_at-IsSound id b h)

  close_topics-IsSound :
      (topics : Dict String (List String)) (b : Broker M)
      → IsSound b
      → IsSound (close_topics topics b)
  close_topics-IsSound [] b h = h
  close_topics-IsSound ((_, ids) ∷ topics) b h =
      close_topics-IsSound topics (close_all ids b) (close_all-IsSound ids b h)

  panic-IsSound :
      (b : Broker M)
      → IsSound b
      → IsSound (record b { panic = or_else b.panic (some send_on_closed) })
  panic-IsSound b h = record {
    settled = h.settled;
    known = h.known;
    distinct = h.distinct;
    closed_once = or_else-open b.panic (some send_on_closed) h.closed_once (λ x. cc);
  }

  take-IsSound :
      (id : String) (next : List (Sender M)) (msg : M) (b : Broker M)
      → IsSound b
      → IsSound (take id next msg (lookup id b.subscriptors) b)
  take-IsSound id next msg b h = elim (Option-cases (lookup id b.subscriptors)) [
    | inl e ↦ rw e h
    | inr (s, e) ↦
        let old = h.settled id s e in
        let s' : Subscriptor M = record s { received = s.received ++ msg ∷ [] } in
        rw e (
          if_cases IsSound s.closed (record b { panic = or_else b.panic (some send_on_closed) })
            (record b { subscriptors = insert id s' b.subscriptors; senders = next })
            (λ _. panic-IsSound b h)
            (λ _.
              put-IsSound id s s' b.panic next b e
                (record { once_closed = old.once_closed; once_active = old.once_active })
                h.closed_once h))
  ]

  advance-IsSound :
      (earlier : List (Sender M)) (s : Sender M) (later : List (Sender M)) (b : Broker M)
      → IsSound b
      → IsSound (advance earlier s later b)
  unfolding advance
  advance-IsSound earlier (looking [] msg) later b h = senders-IsSound (earlier ++ later) b h
  advance-IsSound earlier (looking (id ∷ ids) msg) later b h = senders-IsSound _ b h
  advance-IsSound earlier (sending id ids msg) later b h =
      take-IsSound id (earlier ++ looking ids msg ∷ later) msg b h

  pub Reachable-IsSound : (b : Broker M) → Reachable b → IsSound b
  unfolding unsubscribe publish stop
  Reachable-IsSound b started = new_broker-IsSound
  Reachable-IsSound b (subscribed topic uuid c fresh r) =
      subscribe-IsSound topic uuid c fresh (Reachable-IsSound c r)
  Reachable-IsSound b (unsubscribed topic id c r) =
      unsubscribe_from-IsSound id (lookup topic c.topics) c (Reachable-IsSound c r)
  Reachable-IsSound b (published topic msg c r) =
      publish_to-IsSound (lookup topic c.topics) msg c (Reachable-IsSound c r)
  Reachable-IsSound b (stopped c r) = close_topics-IsSound c.topics c (Reachable-IsSound c r)
  Reachable-IsSound b (advanced earlier s later c e r) =
      advance-IsSound earlier s later c (Reachable-IsSound c r)

  -- However the methods are called, each as a single step and the identifiers of `Subscribe` new, and however
  -- the goroutines of `Publish` go on, no channel is closed twice: a subscriptor that was unsubscribed, once or more, may be unsubscribed again or stopped.
  pub Reachable-closes_once : (b : Broker M) → Reachable b → b.panic ≢ some close_of_closed
  Reachable-closes_once b r = (Reachable-IsSound b r).closed_once
