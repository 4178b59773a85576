-- ===== src/Infra/LocalBroker/Races.antt =====
-- Interleavings of `Subscribe` with itself, and of `Unsubscribe` with a goroutine of `Publish`.
use zensor_server.Prelude.{
  String, true, false, ◌≡◌, ◌≢◌, none, some, inl, inr, or_else, Option-cases, insert, List, [], ◌∷◌,
  ◌++◌, contains, contains-append, string_eq, ==_iff, lookup, lookup-insert, ok, arith,
}
use zensor_server.Infra.LocalBroker.{
  send_on_closed, Subscriptor, Sender, looking, sending, Broker, or_empty, load_subscriptors,
  store_subscriptor, safe_close, close_at, unsubscribe, publish, advance,
}
use zensor_server.Infra.LocalBroker.Closing.{Reachable, Reachable-IsSound}

module _ {M : Type 0} where
  -- When two calls of `Subscribe` for a topic both load its subscriptors before either stores them,
  -- and the identifiers are new and differ, then the first subscription is lost: it was returned, but
  -- a later `Publish` on the topic starts a goroutine that passes it over.
  pub subscription_lost :
      (topic first second : String) (msg : M) (b : Broker M)
      → contains (load_subscriptors topic b) first ≡ false
      → first ≢ second
      → let loaded = load_subscriptors topic b in
        let b' = store_subscriptor topic second loaded (store_subscriptor topic first loaded b) in
        (ids : List String) × ((publish topic msg b').1.senders ≡ b.senders ++ looking ids msg ∷ [])
        × (contains ids first ≡ false)
        × (contains ids second ≡ true)
  unfolding load_subscriptors store_subscriptor publish
  subscription_lost topic first second msg b new different =
      let loaded = or_empty (lookup topic b.topics) in
      (
        loaded ++ second ∷ [],
        ground (
          arith,
          lookup-insert topic topic (loaded ++ second ∷ [])
              (insert topic (loaded ++ first ∷ []) b.topics),
          ==_iff topic topic,
        ),
        ground (
          arith,
          contains-append loaded (second ∷ []) first,
          new,
          ==_iff second first,
          different,
        ),
        ground (arith, contains-append loaded (second ∷ []) second, ==_iff second second),
      )

  -- When a goroutine of `Publish` waits in a send to an active subscriptor, in a broker that has been
  -- reached without a panic, then `Unsubscribe` of that subscriptor succeeds, and the next step of
  -- the goroutine panics with a send on a closed channel.
  pub blocked_send_panics :
      (earlier : List (Sender M)) (topic id : String) (ids : List String) (msg : M)
      (later : List (Sender M)) (b : Broker M) {s : Subscriptor M}
      → Reachable b
      → b.panic ≡ none
      → b.senders ≡ earlier ++ sending id ids msg ∷ later
      → contains (load_subscriptors topic b) id ≡ true
      → lookup id b.subscriptors ≡ some s
      → s.active ≡ true
      → ((unsubscribe topic id b).0 ≡ ok tt)
        × ((unsubscribe topic id b).1.senders ≡ b.senders)
        × ((advance earlier (sending id ids msg) later (unsubscribe topic id b).1).panic
            ≡ some send_on_closed)
  unfolding load_subscriptors unsubscribe close_at safe_close advance
  blocked_send_panics earlier topic id ids msg later b {s} r calm waits listed e active =
      let settled = (Reachable-IsSound b r).settled id s e in
      let not_once : s.once ≡ false = ground (arith, settled.once_active, active) in
      let not_closed : s.closed ≡ false = ground (arith, settled.once_closed, not_once) in
      let s' : Subscriptor M = record s { once = true; active = false; closed = true } in
      elim (Option-cases (lookup topic b.topics)) [
        | inl u ↦ absurd (ground (arith, u, listed))
        | inr (known, u) ↦
            let inside : contains known id ≡ true = ground (arith, u, listed) in
            let closed : close_at id b ≡ record b {
              subscriptors = insert id s' b.subscriptors;
              panic = or_else b.panic none;
            } =
              ground (arith, e, not_once, not_closed) in
            (
              ground (arith, u, inside),
              ground (arith, u, inside, closed),
              ground (
                arith,
                u,
                inside,
                closed,
                calm,
                lookup-insert id id s' b.subscriptors,
                ==_iff id id,
              ),
            )
      ]
