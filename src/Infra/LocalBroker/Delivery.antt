-- ===== src/Infra/LocalBroker/Delivery.antt =====
-- The goroutine of one `Publish`, run to its end without a step of anything else.
use zensor_server.Prelude.{
  ◌≤◌, String, true, false, ◌&&◌, ◌≡◌, refl, inl, inr, Option, none, some, List, [], ◌∷◌, ◌++◌,
  contains, count, count-contains, is_some, Option-cases, Bool-cases, if_cases, string_eq, ◌==◌,
  ==_iff, Dict, lookup, insert, lookup-insert, if◌then◌else◌, ok, arith,
}
use zensor_server.Infra.LocalBroker.{
  Subscriptor, Sender, looking, sending, Broker, load_subscriptors, publish, is_active, advance,
}
use zensor_server.Infra.LocalBroker.Closing.{
  AllSettled, insert-AllSettled, Reachable, Reachable-IsSound,
}

module _ {M : Type 0} where
  -- The steps of one goroutine, which no other step comes between, from a state of it to its end.
  pub data Completes (earlier later : List (Sender M))
      : Sender M → Broker M → Broker M → Type 0 where
    ends :
        (msg : M) (b : Broker M)
        → Completes earlier later (looking [] msg) b (advance earlier (looking [] msg) later b)
    goes_on :
        (s s' : Sender M) (b c b' : Broker M)
        → advance earlier s later b ≡ c
        → c.senders ≡ earlier ++ s' ∷ later
        → Completes earlier later s' c b'
        → Completes earlier later s b b'

  abbrev received_by : Option (Subscriptor M) → List M
  received_by none = []
  received_by (some s) = s.received

  -- What the receiver of a subscriptor has taken.
  unfoldable pub received_of : String → Broker M → List M
  received_of id b = received_by (lookup id b.subscriptors)

  abbrev with_message : M → Subscriptor M → Subscriptor M
  with_message msg s = record s { received = s.received ++ msg ∷ [] }

  abbrev send_to :
      String
      → M
      → Option (Subscriptor M)
      → Dict String (Subscriptor M)
      → Dict String (Subscriptor M)
  send_to id msg none d = d
  send_to id msg (some s) d = if s.active then insert id (with_message msg s) d else d

  abbrev deliver : List String → M → Dict String (Subscriptor M) → Dict String (Subscriptor M)
  deliver [] msg d = d
  deliver (id ∷ ids) msg d = deliver ids msg (send_to id msg (lookup id d) d)

  send_to-is_active :
      (i id : String) (msg : M) (d : Dict String (Subscriptor M))
      → is_active (lookup id (send_to i msg (lookup i d) d)) ≡ is_active (lookup id d)
  send_to-is_active i id msg d = elim (Option-cases (lookup i d)) [
    | inl e ↦ rw e
    | inr (s, e) ↦ ground (arith, e, lookup-insert i id (with_message msg s) d, ==_iff i id)
  ]

  send_to-received :
      (i id : String) (msg : M) (d : Dict String (Subscriptor M))
      → received_by (lookup id (send_to i msg (lookup i d) d)) ≡ (
          if i == id && is_active (lookup id d)
          then received_by (lookup id d) ++ msg ∷ []
          else received_by (lookup id d))
  send_to-received i id msg d = elim (Option-cases (lookup i d)) [
    | inl e ↦ ground (arith, e, ==_iff i id)
    | inr (s, e) ↦ ground (arith, e, lookup-insert i id (with_message msg s) d, ==_iff i id)
  ]

  deliver-received :
      (ids : List String) (id : String) (msg : M) (d : Dict String (Subscriptor M))
      → count id ids ≤ 1
      → received_by (lookup id (deliver ids msg d)) ≡ (
          if contains ids id && is_active (lookup id d)
          then received_by (lookup id d) ++ msg ∷ []
          else received_by (lookup id d))
  deliver-received [] id msg d h = refl
  deliver-received (i ∷ ids) id msg d h = ground (
    arith,
    h,
    ==_iff i id,
    count-contains ids id,
    deliver-received ids id msg (send_to i msg (lookup i d) d),
    send_to-received i id msg d,
    send_to-is_active i id msg d,
  )

  send_to-AllSettled :
      (i : String) (msg : M) (d : Dict String (Subscriptor M))
      → AllSettled d
      → AllSettled (send_to i msg (lookup i d) d)
  send_to-AllSettled i msg d h = elim (Option-cases (lookup i d)) [
    | inl e ↦ rw e h
    | inr (s, e) ↦
        let old = h i s e in
        rw e (
          if_cases AllSettled s.active (insert i (with_message msg s) d) d
            (λ _.
              insert-AllSettled i (with_message msg s) d
                (record { once_closed = old.once_closed; once_active = old.once_active }) h)
            (λ _. h))
  ]

  -- The test of one subscriptor, and the send to it if it is active.
  pass_one :
      (earlier later : List (Sender M)) (id : String) (ids : List String) (msg : M)
      (b b' : Broker M)
      → AllSettled b.subscriptors
      → Completes earlier later
          (looking ids msg)
          (record b {
            subscriptors = send_to id msg (lookup id b.subscriptors) b.subscriptors;
            senders = earlier ++ looking ids msg ∷ later;
          })
          b'
      → Completes earlier later (looking (id ∷ ids) msg) b b'
  unfolding advance
  pass_one earlier later id ids msg b b' h rest =
      let next : Broker M = record b {
        subscriptors = send_to id msg (lookup id b.subscriptors) b.subscriptors;
        senders = earlier ++ looking ids msg ∷ later;
      } in
      let waiting : Broker M = record b { senders = earlier ++ sending id ids msg ∷ later } in
      elim (Option-cases (lookup id b.subscriptors)) [
        | inl e ↦
            goes_on (looking (id ∷ ids) msg) (looking ids msg) b next b' (ground (arith, e)) refl
              rest
        | inr (s, e) ↦ elim (Bool-cases s.active) [
          | inl active ↦
              let open_channel : s.closed ≡ false =
                ground (arith, active, (h id s e).once_active, (h id s e).once_closed) in
              goes_on (looking (id ∷ ids) msg) (sending id ids msg) b waiting b'
                (ground (arith, e, active)) refl
                (goes_on (sending id ids msg) (looking ids msg) waiting next b'
                  (ground (arith, e, active, open_channel)) refl rest)
          | inr passive ↦
              goes_on (looking (id ∷ ids) msg) (looking ids msg) b next b'
                (ground (arith, e, passive)) refl rest
        ]
      ]

  deliver-Completes :
      (earlier later : List (Sender M)) (ids : List String) (msg : M) (b : Broker M)
      → AllSettled b.subscriptors
      → Completes earlier later
          (looking ids msg)
          b
          (record b { subscriptors = deliver ids msg b.subscriptors; senders = earlier ++ later })
  unfolding advance
  deliver-Completes earlier later [] msg b h = ends msg b
  deliver-Completes earlier later (id ∷ ids) msg b h =
      let sent = send_to id msg (lookup id b.subscriptors) b.subscriptors in
      let next : Broker M = record b {
        subscriptors = sent;
        senders = earlier ++ looking ids msg ∷ later;
      } in
      pass_one earlier later id ids msg b
        (record b { subscriptors = deliver ids msg sent; senders = earlier ++ later }) h
        (deliver-Completes earlier later ids msg next (send_to-AllSettled id msg b.subscriptors h))

  -- In a broker that the methods and the goroutines have reached, a `Publish` on a topic to which
  -- something has subscribed succeeds. When its goroutine then runs to its end without a step of
  -- anything else, which it can, every active subscriptor of the topic has received the message exactly once, and
  -- the others nothing; no send panics.
  pub publish_delivers :
      (topic : String) (msg : M) (b : Broker M)
      → Reachable b
      → is_some (lookup topic b.topics) ≡ true
      → ((publish topic msg b).0 ≡ ok tt)
        × ((s : Sender M) × (b' : Broker M) × ((publish topic msg b).1.senders
              ≡ b.senders ++ s ∷ [])
            × Completes b.senders [] s (publish topic msg b).1 b'
            × (b'.panic ≡ b.panic)
            × ((id : String)
                → received_of id b' ≡ (
                    if contains (load_subscriptors topic b) id
                      && is_active (lookup id b.subscriptors)
                    then received_of id b ++ msg ∷ []
                    else received_of id b)))
  unfolding publish load_subscriptors received_of
  publish_delivers topic msg b r known = elim (Option-cases (lookup topic b.topics)) [
    | inl e ↦ absurd (ground (arith, e, known))
    | inr (ids, e) ↦
        let sound = Reachable-IsSound b r in
        let started : Broker M = record b { senders = b.senders ++ looking ids msg ∷ [] } in
        rw e (
          refl,
          (
            looking ids msg,
            record b { subscriptors = deliver ids msg b.subscriptors; senders = b.senders ++ [] },
            refl,
            deliver-Completes b.senders [] ids msg started sound.settled,
            refl,
            λ id.
                deliver-received ids id msg b.subscriptors
                  (ground (arith, e, sound.distinct topic id)),
          ),
        )
  ]
