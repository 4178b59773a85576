-- ===== src/Infra/LocalBroker/Tests.antt =====
-- A broker with one topic and two subscriptors, one of which has been unsubscribed.
use zensor_server.Prelude.{
  ℕ, String, true, false, ◌&&◌, ◌≡◌, ◌≢◌, refl, some, List, [], ◌∷◌, ◌++◌, contains, string_eq,
  ==_iff, arith, lookup, insert, if◌then◌else◌, ok,
}
use zensor_server.Infra.LocalBroker.{
  send_on_closed, close_of_closed, Sender, looking, sending, Broker, new_broker, load_subscriptors,
  store_subscriptor, subscribe, safe_close, close_at, unsubscribe, publish, is_active, advance,
}
use zensor_server.Infra.LocalBroker.Closing.{
  Reachable, started, subscribed, unsubscribed, published, advanced, Reachable-closes_once,
}
use zensor_server.Infra.LocalBroker.Delivery.{Completes, received_of, publish_delivers}
use zensor_server.Infra.LocalBroker.Races.{subscription_lost, blocked_send_panics}

abbrev one_subscriptor : Broker ℕ
one_subscriptor = subscribe "metrics" "u1" new_broker

abbrev two_subscriptors : Broker ℕ
two_subscriptors = subscribe "metrics" "u2" one_subscriptor

abbrev one_left : Broker ℕ
one_left = (unsubscribe "metrics" "u1" two_subscriptors).1

one_subscriptor-Reachable : Reachable one_subscriptor
unfolding new_broker lookup
one_subscriptor-Reachable = subscribed "metrics" "u1" new_broker refl started

two_subscriptors-Reachable : Reachable two_subscriptors
unfolding new_broker subscribe store_subscriptor load_subscriptors lookup insert
two_subscriptors-Reachable =
    subscribed "metrics" "u2" one_subscriptor refl one_subscriptor-Reachable

one_left-Reachable : Reachable one_left
one_left-Reachable = unsubscribed "metrics" "u1" two_subscriptors two_subscriptors-Reachable

Reachable-closes_once_example : (unsubscribe "metrics" "u1" one_left).1.panic ≢ some close_of_closed
Reachable-closes_once_example =
    Reachable-closes_once (unsubscribe "metrics" "u1" one_left).1
      (unsubscribed "metrics" "u1" one_left one_left-Reachable)

publish_delivers_example :
    ((publish "metrics" 7 one_left).0 ≡ ok tt)
    × ((s : Sender ℕ) × (b' : Broker ℕ) × ((publish "metrics" 7 one_left).1.senders
          ≡ one_left.senders ++ s ∷ [])
        × Completes one_left.senders [] s (publish "metrics" 7 one_left).1 b'
        × (b'.panic ≡ one_left.panic)
        × ((id : String)
            → received_of id b' ≡ (
                if contains (load_subscriptors "metrics" one_left) id
                  && is_active (lookup id one_left.subscriptors)
                then received_of id one_left ++ 7 ∷ []
                else received_of id one_left)))
unfolding new_broker subscribe store_subscriptor load_subscriptors lookup insert unsubscribe
    close_at safe_close
publish_delivers_example = publish_delivers "metrics" 7 one_left one_left-Reachable refl

u3_unlisted : contains (load_subscriptors "metrics" one_left) "u3" ≡ false
unfolding new_broker subscribe store_subscriptor load_subscriptors lookup insert unsubscribe
    close_at safe_close
u3_unlisted = refl

u3_u4 : ◌≢◌ {A = String} "u3" "u4"
u3_u4 h = absurd (ground (arith, (==_iff {T = String} "u3" "u4").1 h))

subscription_lost_example :
    let loaded = load_subscriptors "metrics" one_left in
    let b' =
      store_subscriptor "metrics" "u4" loaded (store_subscriptor "metrics" "u3" loaded one_left) in
    (ids : List String) × ((publish "metrics" 7 b').1.senders
      ≡ one_left.senders ++ looking ids 7 ∷ [])
    × (contains ids "u3" ≡ false)
    × (contains ids "u4" ≡ true)
subscription_lost_example = subscription_lost "metrics" "u3" "u4" 7 one_left u3_unlisted u3_u4

abbrev published_once : Broker ℕ
published_once = (publish "metrics" 7 one_subscriptor).1

abbrev blocked : Broker ℕ
blocked = advance [] (looking ("u1" ∷ []) 7) [] published_once

blocked-Reachable : Reachable blocked
unfolding new_broker subscribe store_subscriptor load_subscriptors lookup insert publish
blocked-Reachable =
    advanced [] (looking ("u1" ∷ []) 7) [] published_once refl
      (published "metrics" 7 one_subscriptor one_subscriptor-Reachable)

blocked_send_panics_example :
    ((unsubscribe "metrics" "u1" blocked).0 ≡ ok tt)
    × ((unsubscribe "metrics" "u1" blocked).1.senders ≡ blocked.senders)
    × ((advance [] (sending "u1" [] 7) [] (unsubscribe "metrics" "u1" blocked).1).panic
        ≡ some send_on_closed)
unfolding new_broker subscribe store_subscriptor load_subscriptors lookup insert publish advance
blocked_send_panics_example =
    blocked_send_panics [] "metrics" "u1" [] 7 [] blocked blocked-Reachable refl refl refl refl refl
