-- ===== src/Connection/Examples/Links.antt =====
-- internal/app/connection/connection.go: the dispatch keys of an event map at concrete inputs.
use event_api.Base.{
  ℕ, suc, ◌≡◌, refl, List, [], ◌∷◌, none, some, true, false, Bytes, codes, bytes_dec, arith, if_pos,
  sym, lookup, ◌≢◌,
}
use event_api.Nats
use event_api.Nats.{Registry}
use event_api.Nats.History as Calls
use event_api.Nats.Subscribing.{init-IsConsistent}
use event_api.Connection.Types.{Env, EnvLaws, EventCondition}
use event_api.Connection.EventMap.{EventMap, new_event_map}
use event_api.Connection.EventMap.Linking.{empty-IsLinked, IsLinked, KeyLaws}
use event_api.Connection.EventMap.Linking.Histories.{
  Operation, subscribing, unsubscribing, foreign, perform_all, perform_all-IsLinked,
}
use event_api.Connection.Session.{Session, new_session}
use event_api.Connection.WebSocket.Reading
use event_api.Connection.WebSocket.Reading.{new_loop}
use event_api.Connection.WebSocket.Linked.{perform_loops-IsLinked}
use event_api.Connection.EventStream.Reading as Stream
use event_api.Connection.EventStream.Linked.{perform_streams-IsLinked}
use event_api.Connection.Fixtures.{sample_cfg, sample_history, to_raw, stream_history}
use event_api.Connection.Samples.{
  sample_env, sample_env-EnvLaws, emote_update, object_is_1, same_condition, same_text,
}

-- A text with an end that no other has.
abbrev ended : Bytes → Bytes → Bytes
ended [] rest = 0 ∷ rest
ended (x ∷ xs) rest = suc x ∷ ended xs rest

abbrev condition_key : EventCondition → Bytes
condition_key [] = []
condition_key ((k, v) ∷ c) = ended k (ended v (condition_key c))

-- The sample environment with a dispatch key that tells all conditions apart.
abbrev keyed_env : Env (List ℕ)
keyed_env = record sample_env { dispatch_key = λ t c. ended t (condition_key c) }

ended_inj : (a b r s : Bytes) → ended a r ≡ ended b s → (a ≡ b) × (r ≡ s)
ended_inj [] [] r s h = (refl, cc)
ended_inj [] (y ∷ b) r s h = absurd (ground arith)
ended_inj (x ∷ a) [] r s h = absurd (ground arith)
ended_inj (x ∷ a) (y ∷ b) r s h = let (p, q) = ended_inj a b r s (cc) in (ground arith, q)

same_text_self : (k : Bytes) → same_text k k ≡ true
same_text_self k = if_pos (bytes_dec k k) refl true false

ended_ne : (a r : Bytes) → ended a r ≢ []
ended_ne [] r h = absurd (ground arith)
ended_ne (x ∷ a) r h = absurd (ground arith)

same_condition_of :
    (c d : EventCondition) → condition_key c ≡ condition_key d → same_condition c d ≡ true
same_condition_of [] [] h = refl
same_condition_of [] ((k, v) ∷ d) h = absurd (ended_ne k (ended v (condition_key d)) (sym h))
same_condition_of ((k, v) ∷ c) [] h = absurd (ended_ne k (ended v (condition_key c)) h)
same_condition_of ((k, v) ∷ c) ((k', v') ∷ d) h =
    let (p, q) = ended_inj k k' (ended v (condition_key c)) (ended v' (condition_key d)) h in
    let (p', q') = ended_inj v v' (condition_key c) (condition_key d) q in
    rw (sym p, sym p', same_text_self k, same_text_self v) (same_condition_of c d q')

keyed_env-KeyLaws : KeyLaws keyed_env
keyed_env-KeyLaws = record {
  tells = λ t u c d h.
      let (p, q) = ended_inj t u (condition_key c) (condition_key d) h in
      (p, same_condition_of c d q);
}

keyed_env-EnvLaws : EnvLaws keyed_env
keyed_env-EnvLaws = record {
  slice_remove-map = sample_env-EnvLaws.slice_remove-map;
  slice_remove-occurrences = sample_env-EnvLaws.slice_remove-occurrences;
  slice_left-map = sample_env-EnvLaws.slice_left-map;
  slice_left-length = sample_env-EnvLaws.slice_left-length;
  slice_left-one = sample_env-EnvLaws.slice_left-one;
  has-empty_set = sample_env-EnvLaws.has-empty_set;
  has-add = sample_env-EnvLaws.has-add;
  has-delete = sample_env-EnvLaws.has-delete;
  contains-values = sample_env-EnvLaws.contains-values;
}

abbrev fresh_map : EventMap
fresh_map = new_event_map 0 (codes "a")

abbrev object_is_2 : EventCondition
object_is_2 = (codes "object_id", codes "2") ∷ []

-- Two subscriptions, one of them withdrawn while another session comes and goes.
abbrev calls : List Operation
calls =
    subscribing 1 emote_update object_is_1 (record { ttl = none; auto = false })
    ∷ foreign (Calls.subscribing (record { ch = 1; session_id = codes "b" }) (codes "x" ∷ []))
    ∷ subscribing 2 emote_update object_is_2 (record { ttl = none; auto = false })
    ∷ foreign (Calls.closing (record { ch = 1; session_id = codes "b" }))
    ∷ unsubscribing emote_update object_is_1
    ∷ []

perform_all-IsLinked_example :
    (e : EventMap) × (r : Registry) × (perform_all keyed_env calls fresh_map Nats.init
      ≡ some (e, r))
    × IsLinked keyed_env true e r
unfolding new_event_map bytes_dec Nats.is_subscribed Nats.init lookup
perform_all-IsLinked_example =
    perform_all-IsLinked keyed_env keyed_env-EnvLaws keyed_env-KeyLaws true calls fresh_map
      Nats.init (tt, (refl, (tt, (refl, (refl, tt)))))
      (empty-IsLinked keyed_env true fresh_map Nats.init refl init-IsConsistent (λ k. refl))

-- A new session of the keyed environment.
abbrev keyed_session : Session (List ℕ)
keyed_session = new_session keyed_env sample_cfg (codes "raw") (codes "hex") 0 Nats.init

perform_loops-IsLinked_example :
    (l' : Reading.Loop (List ℕ)) × (Reading.perform_all keyed_env sample_cfg sample_history
        (new_loop keyed_session)
      ≡ some l')
    × IsLinked keyed_env false l'.session.events l'.session.registry
unfolding new_event_map new_session new_loop Nats.is_subscribed Nats.init lookup
perform_loops-IsLinked_example =
    perform_loops-IsLinked keyed_env keyed_env-EnvLaws keyed_env-KeyLaws sample_cfg sample_history
      (new_loop keyed_session) (tt, (tt, (tt, (tt, (tt, (tt, tt))))))
      (empty-IsLinked keyed_env false keyed_session.events Nats.init refl init-IsConsistent
        (λ k. refl))

abbrev keyed_stream : Stream.Loop (List ℕ)
keyed_stream = record { session = keyed_session; running = false }

perform_streams-IsLinked_example :
    (l' : Stream.Loop (List ℕ)) × (Stream.perform_all keyed_env sample_cfg to_raw stream_history
        keyed_stream
      ≡ some l')
    × IsLinked keyed_env false l'.session.events l'.session.registry
unfolding new_event_map new_session Nats.is_subscribed Nats.init lookup
perform_streams-IsLinked_example =
    perform_streams-IsLinked keyed_env keyed_env-EnvLaws keyed_env-KeyLaws sample_cfg to_raw
      stream_history keyed_stream (tt, (tt, (tt, (tt, (tt, tt)))))
      (empty-IsLinked keyed_env false keyed_session.events Nats.init refl init-IsConsistent
        (λ k. refl))
