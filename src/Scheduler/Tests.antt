-- ===== src/Scheduler/Tests.antt =====
-- Runs of the event loop, and each theorem at concrete events.
use kraken.Base.{
  true, false, none, some, List, Map, inl, [], ◌∷◌, ◌++◌, ◌≡◌, refl, inr, ◌<◌, get, put, del, sym,
  ap,
}
use kraken.ConnState
use kraken.ConnState.{Conn, Entry, active}
use kraken.AnnounceQueue
use kraken.Scheduler.Announcing.{saturated_of}
use kraken.Scheduler.Announcing.Order.{tick-announces_first}
use kraken.Scheduler.Clients.Runs.{
  asked_in, AllOrderly, run-new_state-Served, run-shut_down-answered,
}
use kraken.Scheduler.Waiting.{answered, Served}
use kraken.Scheduler.{
  State, Control, NewTorrent, Timeouts, Move, event, finishes, new_torrent, dispatcher_complete,
  remove_torrent_event, incoming_handshake, incoming_conn, announce_tick, announce_result,
  announces, done, deleted, new_state, add_outgoing_conn, add_incoming_conn, tick, handle_result,
  handle_new, handle_complete, handle_remove, shut_down, run,
}

abbrev timeouts : Timeouts
timeouts = record { conn_tti = 10; conn_ttl = 100; seeder_tti = 50; leecher_tti = 50 }

-- Two connections for each torrent at most.
abbrev config : ConnState.Config
config = record {
  max_open_connections_per_torrent = 2;
  max_mutual_connections = 0;
  disable_blacklist = false;
  blacklist_duration = 10;
}

abbrev torrent_a : NewTorrent
torrent_a = record { info_hash = 7; digest = 70; complete = false; dispatchable = true }

abbrev torrent_b : NewTorrent
torrent_b = record { info_hash = 8; digest = 80; complete = false; dispatchable = true }

abbrev conn_a : Conn
conn_a = record { id = 1; info_hash = 8; peer_id = 101 }

-- Two clients ask for a torrent, which finishes; a peer connects for another one.
abbrev moves : List Move
moves =
    event (new_torrent torrent_a 1)
    ∷ event (new_torrent torrent_a 2)
    ∷ event announce_tick
    ∷ event (announce_result 5 7 (100 ∷ 102 ∷ []))
    ∷ event (incoming_handshake 101 8 [])
    ∷ event (incoming_conn false true conn_a 8 (some torrent_b))
    ∷ finishes 7
    ∷ event (dispatcher_complete 7)
    ∷ event (new_torrent torrent_b 3)
    ∷ event (remove_torrent_event 70 4 true)
    ∷ []

program : Unit {0}
unfolding run new_state tick handle_result handle_new handle_complete handle_remove shut_down
    add_incoming_conn add_outgoing_conn get put del AnnounceQueue.init AnnounceQueue.next
    AnnounceQueue.ready AnnounceQueue.add AnnounceQueue.eject ConnState.init ConnState.peers_of
    ConnState.get_entry ConnState.put_entry ConnState.delete_entry ConnState.num_mutual_conns
    ConnState.add_pending ConnState.delete_pending ConnState.move_pending_to_active
    ConnState.delete_active ConnState.add_blacklist ConnState.expiration ConnState.put_expiration
    ConnState.saturated ConnState.num_active ConnState.active_conns ConnState.blacklisted
    ConnState.clear_blacklist asked_in
program = tt

found_b : (t : NewTorrent) → some torrent_b ≡ some t → t.info_hash ≡ 8
found_b t e = ap (λ o. elim o [ none ↦ 0 | some u ↦ u.info_hash ]) (sym e)

moves-AllOrderly : AllOrderly moves (new_state timeouts config 9)
unfolding program
moves-AllOrderly = (tt, (tt, (tt, (tt, (tt, (found_b, (tt, (tt, (refl, tt)))))))))

asked_3 : asked_in 3 moves ≡ true
unfolding program
asked_3 = refl

-- Three clients have their answers, and the fourth waits.
answers_so_far :
    (run moves (new_state timeouts config 9)).answers
    ≡ (1, done) ∷ (2, done) ∷ (4, deleted true) ∷ []
unfolding program
answers_so_far = refl

-- A torrent that is removed once it is complete, before its completion event is applied: its client
-- gets no answer, from the event loop or from the shutdown.
lost_moves : List Move
lost_moves =
    event (new_torrent torrent_a 1)
    ∷ finishes 7
    ∷ event (remove_torrent_event 70 4 true)
    ∷ event (dispatcher_complete 7)
    ∷ []

removed_before_complete :
    (shut_down (run lost_moves (new_state timeouts config 9))).answers ≡ (4, deleted true) ∷ []
unfolding program lost_moves
removed_before_complete = refl

run-new_state-Served_example : Served 3 (run moves (new_state timeouts config 9))
run-new_state-Served_example =
    run-new_state-Served timeouts config 9 3 moves moves-AllOrderly asked_3

run-shut_down-answered_example :
    0 < answered 3 (shut_down (run moves (new_state timeouts config 9)))
run-shut_down-answered_example =
    run-shut_down-answered timeouts config 9 3 moves moves-AllOrderly asked_3

abbrev full_peers : Map Entry
full_peers =
    (101, record { status = active; conn = none })
    ∷ (102, record { status = active; conn = none })
    ∷ []

-- Torrent 5 has no control, and torrent 7 has the two connections that are allowed.
waiting : State
waiting =
    (let s = run moves (new_state timeouts config 9) in
      record s {
        announce_queue = record { ready_queue = 5 ∷ 7 ∷ 8 ∷ []; pending = [] };
        conns = record s.conns { conns = put 7 full_peers s.conns.conns };
      })

abbrev control_b : Control
control_b = record { digest = 80; complete = false; errors = 3 ∷ []; local_request = false }

missing_5 : get 5 waiting.controls ≡ none
unfolding program waiting
missing_5 = refl

full_7 : ConnState.saturated 7 waiting.conns ≡ true
unfolding program waiting
full_7 = refl

known_8 : get 8 waiting.controls ≡ some control_b
unfolding program waiting
known_8 = refl

room_8 : ConnState.saturated 8 waiting.conns ≡ false
unfolding program waiting
room_8 = refl

waiting_queue : waiting.announce_queue.ready_queue ≡ (5 ∷ 7 ∷ []) ++ 8 ∷ []
unfolding waiting
waiting_queue = refl

tick-announces_first_example :
    ((tick waiting).effects ≡ waiting.effects ++ announces 80 8 false ∷ [])
    × ((tick waiting).announce_queue.ready_queue ≡ [] ++ saturated_of waiting (5 ∷ 7 ∷ []))
tick-announces_first_example =
    tick-announces_first waiting (5 ∷ 7 ∷ []) [] 8 control_b waiting_queue
      (inr missing_5, (inl full_7, tt)) (refl, (refl, tt)) room_8 known_8

-- Torrent 7 is back in the queue.
back_7 : saturated_of waiting (5 ∷ 7 ∷ []) ≡ 7 ∷ []
unfolding program waiting
back_7 = refl
