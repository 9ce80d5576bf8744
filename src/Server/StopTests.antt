-- ===== src/Server/StopTests.antt =====
-- A server that is started, joined by a client and stopped.
use gef_engine.Prelude.{◌≤◌, ◌<◌, ◌≡◌, refl, false, [], some}
use gef_engine.Protocol.{ClientId, encode_join_request}
use gef_engine.Server.{handle_join}
use gef_engine.Server.Methods.{broadcast}
use gef_engine.Server.Tests.{hello_request}
use gef_engine.Server.Threads.{
  Host, host, start, watch, join_finished, end_joins, end_watchdog, collect_slots, join_slots,
}
use gef_engine.Server.Stopping.{
  Reach, begins, joins, calls, watches, finishes, stops, rounds_end, collects, ends, origin, next,
  send_all,
}
use gef_engine.Server.Hosted.{Joined}
use gef_engine.Server.Ended.{Reach-joined}

abbrev joined_host : Host
joined_host =
    let h = start host in
    record h {
      server = (handle_join (some 5001) 1000 (encode_join_request hello_request) h.server).0;
    }

-- The client has left by the time that stop begins, and the game still sends to everyone.
abbrev swept_host : Host
swept_host = join_finished (watch 5000 joined_host)

abbrev ending_host : Host
ending_host = end_watchdog (end_joins swept_host)

abbrev late_host : Host
late_host = let h = collect_slots ending_host in record h { server = broadcast 3 [] 9 h.server }

abbrev ended_host : Host
ended_host = join_slots late_host

ended_host-Reach : Reach host ended_host
unfolding host start end_joins end_watchdog watch join_finished collect_slots
ended_host-Reach =
    next
      (next
        (next
          (next
            (next
              (next
                (next
                  (next (next origin (begins host))
                    (joins (start host) (some 5001) 1000 (encode_join_request hello_request) refl))
                  (watches joined_host 5000 refl refl))
                (finishes (watch 5000 joined_host)))
              (stops swept_host))
            (rounds_end (end_joins swept_host) refl refl))
          (collects ending_host refl))
        (calls (collect_slots ending_host) _ (send_all (collect_slots ending_host).server 3 [] 9)))
      (ends late_host refl)

Reach-joined_example :
    (ended_host.join_runs ≡ false)
    × (ended_host.watchdog_runs ≡ false)
    × (ended_host.server.clients ≡ [])
    × (ended_host.server.retired ≡ [])
    × ((k : ClientId) → 1 ≤ k → k < ended_host.server.next_id → Joined k ended_host.joined)
unfolding join_slots
Reach-joined_example = Reach-joined ended_host ended_host-Reach refl
