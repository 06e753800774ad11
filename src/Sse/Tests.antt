-- ===== src/Sse/Tests.antt =====
-- Runs of the broadcaster, and its theorems at one of them.
use keep_api_gateway.Prelude.{true, List, [], ◌∷◌, ◌++◌, ◌≡◌, refl, length}
use keep_api_gateway.Prelude.Dict
use keep_api_gateway.Sse.Connections.{add_queue, drop_queue, all_queues}
use keep_api_gateway.Sse.Registry.{IsRegistered, run-IsRegistered}
use keep_api_gateway.Sse.Timeline.{timeline, all_news, timeline-run}
use keep_api_gateway.Sse.Shutdown.{is_over, turns, close_all-ends}
use keep_api_gateway.Sse.{
  keepalive, event, client, Event, subscribes, pulls, leaves, notifies, Broadcaster, init, notify,
  close_all, run, subscribe, pull, leave, finish, reopen, format_sse, live,
}

-- Two tenants, three streams, one of which left again.
abbrev opening : List Event
opening =
    subscribes "{}" "acme"
    ∷ subscribes "{}" "globex"
    ∷ subscribes "{}" "acme"
    ∷ leaves 2 client
    ∷ []

abbrev opened : Broadcaster
opened = run opening init

abbrev traffic : List Event
traffic =
    notifies "acme" "poll-alerts" "[1]"
    ∷ pulls 0
    ∷ notifies "globex" "poll-alerts" "[2]"
    ∷ notifies "acme" "incident-change" "[3]"
    ∷ pulls 0
    ∷ pulls 0
    ∷ []

broadcaster : Unit {0}
unfolding run subscribe pull leave notify close_all reopen finish add_queue drop_queue all_queues
    Dict.get Dict.put Dict.remove turns
broadcaster = tt

traffic_sent :
    (run traffic opened).sent 0
    ≡ event (format_sse "connected" "{}")
      ∷ event (format_sse "poll-alerts" "[1]")
      ∷ event (format_sse "incident-change" "[3]")
      ∷ keepalive
      ∷ []
unfolding broadcaster
traffic_sent = refl

run-IsRegistered_example : IsRegistered (run traffic init)
run-IsRegistered_example = run-IsRegistered traffic

opened_live : opened.phase 0 ≡ live
unfolding broadcaster
opened_live = refl

timeline-run_example :
    timeline (run traffic opened) 0 ≡ timeline opened 0 ++ all_news traffic opened 0
timeline-run_example =
    timeline-run traffic opened 0 (run-IsRegistered opening) (unfold broadcaster in tt)

close_all-ends_example :
    is_over (
      (turns
          (length ((run (notifies "acme" "poll-alerts" "[1]" ∷ []) (close_all opened)).queues 0))
          0
          (run (notifies "acme" "poll-alerts" "[1]" ∷ []) (close_all opened))).phase
        0)
    ≡ true
close_all-ends_example =
    close_all-ends opened (notifies "acme" "poll-alerts" "[1]" ∷ []) 0 (run-IsRegistered opening) tt
      (unfold broadcaster in refl)
