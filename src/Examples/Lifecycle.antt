-- ===== src/Examples/Lifecycle.antt =====
-- How a sandbox starts and stops, of thunder_sandbox/asynchronous/sandbox.py.
use thunder_sandbox.Prelude.{
  ◌+◌, ◌≤◌, ◌≡◌, ◌≢◌, refl, arith, true, false, none, some, [], ◌∷◌, codes,
}
use thunder_sandbox.Common.Errors.{Error, ErrorKind, thunder_error, ok, err, raise}
use thunder_sandbox.Common.Task.{done, waiting, ◌>>=◌}
use thunder_sandbox.Lifecycle.Box.{Box, created, ready, finished, refresh, read_startup_state}
use thunder_sandbox.Lifecycle.Poll.{Pause, sleep_until_next_poll}
use thunder_sandbox.Lifecycle.Poll.Bounds.{sleep_until_next_poll_in_time}
use thunder_sandbox.Lifecycle.Startup.{
  Round, wait_for_startup, poll_startup, startup_round, after_read,
}
use thunder_sandbox.Lifecycle.Startup.Ends.{wait_for_startup_ends}
use thunder_sandbox.Lifecycle.Terminate.{
  Answers, terminate_sandbox, stop_and_refresh, stop_sandbox, poll_stop, refresh_if,
  stop_after_startup, stop_if_live,
}
use thunder_sandbox.Lifecycle.Terminate.Ends.{Accounted, terminate_sandbox-Accounted}
use thunder_sandbox.Lifecycle.Box.{failed}
use thunder_sandbox.Lifecycle.Waiting.{
  WaitRound, poll_end, refresh_while_waiting, wait_for_end, wait_until_ready,
}
use thunder_sandbox.Lifecycle.Waiting.Ends.{ReadyIf, wait_until_ready-ReadyIf}

abbrev starting : Box
starting = record {
  status = created;
  wait_available = true;
  now = 0;
  stops = 0;
  connection_closed = false;
  client_closed = false;
}

abbrev at_once : Pause
at_once = record { jitter = λ high. 0; oversleep = 0 }

-- an older API: the wait is not found, and a plain read answers
abbrev unavailable : Round
unavailable = record {
  wait = record { reply = raise ErrorKind.not_found; took = 5 };
  read = record { reply = ok created; took = 5 };
  pause = at_once;
}

abbrev becomes_ready : Round
becomes_ready = record unavailable { read = record { reply = ok ready; took = 5 } }

-- the first read, a pause of a second, and the second read
started :
    wait_for_startup (some 60000) (unavailable ∷ becomes_ready ∷ []) starting
    ≡ (done true, record starting { status = ready; wait_available = false; now = 1015 })
unfolding wait_for_startup poll_startup startup_round after_read read_startup_state refresh
    sleep_until_next_poll
started = refl

wait_for_startup_ends_example :
    wait_for_startup (some 2) (unavailable ∷ unavailable ∷ unavailable ∷ []) starting
    ≢ (waiting, starting)
wait_for_startup_ends_example =
    wait_for_startup_ends 2 (unavailable ∷ unavailable ∷ unavailable ∷ []) starting starting
      ((omega arith, omega arith), ((omega arith, omega arith), ((omega arith, omega arith), tt)))
      (omega arith) (omega arith)

-- the API wants the sandbox to start first, and then accepts the stop
abbrev not_ready : Error
not_ready = thunder_error (record {
  kind = ErrorKind.conflict;
  code = some (codes "sandbox_not_ready");
  status = some 409;
  retry_after = none;
})

abbrev stops_later : Answers
stops_later = record {
  first_stop =
      record { request = record { reply = err not_ready; took = 5 }; pause = at_once } ∷ [];
  startup = unavailable ∷ becomes_ready ∷ [];
  second_stop = record { request = record { reply = ok tt; took = 5 }; pause = at_once } ∷ [];
  last = record { reply = ok finished; took = 5 };
}

terminate_sandbox-Accounted_example :
    Accounted starting.stops (terminate_sandbox true (some 60000) stops_later starting)
terminate_sandbox-Accounted_example =
    terminate_sandbox-Accounted true (some 60000) stops_later starting

stopped : terminate_sandbox true (some 60000) stops_later starting ≡ (
  done tt,
  record {
    status = finished;
    wait_available = false;
    now = 1030;
    stops = 1;
    connection_closed = true;
    client_closed = true;
  },
)
unfolding terminate_sandbox stop_and_refresh stop_sandbox poll_stop refresh_if stop_after_startup
    stop_if_live wait_for_startup poll_startup startup_round after_read read_startup_state refresh
    sleep_until_next_poll ◌>>=◌
stopped = refl

sleep_until_next_poll_in_time_example :
    (sleep_until_next_poll (some 500) 1000 (some 2000) at_once starting).now
    ≤ 500 + at_once.oversleep
sleep_until_next_poll_in_time_example =
    sleep_until_next_poll_in_time 500 1000 (some 2000) at_once starting (omega arith)

abbrev running_on : WaitRound
running_on = record { request = record { reply = ok ready; took = 5 }; pause = at_once }

abbrev unreachable : WaitRound
unreachable = record running_on {
  request = record { reply = raise ErrorKind.connection; took = 5 };
}

abbrev over : WaitRound
over = record running_on { request = record { reply = ok failed; took = 5 } }

-- pauses of one and of two seconds
failed_at :
    wait_for_end none (running_on ∷ unreachable ∷ over ∷ []) starting
    ≡ (done 1, record starting { status = failed; now = 3015 })
unfolding wait_for_end poll_end refresh_while_waiting refresh sleep_until_next_poll
failed_at = refl
