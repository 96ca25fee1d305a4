-- ===== src/Tests/Events.antt =====
-- The event loop at concrete events.
use mqttbroker.Base.{
  ℕ, ◌≡◌, refl, true, none, some, [], ◌∷◌, ◌++◌, arith, dangling, ok, fault, Returns,
}
use mqttbroker.Network.EventLoop.{
  descriptor, pointer, EpollEvent, Task, EventLoop, shut, called, is_down, evloop_init,
  evloop_add_periodic_task, periodic_call, handle_event, handle_events, interrupted, failed, ready,
  evloop_wait,
}
use mqttbroker.Network.EventLoop.Tasks.{IsEventLoop, evloop_add_periodic_task-IsEventLoop}
use mqttbroker.Network.EventLoop.Calls.{evloop_wait-actions_of}
use mqttbroker.Network.EventLoop.Timer.{evloop_wait-timer_round}

abbrev statistics : Task
statistics = record { timerfd = 5; closure = 4096 }

abbrev timer : EpollEvent
timer = record { events = 1; epoll_data = descriptor 5 }

abbrev readable : ℕ → EpollEvent
readable closure = record { events = 1; epoll_data = pointer closure }

abbrev hung_up : EpollEvent
hung_up = record { events = 17; epoll_data = pointer 512 }

evloop_wait-actions_of_example :
    evloop_wait
      (statistics ∷ [])
      (interrupted ∷ ready 2 (readable 256 ∷ hung_up ∷ []) ∷ failed 9 ∷ [])
    ≡ ok (called 256 ∷ shut 512 ∷ [], some 9)
unfolding is_down
evloop_wait-actions_of_example =
    evloop_wait-actions_of (statistics ∷ [])
      (interrupted ∷ ready 2 (readable 256 ∷ hung_up ∷ []) ∷ []) [] 9
      (
        tt,
        (
          (
            omega arith,
            (((λ e. absurd (omega (arith, e))), tt), (((λ e. absurd (omega (arith, e))), tt), tt)),
            ((256, refl), ((512, refl), tt)),
          ),
          tt,
        ),
      )

-- The task runs once for the timer and once in place of the closure.
evloop_wait-timer_round_example :
    evloop_wait (statistics ∷ []) (ready 2 (timer ∷ readable 256 ∷ []) ∷ [])
    ≡ ok (called 4096 ∷ called 4096 ∷ [], none)
unfolding is_down
evloop_wait-timer_round_example =
    evloop_wait-timer_round statistics timer [] (readable 256 ∷ []) refl refl tt tt

-- The other order.
timer_second_run :
    evloop_wait (statistics ∷ []) (ready 2 (readable 256 ∷ timer ∷ []) ∷ []) ≡ fault dangling
unfolding evloop_wait handle_events handle_event periodic_call is_down
timer_second_run = refl

abbrev new_loop : EventLoop
new_loop = record {
  epollfd = 3;
  max_events = 256;
  timeout = 0;
  status = 0;
  periodic_maxsize = 4;
  periodic_nr = 4;
  periodic_tasks = statistics ∷ statistics ∷ statistics ∷ statistics ∷ [];
}

evloop_add_periodic_task-IsEventLoop_example :
    IsEventLoop (evloop_init 3 256 0)
    × (Returns (evloop_add_periodic_task true true 6 512 new_loop) λ loop.
        IsEventLoop loop
        × (loop.periodic_tasks
            ≡ new_loop.periodic_tasks ++ (record { timerfd = 6; closure = 512 } ∷ [])))
evloop_add_periodic_task-IsEventLoop_example =
    evloop_add_periodic_task-IsEventLoop new_loop true true 6 512
      (record { counted = refl; room = omega arith; nonempty = omega arith }) (omega arith)
